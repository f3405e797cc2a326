-- ===== src/Routing/Building.antt =====
-- Paths that are written from the segments of a route and the values of its parameters
-- (compilePath and routeRequest, server/server.go).
use Prim.Native.Char.{Char, code}
use Prim.Native.String.{String}
use text.Mathlib.TextLemmas.{nil-append, cons-append, append-nil}
use stripe_mock_pi.Prelude.{
  ◌≡◌, refl, sym, ◌∙◌, ap, Bool, true, false, List, [], ◌∷◌, ◌++◌, Option, none, some, ltb, arith,
  eq_refl, All, ℕ, zero, suc, ◌-◌, ◌≤◌, ◌||◌, ◌&&◌, nat_eq, length, if◌then◌else◌, Bool-cases, inl,
  inr,
}
use stripe_mock_pi.Text.{◌<>◌, split}
use stripe_mock_pi.Text.Split.{without, split-without, split-cons}
use stripe_mock_pi.Server.{PathParams, SecondaryId}
use stripe_mock_pi.Routing.{
  is_word, names_of, Segment, literal, parameter, all_allowed, is_parameter_value, match_parts,
  behind_slash, match_path, and_value, Route,
}
use stripe_mock_pi.Routing.Table.{
  parameters, found, secondary_ids_of, last_of, unescape_all, path_params_of, first_route, at_match,
  routed_to, with_values,
}
use stripe_mock_pi.Form.Order.{plain, unescape-plain}

-- The parts of the path, and the path, with the values in the places of the parameters.
abbrev pub parts_for : List Segment → List String → List String
parts_for [] values = []
parts_for (literal text ∷ rest) values = text ∷ parts_for rest values
parts_for (parameter name ∷ rest) [] = []
parts_for (parameter name ∷ rest) (v ∷ values) = v ∷ parts_for rest values

abbrev pub path_for : List String → String
path_for [] = ""
path_for (part ∷ parts) = "/" <> (part <> path_for parts)

-- A text of letters, digits, underscores and hyphens, which as a regular expression matches itself.
abbrev matches_itself : String → Bool
matches_itself String.[] = true
matches_itself (String.◌∷◌ c s) = (is_word (code c) || nat_eq (code c) 45) && matches_itself s

-- Literals that match themselves, and for each parameter a value that its pattern takes.
abbrev pub FitsPath : List Segment → List String → Type 0
FitsPath [] [] = Unit
FitsPath [] (v ∷ values) = ⊥
FitsPath (literal text ∷ rest) values = (matches_itself text ≡ true) × FitsPath rest values
FitsPath (parameter name ∷ rest) [] = ⊥
FitsPath (parameter name ∷ rest) (v ∷ values) = (is_parameter_value v ≡ true) × FitsPath rest values

abbrev Slashless : List String → Type 0
Slashless [] = Unit
Slashless (part ∷ parts) = (without 47 part ≡ true) × Slashless parts

without-all_allowed : (s : String) → all_allowed s ≡ true → without 47 s ≡ true
without-all_allowed String.[] h = refl
without-all_allowed (String.◌∷◌ c s) h = ground (arith, without-all_allowed s)

without-is_parameter_value : (s : String) → is_parameter_value s ≡ true → without 47 s ≡ true
without-is_parameter_value String.[] h = refl
without-is_parameter_value (String.◌∷◌ c s) h = without-all_allowed (String.◌∷◌ c s) h

without-matches_itself : (s : String) → matches_itself s ≡ true → without 47 s ≡ true
without-matches_itself String.[] h = refl
without-matches_itself (String.◌∷◌ c s) h = ground (arith, without-matches_itself s)

Slashless-parts_for :
    (segments : List Segment) (values : List String)
    → FitsPath segments values
    → Slashless (parts_for segments values)
Slashless-parts_for [] values h = tt
Slashless-parts_for (literal text ∷ rest) values h =
    (without-matches_itself text h.0, Slashless-parts_for rest values h.1)
Slashless-parts_for (parameter name ∷ rest) [] h = tt
Slashless-parts_for (parameter name ∷ rest) (v ∷ values) h =
    (without-is_parameter_value v h.0, Slashless-parts_for rest values h.1)

abbrev slash : Char
slash = "/"

split-path_for :
    (first : String) (parts : List String)
    → without 47 first ≡ true
    → Slashless parts
    → split 47 (first <> path_for parts) ≡ first ∷ parts
split-path_for first [] h k = rw append-nil (split-without 47 first h)
split-path_for first (part ∷ parts) h k =
    ap (λ t. split 47 (first <> t))
      (cons-append slash "" (part <> path_for parts)
        ∙ ap (λ t. String.◌∷◌ slash t) (nil-append (part <> path_for parts)))
    ∙ split-cons 47 first slash (part <> path_for parts) refl h
    ∙ ap (λ l. first ∷ l) (split-path_for part parts k.0 k.1)

match_parts-parts_for :
    (segments : List Segment) (values : List String)
    → FitsPath segments values
    → match_parts segments (parts_for segments values) ≡ some values
unfolding match_parts
match_parts-parts_for [] [] h = refl
match_parts-parts_for (literal text ∷ rest) values h =
    rw (eq_refl text) (match_parts-parts_for rest values h.1)
match_parts-parts_for (parameter name ∷ rest) (v ∷ values) h =
    rw h.0 (ap (and_value v) (match_parts-parts_for rest values h.1))
match_parts-parts_for [] (v ∷ values) h = elim h [ ]
match_parts-parts_for (parameter name ∷ rest) [] h = elim h [ ]

-- The path that is written from a route's segments and values for its parameters, where the
-- literals match themselves and each value is not empty and of allowed characters, is matched by the
-- segments, and the match gives back those values in their order.
pub match_path-path_for :
    (segments : List Segment) (values : List String)
    → FitsPath segments values
    → match_path segments (path_for (parts_for segments values)) ≡ some values
unfolding match_path behind_slash
match_path-path_for segments values h =
    let parts = parts_for segments values in
    let divided : split 47 (path_for parts) ≡ "" ∷ parts =
      ap (split 47) (sym (nil-append (path_for parts)))
      ∙ split-path_for "" parts refl (Slashless-parts_for segments values h) in
    rw divided (match_parts-parts_for segments values h)

unescape_all-plain :
    (values : List String) → All (λ v. plain v ≡ true) values → unescape_all values ≡ some values
unfolding unescape_all
unescape_all-plain [] h = refl
unescape_all-plain (v ∷ values) h = rw (unescape-plain v h.0, unescape_all-plain values h.1) refl

length-names_of :
    (segments : List Segment) (values : List String)
    → FitsPath segments values
    → length (names_of segments) ≡ length values
length-names_of [] [] h = refl
length-names_of [] (v ∷ values) h = elim h [ ]
length-names_of (literal text ∷ rest) values h = length-names_of rest values h.1
length-names_of (parameter name ∷ rest) [] h = elim h [ ]
length-names_of (parameter name ∷ rest) (v ∷ values) h =
    omega (arith, length-names_of rest values h.1)

-- Values under the names of the parameters, the first under the first.
abbrev pub named : (names values : List String) → List SecondaryId
named [] values = []
named (name ∷ names) [] = []
named (name ∷ names) (v ∷ values) =
    record { id = v; name = name; replaced_ids = [] } ∷ named names values

abbrev with_ids : Option String → List SecondaryId → PathParams
with_ids primary_id ids = record {
  primary_id = primary_id;
  secondary_ids = ids;
  replaced_primary_id = none;
}

abbrev pub ids_of_path : (primary_id : Option String) → (names values : List String) → PathParams
ids_of_path primary_id names values = with_ids primary_id (named names values)

++-nil : (xs : List String) → xs ++ [] ≡ xs
++-nil [] = refl
++-nil (x ∷ xs) = ap (λ l. x ∷ l) (++-nil xs)

secondary_ids_of-named :
    (n : ℕ) (values behind names : List String)
    → n ≡ length values
    → n ≤ length names
    → secondary_ids_of n (values ++ behind) names ≡ named names values
unfolding secondary_ids_of
secondary_ids_of-named zero [] behind [] h k = refl
secondary_ids_of-named zero [] behind (name ∷ names) h k = refl
secondary_ids_of-named zero (v ∷ values) behind names h k = absurd (omega (arith, h))
secondary_ids_of-named (suc n) [] behind names h k = absurd (omega (arith, h))
secondary_ids_of-named (suc n) (v ∷ values) behind [] h k = absurd (omega (arith, k))
secondary_ids_of-named (suc n) (v ∷ values) behind (name ∷ names) h k =
    ap (λ l. record { id = v; name = name; replaced_ids = [] } ∷ l)
      (secondary_ids_of-named n values behind names (omega (arith, h)) (omega (arith, k)))

last_of-snoc : (values : List String) (last : String) → last_of (values ++ (last ∷ [])) ≡ some last
last_of-snoc [] last = refl
last_of-snoc (v ∷ []) last = refl
last_of-snoc (v ∷ w ∷ values) last = last_of-snoc (w ∷ values) last

length-snoc :
    (values : List String) (last : String) → length (values ++ (last ∷ [])) ≡ suc (length values)
length-snoc [] last = refl
length-snoc (v ∷ values) last = omega (arith, length-snoc values last)

path_params_of-snoc :
    (route : Route) (values : List String) (last : String)
    → length (names_of route.segments) ≡ suc (length values)
    → path_params_of route (values ++ (last ∷ [])) ≡ (
        if route.has_primary_id
        then ids_of_path (some last) (names_of route.segments) values
        else ids_of_path none (names_of route.segments) (values ++ (last ∷ [])))
unfolding path_params_of
path_params_of-snoc route values last h =
    let names = names_of route.segments in
    let all = values ++ (last ∷ []) in
    elim (Bool-cases route.has_primary_id) [
      | inl e ↦ rw e (
          ap (λ ids. with_ids (last_of all) ids)
            (secondary_ids_of-named (parameters route - 1) values (last ∷ []) names
              (omega (arith, h)) (omega (arith, h)))
          ∙ ap (λ o. with_ids o (named names values)) (last_of-snoc values last))
      | inr e ↦ rw e (
          ap (λ ids. with_ids none ids)
            (ap (λ l. secondary_ids_of (parameters route) l names) (sym (++-nil all))
              ∙ secondary_ids_of-named (parameters route) all [] names
                  (omega (arith, h, length-snoc values last)) (omega arith)))
    ]

-- A request for the path that is written from the segments of the first route, whose literals match
-- themselves as regular expressions, and from values of its parameters, at least one, each of
-- allowed characters without percent, plus, ampersand, equals and question mark, is routed there.
-- Where the route has a primary id, it is the last value, and the values before it are the other
-- ids, in order and each under the name of its parameter; where it has none, all values are.
pub first_route-path_for :
    (route : Route) (rest : List Route) (values : List String) (last : String)
    → FitsPath route.segments (values ++ (last ∷ []))
    → All (λ v. plain v ≡ true) (values ++ (last ∷ []))
    → first_route (path_for (parts_for route.segments (values ++ (last ∷ [])))) (route ∷ rest)
      ≡ found route (
          some (
            if route.has_primary_id
            then ids_of_path (some last) (names_of route.segments) values
            else ids_of_path none (names_of route.segments) (values ++ (last ∷ []))))
unfolding first_route at_match routed_to with_values
first_route-path_for route rest values last fits plain_values =
    let all = values ++ (last ∷ []) in
    let count : length (names_of route.segments) ≡ suc (length values) =
      length-names_of route.segments all fits ∙ length-snoc values last in
    let some_names : ltb (parameters route) 1 ≡ false = ground (arith, count) in
    rw
      (match_path-path_for route.segments all fits, some_names, unescape_all-plain all plain_values)
      (ap (λ p. found route (some p)) (path_params_of-snoc route values last count))
