-- ===== src/Expand/Enough.antt =====
-- The fuel that parseExpansionLevel (server/server.go) needs.
use Prim.Native.Char.{Char, code}
use Prim.Native.String.{String, count}
use text.Mathlib.TextLemmas.{nil-append, cons-append, length-cons}
use stripe_mock_pi.Prelude.{
  ℕ, zero, suc, false, ◌+◌, ◌≤◌, ◌<◌, ◌≡◌, refl, ap, ◌∙◌, List, [], ◌∷◌, ◌++◌, Dict, lookup, insert,
  length, All, ◌==◌, if◌then◌else◌, arith, nat_eq, Bool-cases, inl, inr,
}
use stripe_mock_pi.Text.{split, add_char, join, sort, insert_text, text_le, ◌<>◌}
use stripe_mock_pi.Expand.{
  ExpansionLevel, level, Expansions, put_expansion, Parsed, or_none, parse_parts, parse_all, start,
  add_groups, parse_expansion_level, fuel_for, parse_with_fuel,
}

-- The dots of a text.
abbrev pub dots : String → ℕ
dots String.[] = 0
dots (String.◌∷◌ c s) = if nat_eq (code c) b'.' then suc (dots s) else dots s

-- The dots of some texts together.
abbrev dots_of : List String → ℕ
dots_of [] = 0
dots_of (s ∷ l) = dots s + dots_of l

dots-append : (s t : String) → dots (s <> t) ≡ dots s + dots t
dots-append String.[] t = rw nil-append (omega arith)
dots-append (String.◌∷◌ c s) t = rw cons-append (elim (Bool-cases (nat_eq (code c) b'.')) [
  | inl e ↦ rw e (omega (arith, dots-append s t))
  | inr e ↦ rw e (dots-append s t)
])

dots-join :
    (part : String) (parts : List String)
    → dots (join "." (part ∷ parts)) ≡ length parts + dots_of (part ∷ parts)
unfolding join
dots-join part [] = omega arith
dots-join part (next ∷ parts) =
    let below = dots-join next parts in
    let rest = join "." (next ∷ parts) in
    omega (arith, below, dots-append part ("." <> rest), dots-append "." rest)

-- What a split leaves of the dots: one more part than there are dots, and no dot in a part.
abbrev Parts : ℕ → List String → Type 0
Parts n l = (length l ≡ suc n) × (dots_of l ≡ 0)

Parts-add_char :
    (c : Char) (n : ℕ) (l : List String)
    → nat_eq (code c) b'.' ≡ false
    → Parts n l
    → Parts n (add_char c l)
Parts-add_char c n [] e h = absurd (omega (arith, h.0))
Parts-add_char c n (part ∷ parts) e h = rw e h

Parts-split : (s : String) → Parts (dots s) (split b'.' s)
unfolding split
Parts-split String.[] = (refl, refl)
Parts-split (String.◌∷◌ c s) = elim (Bool-cases (nat_eq (code c) b'.')) [
  | inl e ↦ rw e (let h = Parts-split s in (omega (arith, h.0), omega (arith, h.1)))
  | inr e ↦ rw e (Parts-add_char c (dots s) (split b'.' s) e (Parts-split s))
]

-- Every text has fewer dots than this.
abbrev Below : ℕ → List String → Type 0
Below k = All (λ s. dots s < k)

abbrev Groups : ℕ → Dict (List String) → Type 0
Groups k = All (λ g. Below k g.1)

All-insert_text :
    (P : String → Type 0) (s : String) (l : List String) → P s → All P l → All P (insert_text s l)
unfolding insert_text
All-insert_text P s [] p h = (p, tt)
All-insert_text P s (t ∷ l) p h = elim (Bool-cases (text_le s t)) [
  | inl e ↦ rw e (p, h)
  | inr e ↦ rw e (h.0, All-insert_text P s l p h.1)
]

All-sort : (P : String → Type 0) (l : List String) → All P l → All P (sort l)
unfolding sort
All-sort P [] h = tt
All-sort P (s ∷ l) h = All-insert_text P s (sort l) h.0 (All-sort P l h.1)

Groups-insert :
    (k : ℕ) (key : String) (subs : List String) (groups : Dict (List String))
    → Below k subs
    → Groups k groups
    → Groups k (insert key subs groups)
unfolding insert
Groups-insert k key subs [] p h = (p, tt)
Groups-insert k key subs ((first, old) ∷ rest) p h = elim (Bool-cases (first == key)) [
  | inl e ↦ rw e (p, h.1)
  | inr e ↦ rw e (h.0, Groups-insert k key subs rest p h.1)
]

Below-lookup :
    (k : ℕ) (key : String) (groups : Dict (List String))
    → Groups k groups
    → Below k (or_none (lookup key groups))
unfolding lookup
Below-lookup k key [] h = tt
Below-lookup k key ((first, old) ∷ rest) h = elim (Bool-cases (first == key)) [
  | inl e ↦ rw e h.0
  | inr e ↦ rw e (Below-lookup k key rest h.1)
]

Below-snoc :
    (k : ℕ) (l : List String) (s : String) → Below k l → dots s < k → Below k (l ++ (s ∷ []))
Below-snoc k [] s h p = (p, tt)
Below-snoc k (t ∷ l) s h p = (h.0, Below-snoc k l s h.1 p)

Groups-parse_parts :
    (k n : ℕ) (parts : List String) (p : Parsed)
    → Parts n parts
    → n < suc k
    → Groups k p.groups
    → Groups k (parse_parts parts p).groups
Groups-parse_parts k n [] p parts le h = h
Groups-parse_parts k n (part ∷ []) p parts le h = elim (Bool-cases (part == "*")) [
  | inl e ↦ rw e h
  | inr e ↦ rw e h
]
Groups-parse_parts k n (part ∷ next ∷ rest) p parts le h =
    let shorter : dots (join "." (next ∷ rest)) < k =
      omega (arith, dots-join next rest, parts.0, parts.1) in
    let old = or_none (lookup part p.groups) in
    Groups-insert k part (old ++ (join "." (next ∷ rest) ∷ [])) p.groups
      (Below-snoc k old (join "." (next ∷ rest)) (Below-lookup k part p.groups h) shorter) h

Groups-parse_all :
    (k : ℕ) (raw : List String) (p : Parsed)
    → Below (suc k) raw
    → Groups k p.groups
    → Groups k (parse_all raw p).groups
unfolding parse_all
Groups-parse_all k [] p below h = h
Groups-parse_all k (s ∷ raw) p below h =
    Groups-parse_all k raw (parse_parts (split b'.' s) p) below.1
      (Groups-parse_parts k (dots s) (split b'.' s) p (Parts-split s) below.0 h)

-- Two parsers that agree on what the groups hold.
add_groups-agree :
    (parse other : List String → ExpansionLevel) (k j : ℕ)
    → ((l : List String) → Below k l → Below j l → parse l ≡ other l)
    → (groups : Dict (List String)) (e : Expansions) → Groups k groups
    → Groups j groups
    → add_groups parse groups e ≡ add_groups other groups e
unfolding add_groups
add_groups-agree parse other k j agree [] e h i = refl
add_groups-agree parse other k j agree ((key, subs) ∷ groups) e h i =
    rw (agree subs h.0 i.0)
      (add_groups-agree parse other k j agree groups (put_expansion e key (other subs)) h.1 i.1)

-- One level, with the parser for the level below.
abbrev pub level_by : (List String → ExpansionLevel) → List String → ExpansionLevel
level_by parse raw =
    let p = parse_all (sort raw) start in level p.wildcard (add_groups parse p.groups p.expansions)

level_by-agree :
    (parse other : List String → ExpansionLevel) (k j : ℕ)
    → ((l : List String) → Below k l → Below j l → parse l ≡ other l)
    → (raw : List String) → Below (suc k) raw
    → Below (suc j) raw
    → level_by parse raw ≡ level_by other raw
level_by-agree parse other k j agree raw h i =
    let p = parse_all (sort raw) start in
    let groups = λ (n : ℕ) (below : Below (suc n) raw).
      Groups-parse_all n (sort raw) start (All-sort (λ s. dots s < suc n) raw below) tt in
    ap (level p.wildcard)
      (add_groups-agree parse other k j agree p.groups p.expansions (groups k h) (groups j i))

-- More fuel than an expansion has dots is as good as any other such fuel.
parse_expansion_level-agree :
    (k j : ℕ) (raw : List String)
    → Below k raw
    → Below j raw
    → parse_expansion_level k raw ≡ parse_expansion_level j raw
unfolding parse_expansion_level parse_all add_groups sort
parse_expansion_level-agree zero zero raw h i = refl
parse_expansion_level-agree zero (suc j) [] h i = refl
parse_expansion_level-agree zero (suc j) (s ∷ raw) h i = absurd (omega (arith, h.0))
parse_expansion_level-agree (suc k) zero [] h i = refl
parse_expansion_level-agree (suc k) zero (s ∷ raw) h i = absurd (omega (arith, i.0))
parse_expansion_level-agree (suc k) (suc j) raw h i =
    level_by-agree (parse_expansion_level k) (parse_expansion_level j) k j
      (parse_expansion_level-agree k j) raw h i

dots_le : (s : String) → dots s ≤ count s
dots_le String.[] = omega arith
dots_le (String.◌∷◌ c s) = elim (Bool-cases (nat_eq (code c) b'.')) [
  | inl e ↦ rw e (omega (arith, dots_le s, length-cons c s))
  | inr e ↦ rw e (omega (arith, dots_le s, length-cons c s))
]

Below-more : (n m : ℕ) (raw : List String) → n ≤ m → Below n raw → Below m raw
Below-more n m [] le h = tt
Below-more n m (s ∷ raw) le h = (omega (arith, h.0), Below-more n m raw le h.1)

fuel_positive : (raw : List String) → 0 < fuel_for raw
fuel_positive [] = omega arith
fuel_positive (s ∷ raw) = omega (arith, fuel_positive raw)

Below-fuel_for : (raw : List String) → Below (fuel_for raw) raw
Below-fuel_for [] = tt
Below-fuel_for (s ∷ raw) = (
  omega (arith, dots_le s, fuel_positive raw),
  Below-more (fuel_for raw) (fuel_for (s ∷ raw)) raw (omega arith) (Below-fuel_for raw),
)

-- The fuel that extractExpansions gives is enough for all expansions: with it the parser answers
-- one level of the raw expansions, and below each group what it answers with the fuel for the
-- group's own expansions, as the recursion without fuel does.
pub parse_expansion_level-unfolds :
    (raw : List String) → parse_with_fuel raw ≡ level_by parse_with_fuel raw
unfolding parse_expansion_level
parse_expansion_level-unfolds raw =
    let k = fuel_for raw in
    let more = Below-more k (suc k) raw (omega arith) (Below-fuel_for raw) in
    parse_expansion_level-agree k (suc k) raw (Below-fuel_for raw) more
    ∙ level_by-agree (parse_expansion_level k) parse_with_fuel k k
        (λ l h _. parse_expansion_level-agree k (fuel_for l) l h (Below-fuel_for l)) raw more more
