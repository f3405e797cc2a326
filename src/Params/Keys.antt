-- ===== src/Params/Keys.antt =====
-- Writing a key from its parts, and parseKey (param/nestedtypeassembler/nestedtypeassembler.go).
use Prim.Native.Char.{Char}
use Prim.Native.String.{String, [], ◌∷◌}
use text.Mathlib.TextLemmas.{nil-append, cons-append, append-nil, append_assoc}
use stripe_mock_pi.Prelude.{
  ◌≡◌, refl, Bool, true, false, List, ◌++◌, ◌∙◌, ap, ◌&&◌, not, sym, arith,
}
use stripe_mock_pi.Text.{◌<>◌}
use stripe_mock_pi.Text.Utf8.{valid_from, is_valid_from, to_valid, is_valid, valid_from-append}
use stripe_mock_pi.Params.{
  KeyPart, key_array, key_map, key_raw, one, opens, closes, with_raw, finished, in_raw,
  in_map_or_array, in_map, parse_key,
}

-- A text none of whose characters passes a test.
abbrev pub free_of : (Char → Bool) → String → Bool
free_of test [] = true
free_of test (c ∷ s) = not (test c) && free_of test s

abbrev pub non_empty : String → Bool
non_empty [] = false
non_empty (c ∷ s) = true

-- A part behind the name: `[]`, or a content in brackets that does not close early.
abbrev bracketed : KeyPart → Bool
bracketed key_array = true
bracketed (key_map content) = non_empty content && free_of closes content
bracketed (key_raw content) = false

abbrev pub all_bracketed : List KeyPart → Bool
all_bracketed List.[] = true
all_bracketed (List.◌∷◌ part parts) = bracketed part && all_bracketed parts

and-true : (a b : Bool) → (a && b) ≡ true → (a ≡ true) × (b ≡ true)
and-true a b h = ground arith

not-true : {b : Bool} → not b ≡ true → b ≡ false
not-true {b} h = ground arith

snoc-append : (s : String) (c : Char) (t : String) → (s <> (c ∷ [])) <> t ≡ s <> (c ∷ t)
snoc-append s c t = append_assoc s (c ∷ []) t ∙ rw (cons-append, nil-append)

abbrev pub write : List KeyPart → String
write List.[] = ""
write (List.◌∷◌ key_array parts) = "[]" <> write parts
write (List.◌∷◌ (key_map content) parts) = "[" <> (content <> ("]" <> write parts))
write (List.◌∷◌ (key_raw content) parts) = content <> write parts

-- A character that stays in its state.
in_raw-cons :
    (parts : List KeyPart) (raw : String) (c : Char) (s : String)
    → opens c ≡ false
    → in_raw parts raw (c ∷ s) ≡ in_raw parts (raw <> (c ∷ [])) s
unfolding in_raw
in_raw-cons parts raw c s h = rw (h, in_raw)

in_map-cons :
    (parts : List KeyPart) (content : String) (c : Char) (s : String)
    → closes c ≡ false
    → in_map parts content (c ∷ s) ≡ in_map parts (content <> (c ∷ [])) s
unfolding in_map
in_map-cons parts content c s h = rw (h, in_map)

in_map_or_array-cons :
    (parts : List KeyPart) (c : Char) (s : String)
    → closes c ≡ false
    → in_map_or_array parts (c ∷ s) ≡ in_map parts (c ∷ []) s
unfolding in_map_or_array
in_map_or_array-cons parts c s h = rw (h, in_map_or_array)

module _ (rest : String) where
  in_raw-free :
      (parts : List KeyPart) (raw name : String)
      → free_of opens name ≡ true
      → in_raw parts raw (name <> rest) ≡ in_raw parts (raw <> name) rest
  unfolding in_raw
  in_raw-free parts raw [] h = rw (nil-append, append-nil)
  in_raw-free parts raw (c ∷ name) h =
      let (c_plain, name_plain) = and-true (not (opens c)) (free_of opens name) h in
      ap (λ t. in_raw parts raw t) (cons-append c name rest)
      ∙ in_raw-cons parts raw c (name <> rest) (not-true c_plain)
      ∙ in_raw-free parts (raw <> (c ∷ [])) name name_plain
      ∙ ap (λ t. in_raw parts t rest) (snoc-append raw c name)

  in_map-free :
      (parts : List KeyPart) (content more : String)
      → free_of closes more ≡ true
      → in_map parts content (more <> ("]" <> rest))
        ≡ in_raw (parts ++ one (key_map (content <> more))) "" rest
  unfolding in_map
  in_map-free parts content [] h = rw (nil-append, append-nil, cons-append, nil-append)
  in_map-free parts content (c ∷ more) h =
      let (c_plain, more_plain) = and-true (not (closes c)) (free_of closes more) h in
      ap (λ t. in_map parts content t) (cons-append c more ("]" <> rest))
      ∙ in_map-cons parts content c (more <> ("]" <> rest)) (not-true c_plain)
      ∙ in_map-free parts (content <> (c ∷ [])) more more_plain
      ∙ ap (λ t. in_raw (parts ++ one (key_map t)) "" rest) (snoc-append content c more)

  -- Both kinds of part are read back behind others.
  in_raw-map :
      (parts : List KeyPart) (raw content : String)
      → bracketed (key_map content) ≡ true
      → in_raw parts raw ("[" <> (content <> ("]" <> rest)))
        ≡ in_raw (with_raw parts raw ++ one (key_map content)) "" rest
  unfolding in_raw
  in_raw-map parts raw [] h = cc
  in_raw-map parts raw (c ∷ content) h =
      let (c_plain, content_plain) = and-true (not (closes c)) (free_of closes content) h in
      rw (cons-append, nil-append, cons-append)
        (in_map_or_array-cons (with_raw parts raw) c (content <> ("]" <> rest)) (not-true c_plain)
          ∙ in_map-free (with_raw parts raw) (c ∷ []) content content_plain
          ∙ ap (λ t. in_raw (with_raw parts raw ++ one (key_map t)) "" rest)
              (cons-append c "" content ∙ ap (λ t. c ∷ t) (nil-append content)))

  in_raw-array :
      (parts : List KeyPart) (raw : String)
      → in_raw parts raw ("[]" <> rest) ≡ in_raw (with_raw parts raw ++ one key_array) "" rest
  unfolding in_raw
  in_raw-array parts raw = rw (cons-append, cons-append, nil-append)

finished-none : (parts : List KeyPart) → finished parts "" ≡ parts
finished-none List.[] = refl
finished-none (List.◌∷◌ part parts) = refl

++-nil : (xs : List KeyPart) → xs ++ List.[] ≡ xs
++-nil List.[] = refl
++-nil (List.◌∷◌ x xs) = ap (λ l. List.◌∷◌ x l) (++-nil xs)

list_assoc : (xs ys zs : List KeyPart) → (xs ++ ys) ++ zs ≡ xs ++ (ys ++ zs)
list_assoc List.[] ys zs = refl
list_assoc (List.◌∷◌ x xs) ys zs = ap (λ l. List.◌∷◌ x l) (list_assoc xs ys zs)

in_raw-write :
    (before parts : List KeyPart)
    → all_bracketed parts ≡ true
    → in_raw before "" (write parts) ≡ before ++ parts
unfolding in_raw
in_raw-write before List.[] h = finished-none before ∙ sym (++-nil before)
in_raw-write before (List.◌∷◌ key_array parts) h =
    in_raw-array (write parts) before ""
    ∙ in_raw-write (before ++ one key_array) parts h
    ∙ list_assoc before (one key_array) parts
in_raw-write before (List.◌∷◌ (key_map content) parts) h =
    let (fits, rest_fits) = and-true (bracketed (key_map content)) (all_bracketed parts) h in
    in_raw-map (write parts) before "" content fits
    ∙ in_raw-write (before ++ one (key_map content)) parts rest_fits
    ∙ list_assoc before (one (key_map content)) parts
in_raw-write before (List.◌∷◌ (key_raw content) parts) h = cc

-- The name in front of brackets.
name-write :
    (c : Char) (name : String) (parts : List KeyPart)
    → all_bracketed parts ≡ true
    → in_raw List.[] (c ∷ name) (write parts) ≡ List.◌∷◌ (key_raw (c ∷ name)) parts
unfolding in_raw
name-write c name List.[] h = refl
name-write c name (List.◌∷◌ key_array parts) h =
    in_raw-array (write parts) List.[] (c ∷ name) ∙ in_raw-write _ parts h
name-write c name (List.◌∷◌ (key_map content) parts) h =
    let (fits, rest_fits) = and-true (bracketed (key_map content)) (all_bracketed parts) h in
    in_raw-map (write parts) List.[] (c ∷ name) content fits ∙ in_raw-write _ parts rest_fits
name-write c name (List.◌∷◌ (key_raw content) parts) h = cc

-- Parts whose contents are valid UTF-8.
abbrev pub all_valid : List KeyPart → Bool
all_valid List.[] = true
all_valid (List.◌∷◌ key_array parts) = all_valid parts
all_valid (List.◌∷◌ (key_map content) parts) = is_valid content && all_valid parts
all_valid (List.◌∷◌ (key_raw content) parts) = is_valid content && all_valid parts

to_valid-write :
    (parts : List KeyPart) → all_valid parts ≡ true → to_valid (write parts) ≡ write parts
unfolding valid_from is_valid_from
to_valid-write List.[] h = refl
to_valid-write (List.◌∷◌ key_array parts) h =
    valid_from-append 0 "[]" (write parts) refl ∙ ap (λ t. "[]" <> t) (to_valid-write parts h)
to_valid-write (List.◌∷◌ (key_map content) parts) h =
    let (fits, rest_fits) = and-true (is_valid content) (all_valid parts) h in
    valid_from-append 0 "[" (content <> ("]" <> write parts)) refl
    ∙ ap (λ t. "[" <> t)
        (valid_from-append 0 content ("]" <> write parts) fits
          ∙ ap (λ t. content <> t)
              (valid_from-append 0 "]" (write parts) refl
                ∙ ap (λ t. "]" <> t) (to_valid-write parts rest_fits)))
to_valid-write (List.◌∷◌ (key_raw content) parts) h =
    let (fits, rest_fits) = and-true (is_valid content) (all_valid parts) h in
    valid_from-append 0 content (write parts) fits
    ∙ ap (λ t. content <> t) (to_valid-write parts rest_fits)

-- A key written from a name without `[`, followed by parts that are `[]` or a content in brackets
-- without `]`, all of them valid UTF-8, is parsed into that name and those parts.
pub parse_key-write :
    (name : String) (parts : List KeyPart)
    → non_empty name ≡ true
    → free_of opens name ≡ true
    → all_bracketed parts ≡ true
    → is_valid name ≡ true
    → all_valid parts ≡ true
    → parse_key (name <> write parts) ≡ List.◌∷◌ (key_raw name) parts
parse_key-write [] parts h name_plain fits valid all = cc
parse_key-write (c ∷ name) parts h name_plain fits valid all =
    ap (in_raw List.[] []) (
      valid_from-append 0 (c ∷ name) (write parts) valid
      ∙ ap (λ t. (c ∷ name) <> t) (to_valid-write parts all))
    ∙ in_raw-free (write parts) List.[] "" (c ∷ name) name_plain
    ∙ ap (λ raw. in_raw List.[] raw (write parts)) (nil-append (c ∷ name))
    ∙ name-write c name parts fits
