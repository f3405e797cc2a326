-- ===== src/Text.antt =====
-- The functions of Go's `strings` package that the server calls, on texts as sequences of
-- characters, and the lexicographic order that `sort.Strings` goes by.
pub mod Split
pub mod Utf8
use Prim.Native.Char.{Char, code}
use Prim.Native.String
use Prim.Native.String.{String, [], ◌∷◌}
use stripe_mock_pi.Prelude.{
  ℕ, Bool, true, false, List, Option, none, some, nat_eq, ltb, ◌==◌, ◌||◌, ◌&&◌, if◌then◌else◌,
}

infixr 65 ◌<>◌
-- `s + t`
abbrev pub ◌<>◌ : String → String → String
s <> t = String.◌++◌ s t

-- What is left of `s` behind the prefix `p`.
unfoldable pub strip_prefix : String → String → Option String
strip_prefix [] s = some s
strip_prefix (c ∷ p) [] = none
strip_prefix (c ∷ p) (d ∷ s) = if nat_eq (code c) (code d) then strip_prefix p s else none

abbrev after : Option String → String → String
after none s = s
after (some t) s = t

abbrev found : Option String → Bool
found none = false
found (some t) = true

-- `strings.HasPrefix(s, p)`
unfoldable pub has_prefix : String → String → Bool
unfolding strip_prefix
has_prefix s p = found (strip_prefix p s)

-- `strings.TrimPrefix(s, p)`
unfoldable pub trim_prefix : String → String → String
unfolding strip_prefix
trim_prefix s p = after (strip_prefix p s) s

-- `strings.HasSuffix(s, p)`
unfoldable pub has_suffix : String → String → Bool
has_suffix [] p = [] == p
has_suffix (c ∷ s) p = (c ∷ s) == p || has_suffix s p

-- `strings.TrimSuffix(s, p)`
unfoldable pub trim_suffix : String → String → String
trim_suffix [] p = []
trim_suffix (c ∷ s) p = let rest = c ∷ trim_suffix s p in if (c ∷ s) == p then [] else rest

-- The last part of a split grows at its front.
abbrev pub add_char : Char → List String → List String
add_char c List.[] = List.◌∷◌ (c ∷ []) List.[]
add_char c (List.◌∷◌ part parts) = List.◌∷◌ (c ∷ part) parts

-- `strings.Split(s, sep)` for a separator of one character, given by its code.
unfoldable pub split : ℕ → String → List String
split sep [] = List.◌∷◌ [] List.[]
split sep (c ∷ s) =
    let parts = split sep s in if nat_eq (code c) sep then List.◌∷◌ [] parts else add_char c parts

-- `strings.Join(parts, sep)`
unfoldable pub join : String → List String → String
join sep List.[] = []
join sep (List.◌∷◌ part List.[]) = part
join sep (List.◌∷◌ part (List.◌∷◌ next parts)) = part <> (sep <> join sep (List.◌∷◌ next parts))

-- `s <= t`, the order of `sort.Strings`.
unfoldable pub text_le : String → String → Bool
text_le [] t = true
text_le (c ∷ s) [] = false
text_le (c ∷ s) (d ∷ t) = ltb (code c) (code d) || (nat_eq (code c) (code d) && text_le s t)

unfoldable pub insert_text : String → List String → List String
insert_text k List.[] = List.◌∷◌ k List.[]
insert_text k (List.◌∷◌ j ks) =
    if text_le k j then List.◌∷◌ k (List.◌∷◌ j ks) else List.◌∷◌ j (insert_text k ks)

-- `sort.Strings`
unfoldable pub sort : List String → List String
unfolding insert_text text_le
sort List.[] = List.[]
sort (List.◌∷◌ k ks) = insert_text k (sort ks)

abbrev pub and_more : Char → Option String → Option String
and_more c none = none
and_more c (some s) = some (c ∷ s)

abbrev pub by_prefix : String → Option String → Option String → Option String
by_prefix by none later = later
by_prefix by (some rest) later = some (by <> rest)

-- `strings.Replace(s, search, by, 1)`, where `strings.Index(s, search)` finds the text that is
-- searched, which is not empty.
unfoldable pub replace_first : (search by : String) → String → Option String
unfolding strip_prefix
replace_first search by [] = none
replace_first search by (c ∷ s) =
    by_prefix by (strip_prefix search (c ∷ s)) (and_more c (replace_first search by s))

abbrev before_here : Bool → Char → Option String → Option String
before_here here c (some front) = some (c ∷ front)
before_here true c none = some []
before_here false c none = none

-- `s[:strings.LastIndex(s, sep)]`, for a separator of one character, given by its code.
unfoldable pub before_last : ℕ → String → Option String
before_last sep [] = none
before_last sep (c ∷ s) = before_here (nat_eq (code c) sep) c (before_last sep s)
