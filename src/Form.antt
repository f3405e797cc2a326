-- ===== src/Form.antt =====
-- ParseFormString (param/parser/parser.go) and form.Values (param/form/form.go), with
-- `url.QueryUnescape` written out on bytes.
pub mod Order
use Prim.Native.Char.{Char, code}
use Prim.Native.String.{String, [], ◌∷◌}
use mathlib.Core.List
use stripe_mock_pi.Prelude.{
  ℕ, ◌+◌, ◌-◌, ◌*◌, Bool, true, false, ◌&&◌, List, Option, none, some, ◌==◌, nat_eq, leb,
  if◌then◌else◌,
}
use stripe_mock_pi.Text.{split, trim_prefix}
use stripe_mock_pi.Bytes.{of_byte}

-- form.Values, with a form.Pair as a key and a value
abbrev pub Values : Type 0
Values = List (String × String)

abbrev hex_digit : ℕ → Option ℕ
hex_digit c =
    if leb 48 c && leb c 57
    then some (c - 48)
    else if leb 97 c && leb c 102
    then some (c - 87)
    else if leb 65 c && leb c 70
    then some (c - 55)
    else none

-- The byte that two hexadecimal digits write.
abbrev hex_byte : Option ℕ → Option ℕ → Option Char
hex_byte (some high) (some low) = some (of_byte (high * 16 + low))
hex_byte _ _ = none

abbrev before : Option Char → Option String → Option String
before (some c) (some s) = some (c ∷ s)
before _ _ = none

abbrev plus_to_space : Char → Char
plus_to_space c = if nat_eq (code c) 43 then of_byte 32 else c

abbrev pub is_percent : Char → Bool
is_percent c = nat_eq (code c) 37

-- `url.QueryUnescape(s)`; none for a `%` without two hexadecimal digits.
unfoldable pub query_unescape : String → Option String
query_unescape [] = some []
query_unescape (c ∷ []) = elim (is_percent c) [ true ↦ none | false ↦ some (plus_to_space c ∷ []) ]
query_unescape (c ∷ a ∷ []) = elim (is_percent c) [
  | true ↦ none
  | false ↦ before (some (plus_to_space c)) (query_unescape (a ∷ []))
]
query_unescape (c ∷ a ∷ b ∷ s) = elim (is_percent c) [
  | true ↦ before (hex_byte (hex_digit (code a)) (hex_digit (code b))) (query_unescape s)
  | false ↦ before (some (plus_to_space c)) (query_unescape (a ∷ b ∷ s))
]

abbrev add_to_key : Char → String × Option String → String × Option String
add_to_key c (key, value) = (c ∷ key, value)

-- `strings.SplitN(s, "=", 2)`: what is in front of the first `=`, and what is behind it, if any.
unfoldable pub split_at_equals : String → String × Option String
split_at_equals [] = ([], none)
split_at_equals (c ∷ s) =
    let rest = split_at_equals s in if nat_eq (code c) 61 then ([], some s) else add_to_key c rest

abbrev unescaped_value : Option String → Option String
unescaped_value none = some ""
unescaped_value (some value) = query_unescape value

abbrev pub pair_of : Option String → Option String → Option (String × String)
pair_of (some key) (some value) = some (key, value)
pair_of _ _ = none

-- One round of the loop.
abbrev pub parse_pair : String × Option String → Option (String × String)
parse_pair (key, value) = pair_of (query_unescape key) (unescaped_value value)

abbrev pub pair_before : Option (String × String) → Option Values → Option Values
pair_before (some pair) (some pairs) = some (List.◌∷◌ pair pairs)
pair_before _ _ = none

-- The loop over the values that are left; none where one cannot be unescaped.
unfoldable pub parse_pairs : List String → Option Values
unfolding split_at_equals query_unescape
parse_pairs List.[] = some List.[]
parse_pairs (List.◌∷◌ raw raws) = pair_before (parse_pair (split_at_equals raw)) (parse_pairs raws)

-- ParseFormString
unfoldable pub parse_form_string : String → Option Values
unfolding parse_pairs split
parse_form_string s =
    let form = trim_prefix s "?" in if form == "" then some List.[] else parse_pairs (split 38 form)
