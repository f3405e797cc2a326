-- ===== src/Coerce.antt =====
-- Parts of the parameter coercion (param/coercer/coercer.go): primitive types, and maps with
-- integer keys that are read as slices. `strconv.ParseFloat` is a parameter.
pub mod Indexed
pub mod Primitive
pub mod Loops
pub mod Schemas
pub mod Untouched
use Prim.Native.Char.{Char, code}
use Prim.Native.String.{String, [], ◌∷◌}
use stripe_mock_pi.Prelude.{
  ℕ, zero, suc, ◌+◌, ◌-◌, ◌*◌, ◌^◌, Bool, true, false, ◌&&◌, ◌||◌, Option, none, some, ◌==◌, ltb,
  leb, nat_eq, if◌then◌else◌,
}
use stripe_mock_pi.Prelude.Int.{ℤ, pos, negsuc}
use stripe_mock_pi.Json.{Value, nil, bool, int, float64, str, Items, done, item, Object, end, entry}

-- isSchemaPrimitiveType, on the schema's type
unfoldable pub is_schema_primitive_type : (schema_type : String) → Bool
is_schema_primitive_type schema_type =
    schema_type == "boolean"
    || (schema_type == "integer" || (schema_type == "number" || schema_type == "string"))

-- `strconv.ParseBool(s)`
unfoldable pub parse_bool : String → Option Bool
parse_bool s =
    if s == "1" || (s == "t" || (s == "T" || (s == "true" || (s == "TRUE" || s == "True"))))
    then some true
    else if s == "0" || (s == "f" || (s == "F" || (s == "false" || (s == "FALSE" || s == "False"))))
    then some false
    else none

abbrev pub is_digit : Char → Bool
is_digit c = leb 48 (code c) && leb (code c) 57

-- The number that the digits of a text write behind those read so far.
unfoldable pub digits_onto : ℕ → String → Option ℕ
digits_onto n [] = some n
digits_onto n (c ∷ s) = elim (is_digit c) [
  | true ↦ digits_onto (n * 10 + (code c - 48)) s
  | false ↦ none
]

-- A text of digits, at least one: `\A\d+\z`, with the number it writes.
abbrev pub number_of : String → Option ℕ
number_of [] = none
number_of (c ∷ s) = digits_onto 0 (c ∷ s)

abbrev below : (bound : ℕ) → Option ℕ → Option ℕ
below bound none = none
below bound (some n) = if ltb n bound then some n else none

abbrev as_pos : Option ℕ → Option ℤ
as_pos none = none
as_pos (some n) = some (pos n)

-- `-n`
abbrev negated : ℕ → ℤ
negated zero = pos 0
negated (suc n) = negsuc n

abbrev as_neg : Option ℕ → Option ℤ
as_neg none = none
as_neg (some n) = some (negated n)

-- `strconv.Atoi(s)` for a 64-bit `int`
abbrev pub atoi : String → Option ℤ
atoi [] = none
atoi (c ∷ s) =
    if nat_eq (code c) 45
    then as_neg (below (2 ^ 63 + 1) (number_of s))
    else if nat_eq (code c) 43
    then as_pos (below (2 ^ 63) (number_of s))
    else as_pos (below (2 ^ 63) (number_of (c ∷ s)))

abbrev as_bool : Option Bool → Option Value
as_bool none = none
as_bool (some b) = some (bool b)

abbrev as_int : Option ℤ → Option Value
as_int none = none
as_int (some n) = some (int n)

abbrev as_float64 : Option ℕ → Option Value
as_float64 none = none
as_float64 (some b) = some (float64 b)

module _ (parse_float : String → Option ℕ) where
  -- The switch of coercePrimitiveType.
  abbrev pub coerce_text : (text primitive_type : String) → Option Value
  coerce_text text primitive_type =
      if primitive_type == "boolean"
      then as_bool (parse_bool text)
      else if primitive_type == "integer"
      then as_int (atoi text)
      else if primitive_type == "number"
      then as_float64 (parse_float text)
      else if primitive_type == "string"
      then some (str text)
      else none

  -- coercePrimitiveType
  unfoldable pub coerce_primitive_type : Value → (primitive_type : String) → Option Value
  unfolding parse_bool digits_onto
  coerce_primitive_type (str text) primitive_type = coerce_text text primitive_type
  coerce_primitive_type _ primitive_type = none

abbrev pub max_slice_size : ℕ
max_slice_size = 1000

-- A key that stands for an index of an `int`.
abbrev pub index_of : String → Option ℕ
index_of key = below (2 ^ 63) (number_of key)

abbrev pub larger : ℕ → ℕ → ℕ
larger a b = if ltb b a then a else b

-- The loop over the keys, which gives up at the first one that is no index.
unfoldable pub biggest_index : ℕ → Object → Option ℕ
biggest_index biggest end = some biggest
biggest_index biggest (entry key value rest) = elim (index_of key) [
  | none ↦ none
  | some i ↦ biggest_index (larger i biggest) rest
]

-- `make([]interface{}, n)`
unfoldable pub make_slice : ℕ → Items
make_slice zero = done
make_slice (suc n) = item nil (make_slice n)

-- `slice[i] = value`, for an index within the slice
unfoldable pub set_at : ℕ → Value → Items → Items
set_at i value done = done
set_at zero value (item old rest) = item value rest
set_at (suc i) value (item old rest) = item old (set_at i value rest)

abbrev pub or_zero : Option ℕ → ℕ
or_zero none = 0
or_zero (some i) = i

-- The loop that fills the slice.
unfoldable pub fill_slice : Object → Items → Items
fill_slice end slice = slice
fill_slice (entry key value rest) slice =
    fill_slice rest (set_at (or_zero (index_of key)) value slice)

pub data Slicing : Type 0 where
  not_indexed : Slicing
  too_large : (index : ℕ) → Slicing
  slice : Items → Slicing

abbrev pub sliced : Object → Option ℕ → Slicing
sliced map none = not_indexed
sliced map (some biggest) =
    if ltb max_slice_size biggest
    then too_large biggest
    else slice (fill_slice map (make_slice (biggest + 1)))

-- parseIntegerIndexedMap
unfoldable pub parse_integer_indexed_map : Object → Slicing
unfolding biggest_index fill_slice make_slice
parse_integer_indexed_map map = sliced map (biggest_index 0 map)
