-- ===== src/Params.antt =====
-- Request parameters with Rack-style keys (param/nestedtypeassembler/nestedtypeassembler.go): from
-- pairs of a key and a value to nested maps and arrays. A Go panic is an outcome of its own.
pub mod Keys
pub mod Filled
pub mod Chains
pub mod Arrays
use Prim.Native.Char.{Char, code}
use Prim.Native.String.{String, [], ◌∷◌}
use mathlib.Core.List
use stripe_mock_pi.Prelude.{
  Bool, true, false, ◌&&◌, List, ◌++◌, Option, none, some, ◌!=◌, nat_eq, if◌then◌else◌,
}
use stripe_mock_pi.Text.{◌<>◌}
use stripe_mock_pi.Text.Utf8.{to_valid}
use stripe_mock_pi.Json.{Value, str, arr, obj, Items, done, item, Object, end, entry, get, at, put}

-- keyPart
pub data KeyPart : Type 0 where
  key_array : KeyPart
  key_map : (content : String) → KeyPart
  key_raw : (content : String) → KeyPart

abbrev pub one : KeyPart → List KeyPart
one part = List.◌∷◌ part List.[]

-- `[`, `]`
abbrev pub opens : Char → Bool
opens c = nat_eq (code c) 91

abbrev pub closes : Char → Bool
closes c = nat_eq (code c) 93

-- The raw content so far, as a part where there is any.
abbrev pub with_raw : List KeyPart → (raw : String) → List KeyPart
with_raw parts [] = parts
with_raw parts (c ∷ raw) = parts ++ one (key_raw (c ∷ raw))

-- The label `finished`: raw content counts only where there is no part yet.
abbrev pub finished : List KeyPart → (raw : String) → List KeyPart
finished List.[] raw = with_raw List.[] raw
finished (List.◌∷◌ part parts) raw = List.◌∷◌ part parts

-- The labels of parseKey, each with the runes that are left as its last argument.
unfoldable mutual
  pub in_raw : List KeyPart → (raw : String) → String → List KeyPart
  in_raw parts raw [] = finished parts raw
  in_raw parts raw (c ∷ s) = elim (opens c) [
    | true ↦ in_map_or_array (with_raw parts raw) s
    | false ↦ in_raw parts (raw <> (c ∷ [])) s
  ]

  pub in_map_or_array : List KeyPart → String → List KeyPart
  in_map_or_array parts [] = finished parts []
  in_map_or_array parts (c ∷ s) = elim (closes c) [
    | true ↦ in_raw (parts ++ one key_array) [] s
    | false ↦ in_map parts (c ∷ []) s
  ]

  pub in_map : List KeyPart → (content : String) → String → List KeyPart
  in_map parts content [] = finished parts []
  in_map parts content (c ∷ s) = elim (closes c) [
    | true ↦ in_raw (parts ++ one (key_map content)) [] s
    | false ↦ in_map parts (content <> (c ∷ [])) s
  ]

-- parseKey: `[]rune(key)`, and back to the text of a part by `string`.
abbrev pub parse_key : String → List KeyPart
parse_key key = in_raw List.[] [] (to_valid key)

abbrev pub in_array : (key : String) → Option Object → Option Object
in_array key none = none
in_array key (some sub) = some (entry key (arr (item (at sub "dummy") done)) end)

abbrev pub in_object : (key : String) → Option Object → Option Object
in_object key none = none
in_object key (some sub) = some (entry key (obj sub) end)

-- buildParamStructure; none is the error of raw content behind arrays and maps.
unfoldable pub build_param_structure :
    (key : String) → List KeyPart → (value : String) → Option Object
build_param_structure key List.[] value = some (entry key (str value) end)
build_param_structure key (List.◌∷◌ key_array parts) value =
    in_array key (build_param_structure "dummy" parts value)
build_param_structure key (List.◌∷◌ (key_map content) parts) value =
    in_object key (build_param_structure content parts value)
build_param_structure key (List.◌∷◌ (key_raw content) parts) value = none

unfoldable pub append : Items → Items → Items
append done ys = ys
append (item x xs) ys = item x (append xs ys)

-- The last element and those before it.
unfoldable pub last : Items → Option (Items × Value)
last done = none
last (item x done) = some (done, x)
last (item x (item y ys)) = elim (last (item y ys)) [
  | none ↦ none
  | some (front, z) ↦ some (item x front, z)
]

abbrev composite : Option Value → Bool
composite none = true
composite (some (arr xs)) = true
composite (some (obj m)) = true
composite (some _) = false

-- Whether no key of the second map holds a value in the first that cannot be merged with.
unfoldable pub collapsible : Object → Object → Bool
collapsible m₁ end = true
collapsible m₁ (entry k v m₂) = composite (get m₁ k) && collapsible m₁ m₂

abbrev replace_last : (front : Items) → Option Object → Option Value
replace_last front none = none
replace_last front (some m) = some (arr (append front (item (obj m) done)))

-- mergeMapsRecursive and maybeCollapseArrays; none where the code panics.
unfoldable mutual
  pub merge_maps_recursive : Object → Object → Option Object
  merge_maps_recursive m₁ end = some m₁
  merge_maps_recursive m₁ (entry k v₂ m₂) = elim (merge_at (get m₁ k) v₂) [
    | none ↦ none
    | some v ↦ merge_maps_recursive (put m₁ k v) m₂
  ]

  -- What a key that holds the first value, if any, holds from then on.
  pub merge_at : Option Value → Value → Option Value
  merge_at (some (obj m₁)) (obj m₂) = elim (merge_maps_recursive m₁ m₂) [
    | none ↦ none
    | some m ↦ some (obj m)
  ]
  merge_at (some (arr xs)) (arr ys) = collapse_or_append (last xs) xs ys
  merge_at _ v₂ = some v₂

  -- The second array has one element, and the first one at least one.
  pub collapse_or_append : Option (Items × Value) → (xs ys : Items) → Option Value
  collapse_or_append (some (front, obj m₁)) xs (item (obj m₂) done) = elim (collapsible m₁ m₂) [
    | true ↦ replace_last front (merge_maps_recursive m₁ m₂)
    | false ↦ some (arr (append xs (item (obj m₂) done)))
  ]
  collapse_or_append (some _) xs (item y done) = some (arr (append xs (item y done)))
  collapse_or_append _ _ _ = none

pub data Assembled : Type 0 where
  assembled : Object → Assembled
  invalid_key : (message : String) → Assembled
  panics : Assembled

abbrev pub mixed_in : String
mixed_in = "invalid key: raw content can't be mixed in after arrays and maps"

-- What one pair comes to: nothing, an error, or a structure to merge.
pub data Pair : Type 0 where
  skipped : Pair
  wrong : (message : String) → Pair
  structure : Object → Pair

abbrev pub built : Option Object → Pair
built none = wrong mixed_in
built (some m) = structure m

abbrev pub pair_params : (key value : String) → List KeyPart → Pair
pair_params key value List.[] = skipped
pair_params key value (List.◌∷◌ (key_raw name) parts) =
    built (build_param_structure name parts value)
pair_params key value (List.◌∷◌ _ parts) =
    wrong ("invalid key \"" <> (key <> "\": keys must start with a name"))

abbrev merged_to : Option Object → Assembled
merged_to none = panics
merged_to (some params) = assembled params

-- One round of AssembleParams's loop.
unfoldable pub assemble_pair : Object → Pair → Assembled
assemble_pair params skipped = assembled params
assemble_pair params (wrong message) = invalid_key message
assemble_pair params (structure m) = merged_to (merge_maps_recursive params m)

-- The loop over the pairs that are left.
unfoldable pub assemble : Object → List (String × String) → Assembled
unfolding assemble_pair
assemble params List.[] = assembled params
assemble params (List.◌∷◌ (key, value) pairs) =
    elim (assemble_pair params (pair_params key value (parse_key key))) [
      | assembled next ↦ assemble next pairs
      | invalid_key message ↦ invalid_key message
      | panics ↦ panics
    ]

abbrev pub assemble_params : List (String × String) → Assembled
assemble_params pairs = assemble end pairs
