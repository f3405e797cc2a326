-- ===== src/Replace.antt =====
-- DataReplacer (generator/datareplacer/datareplacer.go): the values of a response that the request
-- replaces. A panic is an outcome. isSameType follows references from schema to schema, so that it
-- has fuel, one unit for each call.
pub mod Outcomes
pub mod Fields
pub mod Fits
pub mod Fuel
use Prim.Native.String.{String}
use stripe_mock_pi.Prelude.{
  ℕ, zero, suc, Bool, true, false, ◌||◌, Option, none, some, List, [], ◌∷◌, Dict, lookup, ◌==◌,
  ◌!=◌, if◌then◌else◌,
}
use stripe_mock_pi.Text.{split}
use stripe_mock_pi.Json.{
  Value, nil, bool, int, float64, str, arr, obj, Items, done, item, Object, end, entry, get, put,
}
use stripe_mock_pi.Schema
use stripe_mock_pi.Schema.{
  Schema, Pointer, to, Schemas, no_schemas, schema, keywords, any_of, items_of, properties,
  property_of, type_of, type_array, type_boolean, type_integer, type_number, type_object,
  type_string,
}

pub data Outcome {ℓ} (A : Type ℓ) : Type ℓ where
  returns : A → Outcome A
  panics : Outcome A
  no_fuel : Outcome A

abbrev pub bind {ℓ κ} : {A : Type ℓ} {B : Type κ} → Outcome A → (A → Outcome B) → Outcome B
bind (returns a) next = next a
bind panics next = panics
bind no_fuel next = no_fuel

-- `reflect.Kind`: that of the values that a request can hold, and the other kinds of numbers.
pub data Kind : Type 0 where
  bool_kind : Kind
  int_kind int8_kind int16_kind int32_kind int64_kind : Kind
  uint_kind uint8_kind uint16_kind uint32_kind uint64_kind : Kind
  float32_kind float64_kind : Kind
  string_kind slice_kind map_kind : Kind

-- isIntegerKind
unfoldable pub is_integer_kind : Kind → Bool
is_integer_kind int_kind = true
is_integer_kind int8_kind = true
is_integer_kind int16_kind = true
is_integer_kind int32_kind = true
is_integer_kind int64_kind = true
is_integer_kind uint_kind = true
is_integer_kind uint8_kind = true
is_integer_kind uint16_kind = true
is_integer_kind uint32_kind = true
is_integer_kind uint64_kind = true
is_integer_kind kind = false

abbrev pub is_float_kind : Kind → Bool
is_float_kind float32_kind = true
is_float_kind float64_kind = true
is_float_kind kind = false

abbrev pub is_bool_kind : Kind → Bool
is_bool_kind bool_kind = true
is_bool_kind kind = false

abbrev pub is_string_kind : Kind → Bool
is_string_kind string_kind = true
is_string_kind kind = false

-- `reflect.ValueOf(v).Type().Kind()`; none where the reflected value is not valid.
abbrev pub kind_of : Value → Option Kind
kind_of nil = none
kind_of (bool b) = some bool_kind
kind_of (int i) = some int_kind
kind_of (float64 bits) = some float64_kind
kind_of (str s) = some string_kind
kind_of (arr vs) = some slice_kind
kind_of (obj m) = some map_kind

abbrev pointer_name : List String → Option String
pointer_name (root ∷ components ∷ schemas ∷ name ∷ []) =
    if root != "#" || components != "components" || schemas != "schemas" then none else some name
pointer_name parts = none

-- definitionFromJSONPointer; none where it panics. 47 is the slash.
unfoldable pub definition_from_json_pointer : String → Option String
definition_from_json_pointer pointer = pointer_name (split 47 pointer)

abbrev pub or_panic {ℓ} : {A : Type ℓ} → Option A → Outcome A
or_panic none = panics
or_panic (some a) = returns a

abbrev pub definition : Dict Schema → Option String → Outcome Schema
definition definitions none = panics
definition definitions (some name) = or_panic (lookup name definitions)

-- maybeDereference, without the context, which its callers here drop.
unfoldable pub maybe_dereference : Dict Schema → Schema → Outcome Schema
unfolding definition_from_json_pointer
maybe_dereference definitions s =
    if (keywords s).ref != ""
    then definition definitions (definition_from_json_pointer (keywords s).ref)
    else returns s

-- The loop over `schema.AnyOf`, for the call of isSameType on a branch.
unfoldable pub any_same_type : Dict Schema → (Schema → Outcome Bool) → Schemas → Outcome Bool
unfolding maybe_dereference
any_same_type definitions same no_schemas = returns false
any_same_type definitions same (schema branch rest) =
    bind (maybe_dereference definitions branch) (λ s.
      bind (same s) (λ fits. if fits then returns true else any_same_type definitions same rest))

abbrev item_same_type : Dict Schema → (Schema → Outcome Bool) → Pointer → Value → Outcome Bool
item_same_type definitions same Pointer.nil first = returns true
item_same_type definitions same (to s) first = bind (maybe_dereference definitions s) same

-- The case of TypeArray.
abbrev pub array_same_type :
    Dict Schema → (Schema → Value → Outcome Bool) → Pointer → Value → Outcome Bool
array_same_type definitions same items (arr done) = returns true
array_same_type definitions same items (arr (item first rest)) =
    item_same_type definitions (λ s. same s first) items first
array_same_type definitions same items v = returns false

abbrev pub has_branches : Schemas → Bool
has_branches no_schemas = false
has_branches (schema s rest) = true

-- The cases of the `switch` for a schema without branches that is not an array's.
unfoldable pub plain_same_type : Schema → Kind → Outcome Bool
unfolding is_integer_kind
plain_same_type s kind =
    if type_of s == type_boolean
    then returns (is_bool_kind kind)
    else (if type_of s == type_integer
        then returns (is_integer_kind kind)
        else (if type_of s == type_number
            then returns (is_integer_kind kind || is_float_kind kind)
            else (if type_of s == type_object
                then returns false
                else (if type_of s == type_string then returns (is_string_kind kind) else panics))))

-- The `switch` of isSameType, for a value of this kind and the calls that it makes.
unfoldable pub same_type_of :
    Dict Schema → (Schema → Value → Outcome Bool) → Schema → Kind → Value → Outcome Bool
unfolding any_same_type plain_same_type maybe_dereference
same_type_of definitions same s kind v =
    if has_branches (any_of s)
    then any_same_type definitions (λ branch. same branch v) (any_of s)
    else (if type_of s == type_array
        then array_same_type definitions same (items_of s) v
        else plain_same_type s kind)

-- A value without a kind fits nothing.
abbrev pub of_kind :
    Dict Schema → (Schema → Value → Outcome Bool) → Schema → Value → Option Kind → Outcome Bool
unfolding same_type_of
of_kind definitions same s v none = returns false
of_kind definitions same s v (some kind) = same_type_of definitions same s kind v

-- isSameType, on a schema that is not nil.
unfoldable pub schema_same_type : ℕ → Dict Schema → Schema → Value → Outcome Bool
unfolding of_kind
schema_same_type zero definitions s v = no_fuel
schema_same_type (suc fuel) definitions s v =
    of_kind definitions (schema_same_type fuel definitions) s v (kind_of v)

-- isSameType
unfoldable pub is_same_type : ℕ → Dict Schema → Pointer → Value → Outcome Bool
unfolding schema_same_type
is_same_type fuel definitions Pointer.nil v = returns false
is_same_type fuel definitions (to s) v = schema_same_type fuel definitions s v

abbrev dereferenced : Dict Schema → Pointer → Outcome Pointer
dereferenced definitions Pointer.nil = returns Pointer.nil
dereferenced definitions (to s) = bind (maybe_dereference definitions s) (λ d. returns (to d))

-- `kSchema`
unfoldable pub key_schema : Dict Schema → Pointer → String → Outcome Pointer
unfolding maybe_dereference
key_schema definitions Pointer.nil k = returns Pointer.nil
key_schema definitions (to s) k = dereferenced definitions (property_of k (properties s))

-- What is stored under a key of the response, if anything is.
abbrev pub written : Object → String → Option Value → Object
written response k none = response
written response k (some v) = put response k v

abbrev if_same : Value → Bool → Option Value
if_same v fits = if fits then some v else none

abbrev as_map : Object → Option Value
as_map m = some (obj m)

-- The step for a key of the request that the response has, given what is to be stored.
abbrev pub step_at :
    Dict Schema
    → Pointer
    → (Value → Pointer → Outcome (Option Value))
    → String
    → Object
    → Option Value
    → Outcome Object
step_at definitions s replaced k response none = returns response
step_at definitions s replaced k response (some old) =
    bind (key_schema definitions s k)
      (λ schema_at. bind (replaced old schema_at) (λ new. returns (written response k new)))

unfoldable mutual
  unfolding is_same_type key_schema

  -- replaceDataInternal, in the order of the request's entries.
  pub replace_data_internal : ℕ → Dict Schema → Object → Object → Pointer → Outcome Object
  replace_data_internal fuel definitions end response s = returns response
  replace_data_internal fuel definitions (entry k v rest) response s =
      bind (step_at definitions s (replace_value fuel definitions v) k response (get response k))
        (λ next. replace_data_internal fuel definitions rest next s)

  pub replace_value : ℕ → Dict Schema → Value → Value → Pointer → Outcome (Option Value)
  replace_value fuel definitions (obj m) (obj old) s =
      bind (replace_data_internal fuel definitions m old s) (λ new. returns (as_map new))
  replace_value fuel definitions v old s =
      bind (is_same_type fuel definitions s v) (λ fits. returns (if_same v fits))

-- ReplaceData
unfoldable pub replace_data :
    ℕ → (definitions : Dict Schema) → (schema_pointer : Pointer) → Object → Object → Outcome Object
unfolding replace_data_internal maybe_dereference
replace_data fuel definitions pointer request response =
    bind (dereferenced definitions pointer)
      (λ s. replace_data_internal fuel definitions request response s)
