-- ===== src/Schema/Translated.antt =====
-- getJSONSchemaForOpenAPI3Schema (spec/validate.go).
use Prim.Native.String.{String}
use stripe_mock_pi.Prelude.{Bool, true, false, not, List, [], ◌∷◌, ◌!=◌, if◌then◌else◌}
use stripe_mock_pi.Prelude.Int.{ℤ, pos, negsuc}
use stripe_mock_pi.Json.{
  Value, nil, bool, int, str, arr, obj, Items, done, item, Object, end, entry,
}
use stripe_mock_pi.Schema.{
  Schema, schema_of, Pointer, to, Schemas, no_schemas, schema, Properties, no_properties, property,
  Keywords,
}

abbrev is_zero : ℤ → Bool
is_zero (pos Prim.Native.Nat.zero) = true
is_zero (pos (Prim.Native.Nat.suc n)) = false
is_zero (negsuc n) = false

abbrev pub values : List Value → Items
values [] = done
values (v ∷ vs) = item v (values vs)

abbrev strings : List String → Items
strings [] = done
strings (s ∷ ss) = item (str s) (strings ss)

-- `if test { jss[key] = value }`, for a key that is set once.
unfoldable pub set_if : Bool → String → Value → Object → Object
set_if test key value jss = if test then entry key value jss else jss

-- `map[string]interface{}{"const": nil}`
abbrev const_nil : Value
const_nil = obj (entry "const" nil end)

abbrev pub has_any : Schemas → Bool
has_any no_schemas = false
has_any (schema s rest) = true

abbrev has_properties : Properties → Bool
has_properties no_properties = false
has_properties (property key s rest) = true

abbrev pub is_nonempty {ℓ} : {A : Type ℓ} → List A → Bool
is_nonempty [] = false
is_nonempty (x ∷ xs) = true

-- The keys whose values hold no schema.
unfoldable keyword_entries : Keywords → Object → Object
unfolding set_if
keyword_entries k jss = set_if (is_nonempty k.enum) "enum" (arr (values k.enum)) (
    set_if (k.format != "") "format" (str k.format) (
      set_if (not (is_zero k.max_length)) "maxLength" (int k.max_length) (
        set_if (k.pattern_text != "") "pattern" (str k.pattern_text) (
          set_if (is_nonempty k.required) "required" (arr (strings k.required)) (
            set_if (k.type_name != "") "type"
              (if k.nullable
                then arr (item (str k.type_name) (item (str "null") done))
                else str k.type_name)
              (set_if (k.ref != "") "$ref" (str k.ref) jss))))))

unfoldable mutual
  unfolding set_if keyword_entries

  -- getJSONSchemaForOpenAPI3Schema
  pub json_schema : Schema → Object
  json_schema (schema_of additional branches items props expansions k) =
      additional_entry k.additional_properties_allowed additional (
        set_if (has_any branches) "anyOf" (arr (json_branches k.nullable branches)) (
          items_entry items (
            set_if (has_properties props) "properties" (obj (json_properties props))
              (keyword_entries k end))))

  pub additional_entry : Bool → Pointer → Object → Object
  additional_entry false additional jss = entry "additionalProperties" (bool false) jss
  additional_entry true Pointer.nil jss = jss
  additional_entry true (to s) jss = entry "additionalProperties" (obj (json_schema s)) jss

  pub items_entry : Pointer → Object → Object
  items_entry Pointer.nil jss = jss
  items_entry (to s) jss = entry "items" (obj (json_schema s)) jss

  pub json_branches : (nullable : Bool) → Schemas → Items
  json_branches nullable no_schemas = if nullable then item const_nil done else done
  json_branches nullable (schema s rest) = item (obj (json_schema s)) (json_branches nullable rest)

  pub json_properties : Properties → Object
  json_properties no_properties = end
  json_properties (property key s rest) = entry key (obj (json_schema s)) (json_properties rest)
