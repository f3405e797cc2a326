-- ===== src/Tests/Generated.antt =====
-- The theorems on schemas, generated responses and the data that a request replaces in them.
use Prim.Native.String.{String}
use stripe_mock_pi.Prelude.{
  ◌≡◌, refl, true, false, ◌&&◌, ◌||◌, [], ◌∷◌, some, none, Option, is_some, Dict, ◌==◌, ℕ, ◌≤◌,
  lookup, Bool-cases, inl, inr, subst, arith,
}
use stripe_mock_pi.Prelude.Int.{pos}
use stripe_mock_pi.Json.{Value, str, int, bool, arr, obj, item, done, Object, end, entry, get}
use stripe_mock_pi.Json.Laws.{Distinct}
use stripe_mock_pi.Schema
use stripe_mock_pi.Schema.{
  Schema, schema_of, to, no_schemas, schema, property, no_properties, no_resources, blank_schema,
  blank_keywords, Operation, build_query_schema, property_of, properties, keywords, type_of,
}
use stripe_mock_pi.Schema.Query.{build_query_schema_lem}
use stripe_mock_pi.Schema.Translated.{json_schema}
use stripe_mock_pi.Schema.Validate.{lets_null, lets_null-json_schema}
use stripe_mock_pi.Replace.{
  returns, panics, replace_data_internal, schema_same_type, maybe_dereference, Outcome, bind,
  definition, definition_from_json_pointer,
}
use stripe_mock_pi.Replace.Outcomes.{Ended, returns-injective}
use stripe_mock_pi.Replace.Fields.{get-replace_data_internal}
use stripe_mock_pi.Replace.Fits.{Fits, schema_same_type-Fits}
use stripe_mock_pi.Replace.Fuel.{fuel_for, Ranked, schema_same_type-Ended}
use stripe_mock_pi.Server.{PathParams}
use stripe_mock_pi.PathIds.{record_and_replace_ids}
use stripe_mock_pi.PathIds.Absent.{Absent}
use stripe_mock_pi.PathIds.Kept.{ids_of}
use stripe_mock_pi.PathIds.Primary.{record_and_replace_ids-Primary}
use stripe_mock_pi.Synthetic.{
  generate_synthetic_fixture, is_set, is_required_property, is_list_resource, expansion_at,
}
use stripe_mock_pi.Synthetic.Required.{generate_synthetic_fixture-Fields}
use stripe_mock_pi.Generate.{generated, Generator, Call, call_items, items_schema}
use stripe_mock_pi.Generate.Internal.{
  generate_resource, generate_by_type, generate_internal, sub_expansions,
}
use stripe_mock_pi.Generate.Request.{GenerateParams, generate}
use stripe_mock_pi.Generate.Lists.{Listed, generate_resource-Listed}
use stripe_mock_pi.Generate.Keys.{generate_by_type-Fields}
use stripe_mock_pi.Generate.Response.{generate-Absent}
use stripe_mock_pi.Coerce.Schemas.{coerce_params}
use stripe_mock_pi.Coerce.Untouched.{coerce_params-Untouched}
use stripe_mock_pi.Tests.{entropy}

abbrev text_schema : Schema
text_schema = blank_schema "string"

abbrev number_schema : Schema
number_schema = blank_schema "integer"

-- A charge, whose `id` is required.
abbrev charge : Schema
charge =
    schema_of Schema.nil no_schemas Schema.nil
      (property "id" text_schema (property "amount" number_schema no_properties)) no_resources
      (record (blank_keywords "object") { required = "id" ∷ [] })

abbrev charge_list : Schema
charge_list =
    schema_of Schema.nil no_schemas Schema.nil
      (property "object"
        (schema_of Schema.nil no_schemas Schema.nil no_properties no_resources
          (record (blank_keywords "string") { enum = str "list" ∷ [] }))
        (property "data"
          (schema_of Schema.nil no_schemas (to charge) no_properties no_resources
            (blank_keywords "array"))
          no_properties))
      no_resources (blank_keywords "object")

abbrev definitions : Dict Schema
definitions = ("charge", charge) ∷ []

abbrev reference : Schema
reference =
    schema_of Schema.nil no_schemas Schema.nil no_properties no_resources
      (record (blank_keywords "") { ref = "#/components/schemas/charge" })

-- A choice between a text and a reference.
abbrev choice : Schema
choice =
    schema_of Schema.nil (schema text_schema (schema reference no_schemas)) Schema.nil no_properties
      no_resources (record (blank_keywords "") { nullable = true })

abbrev operation : Operation
operation = record {
  parameters =
      (record {
        location = "query";
        name = "limit";
        is_required = true;
        schema_pointer = to number_schema;
      })
      ∷ (record { location = "path"; name = "id"; is_required = true; schema_pointer = Schema.nil })
      ∷ [];
  request_body = none;
  responses = [];
}

build_query_schema_lem_example :
    (property_of "limit" (properties (build_query_schema operation)) ≡ to number_schema)
    × ((keywords (build_query_schema operation)).required ≡ "limit" ∷ [])
build_query_schema_lem_example = build_query_schema_lem operation "limit"

-- A choice between a text and a number, or null.
abbrev plain_choice : Schema
plain_choice =
    schema_of Schema.nil (schema text_schema (schema number_schema no_schemas)) Schema.nil
      no_properties no_resources (record (blank_keywords "") { nullable = true })

lets_null-json_schema_example : lets_null (json_schema plain_choice) ≡ true
unfolding stripe_mock_pi.Schema.Validate.marks_null stripe_mock_pi.Schema.Validate.spelled_out
lets_null-json_schema_example = lets_null-json_schema plain_choice refl

abbrev stored_charge : Object
stored_charge = entry "id" (str "ch_fixture") (entry "amount" (int (pos 100)) end)

abbrev sent : Object
sent = entry "amount" (int (pos 250)) (entry "currency" (str "usd") end)

abbrev replaced_charge : Object
replaced_charge = entry "id" (str "ch_fixture") (entry "amount" (int (pos 250)) end)

sent-replaced :
    replace_data_internal 1 definitions sent stored_charge (to charge) ≡ returns replaced_charge
unfolding replace_data_internal get property_of stripe_mock_pi.Json.put
sent-replaced = refl

sent-Distinct : Distinct sent
unfolding get
sent-Distinct = (refl, (refl, tt))

get-replace_data_internal_example :
    returns (some (int (pos 250))) ≡ returns (get replaced_charge "amount")
unfolding get stripe_mock_pi.Replace.key_schema property_of stripe_mock_pi.Replace.replace_value
get-replace_data_internal_example =
    get-replace_data_internal 1 definitions (to charge) sent stored_charge replaced_charge
      sent-Distinct sent-replaced "amount"

schema_same_type-Fits_example : Fits definitions choice (str "ch_1")
unfolding schema_same_type
schema_same_type-Fits_example = schema_same_type-Fits definitions 2 choice (str "ch_1") refl

-- Every reference leads to the charge, which has no branches and no items.
abbrev rank : String → ℕ
rank ref = 1

found_charge :
    (name : Option String) (d : Schema) → definition definitions name ≡ returns d → charge ≡ d
unfolding lookup
found_charge none d h = ground (arith, h)
found_charge (some name) d h = elim (Bool-cases ("charge" == name)) [
  | inl e ↦ returns-injective charge d (rw e at h)
  | inr e ↦ ground (arith, rw e at h)
]

charge-Ranked : Ranked definitions rank
unfolding maybe_dereference fuel_for
charge-Ranked s d is h =
    subst (λ x. fuel_for rank x ≤ 1)
      (found_charge (definition_from_json_pointer (keywords s).ref) d (rw is at h)) (omega arith)

schema_same_type-Ended_example : Ended (schema_same_type 3 definitions choice (str "ch_1"))
unfolding fuel_for
schema_same_type-Ended_example =
    schema_same_type-Ended definitions rank charge-Ranked 3 choice (str "ch_1") (omega arith)

abbrev path_params : PathParams
path_params = record {
  primary_id = some "ch_asked";
  secondary_ids = record { id = "cus_1"; name = "customer"; replaced_ids = [] } ∷ [];
  replaced_primary_id = none;
}

-- A charge that holds its own id at two places.
abbrev nested : Object
nested = entry "id" (str "ch_old") (entry "refund" (obj (entry "charge" (str "ch_old") end)) end)

nested-Distinct : Distinct nested
unfolding get
nested-Distinct = (refl, (refl, tt))

record_and_replace_ids-Primary_example :
    (r : PathParams × Object) × (record_and_replace_ids path_params (obj nested) ≡ (r.0, obj r.1))
    × ((r.0.primary_id ≡ some "ch_asked")
        × (r.0.replaced_primary_id ≡ some "ch_old")
        × (ids_of r.0.secondary_ids ≡ ids_of path_params.secondary_ids)
        × (get r.1 "id" ≡ some (str "ch_asked")))
unfolding get
record_and_replace_ids-Primary_example =
    record_and_replace_ids-Primary path_params nested "ch_old" "ch_asked" nested-Distinct refl refl

abbrev generator : Generator
generator = record {
  definitions = definitions;
  fixtures = ("charge", obj nested) ∷ [];
  fixture_fuel = 3;
  request_method = "GET";
  request_path = "/v1/charges/ch_asked";
}

-- A schema of any map, with the charge's fixture.
abbrev any_map : Schema
any_map =
    schema_of Schema.nil no_schemas Schema.nil no_properties no_resources
      (record (blank_keywords "object") { has_properties = false; x_resource_id = "charge" })

abbrev request : GenerateParams
request = record {
  expansions = none;
  path_params = some path_params;
  request_data = end;
  response_schema = any_map;
}

nested-generated :
    generate_internal 2 generator none any_map none ≡ returns (generated (obj nested))
unfolding generate_internal lookup
nested-generated = refl

generate-Absent_example :
    (v : Value) × (generate 2 2 generator request entropy ≡ returns (generated v, entropy))
    × Absent "ch_old" v
unfolding stripe_mock_pi.Synthetic.is_binary_resource get
generate-Absent_example =
    generate-Absent 2 2 generator request path_params nested "ch_old" "ch_asked" entropy
      nested-generated refl refl refl nested-Distinct refl refl refl (refl, tt) refl

charge-synthetic :
    generate_synthetic_fixture 2 definitions charge none ≡ returns (obj (entry "id" (str "") end))
unfolding generate_synthetic_fixture stripe_mock_pi.Json.put
charge-synthetic = refl

generate_synthetic_fixture-Fields_example :
    (r : Object) × (obj (entry "id" (str "") end) ≡ obj r)
    × ((key : String)
        → is_some (get r key)
          ≡ (is_set (property_of key (properties charge)) && is_required_property charge key))
generate_synthetic_fixture-Fields_example =
    generate_synthetic_fixture-Fields 1 definitions charge none (obj (entry "id" (str "") end)) refl
      refl refl refl charge-synthetic

abbrev call : Call
call expansions s example = returns (generated (obj stored_charge))

abbrev listed : Object
listed = entry "object" (str "list") (entry "data" (arr (item (obj stored_charge) done)) end)

list-generated :
    generate_resource generator call none charge_list none ≡ returns (generated (obj listed))
unfolding generate_resource stripe_mock_pi.Json.put
list-generated = refl

charge_list-is_list : is_list_resource charge_list ≡ true
unfolding is_list_resource
charge_list-is_list = refl

generate_resource-Listed_example :
    (element : Value) × (m : Object) × (call_items call
        (expansion_at none "data")
        (items_schema (property_of "data" (properties charge_list)))
      ≡ returns (generated element))
    × (obj listed ≡ obj m)
    × Listed charge_list element m
generate_resource-Listed_example =
    generate_resource-Listed generator call none charge_list none (obj listed) charge_list-is_list
      list-generated

abbrev text_call : Call
text_call expansions s example = returns (generated (str "made"))

by_type-generated :
    generate_by_type text_call none charge (some (obj sent))
    ≡ returns (generated (obj (entry "amount" (str "made") end)))
unfolding generate_by_type get stripe_mock_pi.Json.put
by_type-generated = refl

generate_by_type-Fields_example :
    (r : Object) × (obj (entry "amount" (str "made") end) ≡ obj r)
    × ((key : String)
        → is_some (get r key) ≡ (
            is_set (property_of key (properties charge))
            && (is_some (get sent key) || is_some (sub_expansions none key))))
generate_by_type-Fields_example =
    generate_by_type-Fields text_call none charge sent (obj (entry "amount" (str "made") end)) refl
      refl by_type-generated

coerce_params-Untouched_example :
    (is_some (get (coerce_params (λ s. none) charge sent).0 "currency") ≡ true)
    × (get (coerce_params (λ s. none) charge sent).0 "currency" ≡ some (str "usd"))
unfolding get property_of
coerce_params-Untouched_example = coerce_params-Untouched (λ s. none) charge sent "currency"
