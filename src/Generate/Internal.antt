-- ===== src/Generate/Internal.antt =====
-- generateInternal (server/generator.go): what is generated for a schema, by its kind and an example.
use Prim.Native.String.{String}
use stripe_mock_pi.Prelude.{
  ℕ, zero, suc, Bool, true, false, ◌||◌, ◌&&◌, not, is_some, Option, none, some, ◌==◌,
  if◌then◌else◌,
}
use stripe_mock_pi.Json.{Value, nil, str, obj, Object, end, get, put}
use stripe_mock_pi.Schema
use stripe_mock_pi.Schema.{
  Schema, Pointer, to, Schemas, no_schemas, schema, Properties, Resources, no_resources, one_of,
  keywords, any_of, properties, expansion_resources, type_of, type_array, type_boolean,
  type_integer, type_number, type_object, type_string,
}
use stripe_mock_pi.Replace.{
  Outcome, returns, panics, no_fuel, bind, maybe_dereference, has_branches,
}
use stripe_mock_pi.Expand.{ExpansionLevel, level, leaf, find_expansion}
use stripe_mock_pi.Synthetic.{
  is_list_resource, is_search_result_resource, is_binary_resource, find_any_of_branch,
  generate_synthetic_fixture,
}
use stripe_mock_pi.Generate.{
  Generated, generated, expansion_not_supported, Generator, Call, refuses_expansions, is_null,
  example_or_fixture, on_generated, as_generated, generate_listing,
}

-- The call on the first schema of a slice, which panics where there is none.
abbrev pub call_first : Call → Option ExpansionLevel → Schemas → Option Value → Outcome Generated
call_first call expansions no_schemas example = panics
call_first call expansions (schema s rest) example = call expansions s example

-- The expansions for a property: a wildcard stands in for those that are not given.
unfoldable pub sub_expansions : Option ExpansionLevel → String → Option ExpansionLevel
unfolding find_expansion
sub_expansions none key = none
sub_expansions (some (level wildcard expansions)) key = or_leaf (find_expansion expansions key)
  where
    or_leaf : Option ExpansionLevel → Option ExpansionLevel
    or_leaf (some sub) = some sub
    or_leaf none = if wildcard then some leaf else none

abbrev pub as_property : Generated → Outcome (Option Value)
as_property (generated v) = returns (some v)
as_property expansion_not_supported = returns none

-- The loop over the properties of an object: those that the example has, and those to be expanded.
unfoldable pub generate_properties :
    Call → Option ExpansionLevel → Object → Properties → Object → Outcome Generated
unfolding sub_expansions
generate_properties call expansions example Schema.no_properties m = returns (as_generated m)
generate_properties call expansions example (Schema.property key sub rest) m =
    if not (is_some (get example key)) && not (is_some (sub_expansions expansions key))
    then generate_properties call expansions example rest m
    else bind (call (sub_expansions expansions key) sub (get example key)) (λ made.
      on_generated made (λ v. generate_properties call expansions example rest (put m key v))
        (returns expansion_not_supported))

abbrev pub generate_object : Call → Option ExpansionLevel → Schema → Value → Outcome Generated
unfolding generate_properties
generate_object call expansions s (obj example) =
    generate_properties call expansions example (properties s) end
generate_object call expansions s example = panics

abbrev is_scalar : String → Bool
is_scalar name =
    name == type_boolean || (name == type_integer || (name == type_number || name == type_string))

-- What is made of an example by the type of the schema.
unfoldable pub generate_by_type :
    Call → Option ExpansionLevel → Schema → Option Value → Outcome Generated
unfolding generate_properties
generate_by_type call expansions s (some nil) =
    if is_some expansions then panics else returns (generated nil)
generate_by_type call expansions s none = panics
generate_by_type call expansions s (some example) =
    if is_scalar (type_of s)
      || (type_of s == type_object && not (keywords s).has_properties || type_of s == type_array)
    then returns (generated example)
    else (if type_of s == type_object then generate_object call expansions s example else panics)

abbrev needs_fixture : Option ExpansionLevel → Schema → Option Value → Bool
needs_fixture expansions s example =
    not (is_some example)
    || (is_some expansions && is_null example && (keywords s).x_resource_id == "")

abbrev as_example : Value → Outcome (Option Value)
as_example v = returns (some v)

-- A resource that is neither a list nor a choice, with a synthetic fixture as the last resort.
unfoldable pub generate_resource :
    Generator → Call → Option ExpansionLevel → Schema → Option Value → Outcome Generated
unfolding is_list_resource is_search_result_resource is_binary_resource generate_listing
    generate_synthetic_fixture generate_by_type
generate_resource g call expansions s example =
    if is_list_resource s
    then generate_listing g call "list" false expansions s example
    else (if is_search_result_resource s
        then generate_listing g call "search_result" true expansions s example
        else (if is_binary_resource s
            then returns (generated (str "Stripe binary response"))
            else bind
                (if needs_fixture expansions s example
                  then bind (generate_synthetic_fixture g.fixture_fuel g.definitions s expansions)
                      as_example
                  else returns example)
                (generate_by_type call expansions s)))

abbrev first_or : Pointer → Schemas → Pointer
first_or (to s) branches = to s
first_or Pointer.nil (schema s rest) = to s
first_or Pointer.nil no_schemas = Pointer.nil

abbrev call_branch : Call → Option ExpansionLevel → Schemas → Pointer → Outcome Generated
call_branch call expansions branches found = on (first_or found branches)
  where
    on : Pointer → Outcome Generated
    on (to s) = call expansions s none
    on Pointer.nil = panics

-- A schema with branches: the one for the request's method, else the first; or a resource.
unfoldable pub generate_branch :
    Generator → Call → Option ExpansionLevel → Schema → Option Value → Outcome Generated
unfolding find_any_of_branch generate_resource
generate_branch g call expansions s example =
    if has_branches (any_of s)
    then bind (find_any_of_branch g.definitions (any_of s) (g.request_method == "DELETE"))
        (call_branch call expansions (any_of s))
    else generate_resource g call expansions s example

abbrev is_single : Schemas → Bool
is_single (schema s no_schemas) = true
is_single branches = false

-- A nullable schema with one branch.
unfoldable pub generate_nullable :
    Generator → Call → Option ExpansionLevel → Schema → Option Value → Outcome Generated
unfolding generate_branch
generate_nullable g call expansions s example =
    if is_single (any_of s) && (keywords s).nullable
    then (if is_null example
        then (if is_some expansions
            then generate_branch g call expansions s example
            else returns (generated nil))
        else call_first call expansions (any_of s) example)
    else generate_branch g call expansions s example

abbrev by_resources :
    Generator → Call → Option ExpansionLevel → Schema → Option Value → Resources → Outcome Generated
unfolding generate_nullable
by_resources g call expansions s example no_resources =
    generate_nullable g call expansions s example
by_resources g call none s example (one_of resources) = call_first call none (any_of s) example
by_resources g call (some e) s example (one_of schemas) = call_first call (some e) schemas none

-- generateInternal behind maybeDereference.
unfoldable pub generate_dereferenced :
    Generator → Call → Option ExpansionLevel → Option Value → Schema → Outcome Generated
unfolding refuses_expansions example_or_fixture by_resources
generate_dereferenced g call expansions example s =
    if refuses_expansions expansions (keywords s).x_expandable_fields
    then returns expansion_not_supported
    else bind (example_or_fixture g.fixtures (keywords s).x_resource_id example)
        (λ found. by_resources g call expansions s found (expansion_resources s))

-- generateInternal
unfoldable pub generate_internal : ℕ → Generator → Call
unfolding maybe_dereference generate_dereferenced
generate_internal zero g expansions s example = no_fuel
generate_internal (suc fuel) g expansions s example =
    bind (maybe_dereference g.definitions s)
      (generate_dereferenced g (generate_internal fuel g) expansions example)
