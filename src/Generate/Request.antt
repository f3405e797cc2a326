-- ===== src/Generate/Request.antt =====
-- Generate (server/generator.go), which answers a request, and generateResourceBase
-- (server/control.go), which generates a resource of a given name.
use Prim.Native.String.{String}
use stripe_mock_pi.Prelude.{ℕ, Option, none, some, lookup, ◌==◌, if◌then◌else◌}
use stripe_mock_pi.Text.{◌<>◌}
use stripe_mock_pi.Json.{Value, obj, Object, end}
use stripe_mock_pi.Schema.{Schema, to}
use stripe_mock_pi.Replace.{Outcome, returns, panics, bind, replace_data}
use stripe_mock_pi.Expand.{ExpansionLevel}
use stripe_mock_pi.Synthetic.{is_binary_resource}
use stripe_mock_pi.Ids.{Entropy}
use stripe_mock_pi.Server.{PathParams}
use stripe_mock_pi.PathIds.{maybe_generate_primary_id, replace_ids}
use stripe_mock_pi.Generate.{Generated, generated, expansion_not_supported, Generator, on_generated}
use stripe_mock_pi.Generate.Internal.{generate_internal}

-- GenerateParams, where the generator has the request's method and path.
pub record GenerateParams : Type 0 where
  pub expansions : Option ExpansionLevel
  pub path_params : Option PathParams
  pub request_data : Object
  pub response_schema : Schema

abbrev with_object : Object → Value
with_object m = obj m

-- The values of a POST request, in a response that is a map.
unfoldable pub reflect_request : ℕ → Generator → GenerateParams → Value → Outcome Value
unfolding replace_data
reflect_request fuel g params (obj m) =
    if g.request_method == "POST"
    then bind (replace_data fuel g.definitions (to params.response_schema) params.request_data m)
        (λ new. returns (with_object new))
    else returns (obj m)
reflect_request fuel g params v = returns v

abbrev and_entropy : Entropy → Value → Outcome (Generated × Entropy)
and_entropy e v = returns (generated v, e)

abbrev with_ids :
    ℕ
    → Generator
    → GenerateParams
    → Value
    → Option (Option PathParams × Entropy)
    → Outcome (Generated × Entropy)
unfolding reflect_request replace_ids
with_ids fuel g params v none = panics
with_ids fuel g params v (some (p, e)) =
    bind (reflect_request fuel g params (replace_ids p v)) (and_entropy e)

-- Generate behind generateInternal.
unfoldable pub finish :
    ℕ → Generator → GenerateParams → Value → Entropy → Outcome (Generated × Entropy)
unfolding is_binary_resource maybe_generate_primary_id with_ids
finish fuel g params v e =
    if is_binary_resource params.response_schema
    then returns (generated v, e)
    else with_ids fuel g params v (maybe_generate_primary_id params.path_params v e)

-- Generate, with fuel for the generation and for the types of replaced data.
unfoldable pub generate :
    (fuel same_type_fuel : ℕ) → Generator → GenerateParams → Entropy → Outcome (Generated × Entropy)
unfolding generate_internal finish
generate fuel same_type_fuel g params e =
    bind (generate_internal fuel g params.expansions params.response_schema none) (λ made.
      on_generated made (λ v. finish same_type_fuel g params v e)
        (returns (expansion_not_supported, e)))

abbrev base_params : Schema → GenerateParams
base_params s = record {
  expansions = none;
  path_params = none;
  request_data = end;
  response_schema = s;
}

abbrev base_of : Generated × Entropy → Option Object × Entropy
base_of (generated (obj m), e) = (some m, e)
base_of (made, e) = (none, e)

abbrev base_for : ℕ → Generator → Entropy → Option Schema → Outcome (Option Object × Entropy)
unfolding generate
base_for fuel g e none = returns (none, e)
base_for fuel g e (some s) =
    bind (generate fuel fuel g (base_params s) e) (λ made. returns (base_of made))

-- generateResourceBase: an object, or no object where it fails.
unfoldable pub generate_resource_base :
    ℕ → Generator → (resource_id : String) → Entropy → Outcome (Option Object × Entropy)
unfolding base_for
generate_resource_base fuel g resource_id e =
    base_for fuel
      (record g { request_method = "GET"; request_path = "/v1/" <> (resource_id <> "s") }) e
      (lookup resource_id g.definitions)
