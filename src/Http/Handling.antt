-- ===== src/Http/Handling.antt =====
-- HandleRequest (server/server.go): the guards of a request in their order, the handlers that it
-- passes, and the response. The response's headers and its encoding are left to net/http.
use Prim.Native.String.{String}
use stripe_mock_pi.Prelude.{
  ℕ, Bool, not, ◌&&◌, Option, none, some, List, Dict, lookup, ◌!=◌, if◌then◌else◌,
}
use stripe_mock_pi.Text.{◌<>◌}
use stripe_mock_pi.Json.{Value, Object}
use stripe_mock_pi.Schema.{Schema, Pointer, to, Content}
use stripe_mock_pi.Session.{validate_auth}
use stripe_mock_pi.Server.{
  Server, PathParams, Request, Response, respond, create_stripe_error, create_internal_server_error,
  type_invalid_request_error, status_ok, status_bad_request, status_not_found,
  status_internal_server_error,
}
use stripe_mock_pi.Ids.{Entropy}
use stripe_mock_pi.Expand.{
  ExpansionLevel, Extracted, absent, expansions_of, panic, extract_expansions,
}
use stripe_mock_pi.Transition.{Config}
use stripe_mock_pi.Stateful.{
  maybe_handle_stateful_request, Outcome as Answer, falls_through, responds,
}
use stripe_mock_pi.Control.{ControlRequest, is_control_request, handle_control_request}
use stripe_mock_pi.Replace.{Outcome, returns, panics, bind}
use stripe_mock_pi.Routing.{Route}
use stripe_mock_pi.Routing.Table.{Routed, not_found, bad_parameter, found, route_request}
use stripe_mock_pi.Generate.{Generated, generated, expansion_not_supported, Generator}
use stripe_mock_pi.Generate.Request.{generate}
use stripe_mock_pi.Http.{
  HttpRequest, Libraries, Checked, passed, refused, parse_params, validate_and_coerce_request,
  route_resource_id, library_error,
}

-- What the server was started with: StubServer, its routing table and the fuel of the generator.
pub record Service : Type 0 where
  pub strict_version_check : Bool
  pub spec_version : String
  pub routes : Dict (List Route)
  pub definitions : Dict Schema
  pub fixtures : Dict Value
  pub config : Config
  pub libraries : Libraries
  pub fuel : ℕ

abbrev pub status_unauthorized : ℕ
status_unauthorized = 401

abbrev invalid_authorization : String → String
invalid_authorization auth =
    "Please authenticate by specifying an `Authorization` header with any valid looking testmode secret API key. For example, `Authorization: Bearer sk_test_123`. Authorization was '"
    <> (auth <> "'.")

abbrev invalid_route : (method path : String) → String
invalid_route method path = "Unrecognized request URL (" <> (method <> (": " <> (path <> ").")))

abbrev invalid_stripe_version : (sent spec : String) → String
invalid_stripe_version sent spec =
    "Version sent in `Stripe-Version` header '"
    <> (sent
        <> ("' doesn't match version in OpenAPI specification '"
            <> (spec
                <> "' which may have unintended consequences. This error was shown because stripe-mock  was started with `-stripe-version-check`.")))

-- An error of the request, which changes nothing.
abbrev pub refuse : ℕ → (message : String) → Server → Outcome (Response × Server)
refuse status message s =
    returns (respond status (create_stripe_error type_invalid_request_error message), s)

abbrev pub internal_error : Server → Outcome (Response × Server)
internal_error s = returns (respond status_internal_server_error create_internal_server_error, s)

abbrev with_schema : Option Pointer → Option Schema → Option Schema
with_schema (some (to s)) otherwise = some s
with_schema p otherwise = otherwise

-- The schema of the response: that of JSON, or else that of PDF.
unfoldable pub response_schema_of : Option Content → Option Schema
response_schema_of none = none
response_schema_of (some content) =
    with_schema (lookup "application/json" content)
      (with_schema (lookup "application/pdf" content) none)

unfoldable pub to_control : HttpRequest → ControlRequest
to_control r = record {
  method = r.method;
  path = r.path;
  header = r.header;
  query = r.query;
  body = r.json_body;
}

module _ (service : Service) (r : HttpRequest) where
  abbrev pub generator : Generator
  generator = record {
    definitions = service.definitions;
    fixtures = service.fixtures;
    fixture_fuel = service.fuel;
    request_method = r.method;
    request_path = r.path;
  }

  abbrev pub of_generated : Server → Generated × Entropy → Outcome (Response × Server)
  of_generated s (generated v, e) = returns (respond status_ok v, record s { entropy = e })
  of_generated s (expansion_not_supported, e) = internal_error (record s { entropy = e })

  -- The response that the generator makes.
  unfoldable pub generate_response :
      Option PathParams
      → Schema
      → Object
      → Option ExpansionLevel
      → Server
      → Outcome (Response × Server)
  unfolding generate
  generate_response p response_schema params expansions s =
      bind
        (generate service.fuel service.fuel generator
          (record {
            expansions = expansions;
            path_params = p;
            request_data = params;
            response_schema = response_schema;
          })
          s.entropy)
        (of_generated s)

  unfoldable pub expanded :
      Option PathParams → Schema → Object → Extracted → Server → Outcome (Response × Server)
  unfolding generate_response
  expanded p response_schema params absent s = generate_response p response_schema params none s
  expanded p response_schema params (expansions_of asked) s =
      generate_response p response_schema params (some asked) s
  expanded p response_schema params panic s = panics

  unfoldable pub answered :
      Option PathParams → Schema → Object → Answer × Server → Outcome (Response × Server)
  unfolding expanded extract_expansions
  answered p response_schema params (responds response, s) = returns (response, s)
  answered p response_schema params (falls_through, s) =
      expanded p response_schema params (extract_expansions params) s
  answered p response_schema params (Answer.panics, s) = panics

  abbrev pub to_request : Option PathParams → Object → String → Request
  to_request p params resource_id = record {
    method = r.method;
    path = r.path;
    header = r.header;
    resource_id = resource_id;
    path_params = p;
    params = params;
  }

  -- The stateful layer and then the generator.
  unfoldable pub serve :
      Option PathParams
      → Schema
      → Object
      → (resource_id : Checked String) → Server
      → Outcome (Response × Server)
  unfolding answered maybe_handle_stateful_request
  serve p response_schema params (passed resource_id) s =
      answered p response_schema params
        (maybe_handle_stateful_request service.config (to_request p params resource_id) s)
  serve p response_schema params (refused message) s = panics
  serve p response_schema params Checked.panics s = panics

  unfoldable pub validated :
      Option PathParams → Schema → Route → Checked Object → Server → Outcome (Response × Server)
  unfolding serve route_resource_id
  validated p response_schema route (passed params) s =
      serve p response_schema params (route_resource_id service.definitions route) s
  validated p response_schema route (refused message) s = refuse status_bad_request message s
  validated p response_schema route Checked.panics s = panics

  unfoldable pub parsed :
      Option PathParams → Schema → Route → Checked Object → Server → Outcome (Response × Server)
  unfolding validated validate_and_coerce_request
  parsed p response_schema route (passed params) s =
      validated p response_schema route
        (validate_and_coerce_request service.libraries r route params) s
  parsed p response_schema route (refused message) s =
      refuse status_bad_request ("Couldn't parse query/body: " <> message) s
  parsed p response_schema route Checked.panics s = panics

  unfoldable pub with_response :
      Option PathParams → Route → Option Schema → Server → Outcome (Response × Server)
  unfolding parsed parse_params
  with_response p route none s = internal_error s
  with_response p route (some response_schema) s = parsed p response_schema route (parse_params r) s

  -- What follows the search for a route.
  unfoldable pub routed : Routed → Server → Outcome (Response × Server)
  unfolding with_response response_schema_of
  routed bad_parameter s =
      refuse status_bad_request ("Couldn't parse path parameters: " <> library_error) s
  routed not_found s = refuse status_not_found (invalid_route r.method r.path) s
  routed (found route p) s =
      with_response p route (response_schema_of (lookup "200" route.operation.responses)) s

  abbrev pub is_other_version : String → Bool
  is_other_version sent =
      service.strict_version_check && (sent != "" && sent != service.spec_version)

  -- The guards on the headers.
  unfoldable pub guarded : Server → Outcome (Response × Server)
  unfolding routed route_request validate_auth
  guarded s =
      if not (validate_auth (r.header "Authorization"))
      then refuse status_unauthorized (invalid_authorization (r.header "Authorization")) s
      else (if is_other_version (r.header "Stripe-Version")
          then refuse status_bad_request
              (invalid_stripe_version (r.header "Stripe-Version") service.spec_version) s
          else routed (route_request service.routes r.method r.path) s)

  -- HandleRequest
  unfoldable pub handle_request : Server → Outcome (Response × Server)
  unfolding is_control_request handle_control_request to_control guarded
  handle_request s =
      if is_control_request r.path
      then returns (handle_control_request service.config (to_control r) s)
      else guarded s
