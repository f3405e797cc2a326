-- ===== src/Http.antt =====
-- A request on its way to its handler: ParseParams (param/param.go), validateAndCoerceRequest
-- (server/server.go) and routeResourceID (server/control.go). What net/http makes of a body and of a
-- multipart form, the JSON Schema validator and the texts of library errors are inputs.
pub mod Handling
use Prim.Native.String.{String}
use mathlib.Core.List
use stripe_mock_pi.Prelude.{
  ℕ, Bool, true, false, not, ◌&&◌, List, [], ◌∷◌, Option, none, some, Dict, lookup, ◌==◌, ◌!=◌,
  if◌then◌else◌,
}
use stripe_mock_pi.Text.{◌<>◌, split}
use stripe_mock_pi.Json.{Value, Object}
use stripe_mock_pi.Schema
use stripe_mock_pi.Schema.{Schema, Pointer, to, keywords, Content}
use stripe_mock_pi.Form.{Values, parse_form_string}
use stripe_mock_pi.Params.{Assembled, assembled, invalid_key, assemble_params}
use stripe_mock_pi.Coerce.Schemas.{coerce_params}
use stripe_mock_pi.Routing.{Route}
use stripe_mock_pi.Replace.{definition_from_json_pointer}
use stripe_mock_pi.Control.{Body}

-- http.Request, with what reading it gives: the body (none where reading fails), the values and
-- files of its multipart form in order (none where that cannot be parsed), and what the JSON decoder
-- says of the body of a control request.
pub record HttpRequest : Type 0 where
  pub method : String
  pub path : String
  pub raw_query : String
  pub header : String → String
  pub query : String → String
  pub body : Option String
  pub multipart_form : Option Values
  pub json_body : Body

-- The outcome of a step that may refuse the request with a message.
pub data Checked (A : Type 0) : Type 0 where
  passed : A → Checked A
  refused : (message : String) → Checked A
  panics : Checked A

abbrev pub library_error : String
library_error = "error"

abbrev of_option {ℓ} : {A : Type ℓ} {B : Type ℓ} → Option A → (A → B) → B → B
of_option none f otherwise = otherwise
of_option (some a) f otherwise = f a

-- A content type without its parameters. 59 is the semicolon.
abbrev pub media_type_of : String → String
media_type_of content_type = first (split 59 content_type)
  where
    first : List String → String
    first [] = ""
    first (part ∷ parts) = part

abbrev pub multipart_media_type : String
multipart_media_type = "multipart/form-data"

abbrev checked_params : Assembled → Checked Object
checked_params (assembled params) = passed params
checked_params (invalid_key message) = refused message
checked_params Assembled.panics = panics

abbrev appended : Values → Option Values → Option Values
appended values none = none
appended values (some more) = some (List.◌++◌ values more)

abbrev body_values : Option String → Option Values
unfolding parse_form_string
body_values none = none
body_values (some text) = parse_form_string text

-- The values of the query and of the form or body; none for an error of a library.
unfoldable pub request_values : HttpRequest → Option Values
unfolding parse_form_string body_values
request_values r =
    of_option (parse_form_string r.raw_query)
      (λ values.
        if media_type_of (r.header "Content-Type") == multipart_media_type
        then appended values r.multipart_form
        else (if r.method != "GET" then appended values (body_values r.body) else some values))
      none

-- ParseParams
unfoldable pub parse_params : HttpRequest → Checked Object
unfolding request_values
parse_params r =
    of_option (request_values r) (λ values. checked_params (assemble_params values))
      (refused library_error)

-- What the libraries that a request meets say: strconv.ParseFloat, the validator of a route, and the
-- printing of a number.
pub record Libraries : Type 0 where
  pub parse_float : String → Option ℕ
  pub validate : Route → Object → Option String
  pub number_text : ℕ → String

abbrev content_type_empty : String → String
content_type_empty expected =
    "Request's `Content-Type` header was empty. Expected: `" <> (expected <> "`.")

abbrev content_type_mismatched : String → String → String
content_type_mismatched expected was =
    "Request's `Content-Type` didn't match the path's expected media type. Expected: `"
    <> (expected <> ("`. Was: `" <> (was <> "`.")))

-- The message for a content type that is not the route's, which panics for a route without one.
abbrev pub content_type_check : String → Option String → Checked Unit
content_type_check content_type none = panics
content_type_check content_type (some expected) =
    if content_type == ""
    then refused (content_type_empty expected)
    else (if media_type_of content_type != expected
        then refused (content_type_mismatched expected (media_type_of content_type))
        else passed tt)

abbrev pub and_then : {A B : Type 0} → Checked A → (A → Checked B) → Checked B
and_then (passed a) next = next a
and_then (refused message) next = refused message
and_then panics next = panics

abbrev validated : Option String → Object → Checked Object
validated none params = passed params
validated (some message) params = refused ("Request validation error: " <> message)

abbrev coerced_to : Libraries → Route → Object × Option ℕ → Checked Object
coerced_to libraries route (params, some i) = refused (
    "Request coercion error: Index "
    <> (libraries.number_text i <> " is too large, won't parse as slice"))
coerced_to libraries route (params, none) = validated (libraries.validate route params) params

abbrev coerce_and_validate : Libraries → Route → Pointer → Object → Checked Object
unfolding coerce_params
coerce_and_validate libraries route Pointer.nil params = panics
coerce_and_validate libraries route (to s) params =
    coerced_to libraries route (coerce_params libraries.parse_float s params)

-- validateAndCoerceRequest
unfoldable pub validate_and_coerce_request :
    Libraries → HttpRequest → Route → Object → Checked Object
unfolding coerce_and_validate
validate_and_coerce_request libraries r route params =
    and_then
      (if r.method != "DELETE" && r.method != "GET"
        then content_type_check (r.header "Content-Type") route.request_media_type
        else passed tt)
      (λ u. coerce_and_validate libraries route route.request_schema params)

abbrev resolved : Dict Schema → Schema → Option String → Checked Schema
resolved definitions s none = panics
resolved definitions s (some name) = of_option (lookup name definitions) (λ d. passed d) (passed s)

abbrev resource_schema : Dict Schema → Schema → Checked Schema
unfolding definition_from_json_pointer
resource_schema definitions s =
    if (keywords s).ref != ""
    then resolved definitions s (definition_from_json_pointer (keywords s).ref)
    else passed s

abbrev resource_of_pointer : Dict Schema → Option Pointer → Checked String
unfolding resource_schema
resource_of_pointer definitions none = passed ""
resource_of_pointer definitions (some Pointer.nil) = passed ""
resource_of_pointer definitions (some (to s)) =
    and_then (resource_schema definitions s) (λ d. passed (keywords d).x_resource_id)

-- routeResourceID
unfoldable pub route_resource_id : Dict Schema → Route → Checked String
unfolding resource_of_pointer
route_resource_id definitions route =
    of_option (lookup "200" route.operation.responses)
      (λ content. resource_of_pointer definitions (lookup "application/json" content)) (passed "")
