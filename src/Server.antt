-- ===== src/Server.antt =====
-- The server's state, requests and responses (StubServer, writeResponse, createStripeError and
-- PathParamsMap in server/server.go).
use Prim.Native.String.{String}
use stripe_mock_pi.Prelude.{ℕ, Option, List, [], ◌∷◌}
use stripe_mock_pi.Json.{Value, obj, str, arr, Items, done, item, Object, end, entry}
use stripe_mock_pi.Store.{StatefulStore}
use stripe_mock_pi.Ids.{Entropy}

-- What a handler changes: the sessions' store and the source of fresh ids.
pub record Server : Type 0 where
  pub store : StatefulStore
  pub entropy : Entropy

-- PathParamsSecondaryID
pub record SecondaryId : Type 0 where
  pub id : String
  pub name : String
  pub replaced_ids : List String

-- PathParamsMap
pub record PathParams : Type 0 where
  pub primary_id : Option String
  pub secondary_ids : List SecondaryId
  pub replaced_primary_id : Option String

-- A request behind routing, parsing and validation. `resource_id` is the route's `x-resourceId`, ""
-- where the route has none; `path_params` is none for a route without parameters.
pub record Request : Type 0 where
  pub method : String
  pub path : String
  pub header : String → String
  pub resource_id : String
  pub path_params : Option PathParams
  pub params : Object

pub record Response : Type 0 where
  pub status : ℕ
  pub body : Value

abbrev pub status_ok : ℕ
status_ok = 200

abbrev pub status_bad_request : ℕ
status_bad_request = 400

abbrev pub status_not_found : ℕ
status_not_found = 404

abbrev pub status_internal_server_error : ℕ
status_internal_server_error = 500

-- A map literal.
abbrev pub object : List (String × Value) → Object
object [] = end
object ((k, v) ∷ fields) = entry k v (object fields)

-- A slice of maps, as a value.
abbrev pub array : List Object → Value
array objects = arr (go objects)
  where
    go : List Object → Items
    go = elim [ [] ↦ done | m ∷ (ms → rest) ↦ item (obj m) rest ]

abbrev pub type_invalid_request_error : String
type_invalid_request_error = "invalid_request_error"

abbrev pub internal_server_error : String
internal_server_error = "An internal error occurred."

-- createStripeError
abbrev pub create_stripe_error : (error_type message : String) → Value
create_stripe_error error_type message = obj (
    object
      (("error", obj (object (("message", str message) ∷ ("type", str error_type) ∷ []))) ∷ []))

-- createInternalServerError
abbrev pub create_internal_server_error : Value
create_internal_server_error = create_stripe_error type_invalid_request_error internal_server_error

abbrev pub respond : ℕ → Value → Response
respond status body = record { status = status; body = body }
