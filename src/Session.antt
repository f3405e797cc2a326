-- ===== src/Session.antt =====
-- Who a request is from: sessionID and apiKeyFromAuth (server/stateful.go) and validateAuth
-- (server/server.go).
pub mod Keys
use Prim.Native.String.{String}
use stripe_mock_pi.Prelude.{
  Bool, true, false, not, ◌&&◌, ◌||◌, List, [], ◌∷◌, Option, none, some, ◌==◌, ◌!=◌, if◌then◌else◌,
}
use stripe_mock_pi.Text.{split, trim_suffix}
use stripe_mock_pi.Bytes.{base64_decode}

abbrev pub mock_session_header : String
mock_session_header = "X-Stripe-Mock-Session"

abbrev pub mock_stateful_header : String
mock_stateful_header = "X-Stripe-Mock-Stateful"

abbrev pub default_session_id : String
default_session_id = "default"

-- The two parts of `<scheme> <credentials>`.
abbrev two_parts : List String → Option (String × String)
two_parts (scheme ∷ credentials ∷ []) =
    if credentials == "" then none else some (scheme, credentials)
two_parts _ = none

abbrev trimmed_key : Option String → String
trimmed_key none = ""
trimmed_key (some key) = trim_suffix key ":"

abbrev key_of : Option (String × String) → String
key_of none = ""
key_of (some (scheme, credentials)) =
    if scheme == "Bearer"
    then credentials
    else if scheme == "Basic"
    then trimmed_key (base64_decode credentials)
    else ""

unfoldable pub api_key_from_auth : String → String
api_key_from_auth auth = key_of (two_parts (split b' ' auth))

-- sessionID, given the request's headers; a header that is not there reads "".
unfoldable pub session_id : (String → String) → String
session_id header =
    if header mock_session_header != ""
    then header mock_session_header
    else if api_key_from_auth (header "Authorization") != ""
    then api_key_from_auth (header "Authorization")
    else default_session_id

abbrev raw_key_of : Option (String × String) → Option String
raw_key_of none = none
raw_key_of (some (scheme, credentials)) =
    if scheme == "Basic"
    then base64_decode credentials
    else if scheme == "Bearer"
    then some credentials
    else none

-- The checks of the parts `sk`, `test` and `123`.
abbrev key_parts_valid : List String → Bool
key_parts_valid (kind ∷ mode ∷ secret ∷ []) =
    (kind == "rk" || kind == "sk") && (mode == "test" && secret != "")
key_parts_valid _ = false

abbrev key_valid : Option String → Bool
key_valid none = false
key_valid (some key) = key_parts_valid (split b'_' key)

unfoldable pub validate_auth : String → Bool
validate_auth auth =
    if auth == "" then false else key_valid (raw_key_of (two_parts (split b' ' auth)))
