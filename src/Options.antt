-- ===== src/Options.antt =====
-- The command line's options (main.go): which combinations are refused, and where the server
-- listens.
pub mod Conflicts
use Prim.Native.String.{String}
use stripe_mock_pi.Prelude.{
  ℕ, zero, ◌+◌, Bool, true, false, not, ◌&&◌, ◌||◌, Option, none, some, ◌!=◌, ltb, if◌then◌else◌,
}
use stripe_mock_pi.Prelude.Int.{ℤ, negsuc}

-- options, as far as it says where to listen. A port of -1 is none given.
pub record Options : Type 0 where
  pub http : Bool
  pub http_port_default : ℤ
  pub http_addr : String
  pub http_port : ℤ
  pub http_unix_socket : String
  pub https : Bool
  pub https_port_default : ℤ
  pub https_addr : String
  pub https_port : ℤ
  pub https_unix_socket : String
  pub port : ℤ
  pub unix_socket : String

abbrev pub given : (port : ℤ) → Bool
given (negsuc zero) = false
given _ = true

abbrev pub count : Bool → ℕ
count true = 1
count false = 0

-- numHTTPOptions and numHTTPSOptions
abbrev pub num_options : (unix_socket addr : String) → ℤ → ℕ
num_options unix_socket addr port =
    count (unix_socket != "") + (count (addr != "") + count (given port))

-- Each refusal stands for its message.
pub data Conflict : Type 0 where
  port_and_unix : Conflict
  http_and_specific : Conflict
  port_or_unix_and_http : Conflict
  several_http : Conflict
  https_and_specific : Conflict
  port_or_unix_and_https : Conflict
  several_https : Conflict

-- checkConflictingOptions
unfoldable pub check_conflicting_options : Options → Option Conflict
check_conflicting_options o =
    if o.unix_socket != "" && given o.port
    then some port_and_unix
    else if o.http && (o.http_unix_socket != "" || (o.http_addr != "" || given o.http_port))
    then some http_and_specific
    else if (o.unix_socket != "" || given o.port)
        && (o.http_unix_socket != "" || (o.http_addr != "" || given o.http_port))
    then some port_or_unix_and_http
    else if ltb 1 (num_options o.http_unix_socket o.http_addr o.http_port)
    then some several_http
    else if o.https && (o.https_unix_socket != "" || (o.https_addr != "" || given o.https_port))
    then some https_and_specific
    else if (o.unix_socket != "" || given o.port)
        && (o.https_unix_socket != "" || (o.http_addr != "" || given o.https_port))
    then some port_or_unix_and_https
    else if ltb 1 (num_options o.https_unix_socket o.https_addr o.https_port)
    then some several_https
    else none

-- Where a listener is asked for: an address, every interface at a port, or a Unix socket.
pub data Endpoint : Type 0 where
  at_address : String → Endpoint
  at_port : ℤ → Endpoint
  at_socket : String → Endpoint

-- The environment's `PORT`, as strconv.Atoi reads it.
pub data PortVariable : Type 0 where
  unset : PortVariable
  parsed : ℤ → PortVariable
  unparsable : PortVariable

-- No listener, one that is asked for, or an error before there is one.
pub data Listening : Type 0 where
  disabled : Listening
  listens : Endpoint → Listening
  bad_port : Listening

-- getPortListenerDefault
unfoldable pub get_port_listener_default : PortVariable → (default_port : ℤ) → Listening
get_port_listener_default unset default_port = listens (at_port default_port)
get_port_listener_default (parsed port) default_port = listens (at_port port)
get_port_listener_default unparsable default_port = bad_port

abbrev pub at_port_or : ℤ → Listening → Listening
at_port_or port rest = if given port then listens (at_port port) else rest

abbrev pub at_socket_or : String → Listening → Listening
at_socket_or unix_socket rest = if unix_socket != "" then listens (at_socket unix_socket) else rest

-- getHTTPListener
unfoldable pub get_http_listener : PortVariable → Options → Listening
unfolding get_port_listener_default
get_http_listener env o =
    let general =
      at_port_or o.port
        (at_socket_or o.unix_socket (get_port_listener_default env o.http_port_default)) in
    let unless_https =
      if o.https || (given o.https_port || o.https_unix_socket != "") then disabled else general in
    if o.http_addr != ""
    then listens (at_address o.http_addr)
    else at_port_or o.http_port (at_socket_or o.http_unix_socket unless_https)

-- getNonSecureHTTPSListener
unfoldable pub get_non_secure_https_listener : PortVariable → Options → Listening
unfolding get_port_listener_default
get_non_secure_https_listener env o =
    let general =
      at_port_or o.port
        (at_socket_or o.unix_socket (get_port_listener_default env o.https_port_default)) in
    let unless_http =
      if o.http || (given o.http_port || (o.http_unix_socket != "" || given o.port))
      then disabled
      else general in
    if o.https_addr != ""
    then listens (at_address o.https_addr)
    else at_port_or o.https_port (at_socket_or o.https_unix_socket unless_http)
