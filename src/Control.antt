-- ===== src/Control.antt =====
-- The control plane under /v1/_mock/ (server/control.go), and mergeMap (server/stateful.go). The
-- JSON decoder's answer for the request's body is an input.
pub mod Merging
pub mod Seeding
use Prim.Native.String.{String}
use stripe_mock_pi.Prelude.{
  Bool, true, false, ◌&&◌, List, [], ◌∷◌, Option, none, some, ◌==◌, ◌!=◌, if◌then◌else◌,
}
use stripe_mock_pi.Text.{has_prefix, trim_prefix, split, ◌<>◌}
use stripe_mock_pi.Json.{
  Value, nil, bool, int, float64, str, arr, obj, Object, end, entry, get, at, put, get_string,
}
use stripe_mock_pi.Store.{
  reset, set_stateful_enabled, get_payment_intent, put_payment_intent, list_resources, drain_events,
  enqueue_event, payment_intent_resource_id,
}
use stripe_mock_pi.Ids.{random_id}
use stripe_mock_pi.Session.{session_id}
use stripe_mock_pi.Server.{
  Server, Response, respond, object, array, status_ok, status_bad_request, status_not_found,
  status_internal_server_error, create_stripe_error, create_internal_server_error,
  type_invalid_request_error,
}
use stripe_mock_pi.Transition.{Config, build_event}

-- What the JSON decoder says of a body: nothing there, an object (`null` gives an empty one), or an
-- error.
pub data Body : Type 0 where
  eof : Body
  decoded : Object → Body
  malformed : (message : String) → Body

pub record ControlRequest : Type 0 where
  pub method : String
  pub path : String
  pub header : String → String
  pub query : String → String
  pub body : Body

abbrev pub mock_control_prefix : String
mock_control_prefix = "/v1/_mock/"

unfoldable pub is_control_request : (path : String) → Bool
is_control_request path = has_prefix path mock_control_prefix

-- mergeMap: a loop over the entries of `src`. What `dst` becomes is returned; that it may be shared,
-- as a map of the fixtures that a generated object holds, does not show.
unfoldable mutual
  pub merge_map : (dst src : Object) → Object
  merge_map dst end = dst
  merge_map dst (entry k v src) = merge_map (put dst k (merge_value v (at dst k))) src

  -- The value that replaces `old`: two maps are merged, anything else is taken whole.
  pub merge_value : (new old : Value) → Value
  merge_value (obj src) (obj dst) = obj (merge_map dst src)
  merge_value v old = v

abbrev is_emit : List String → Bool
is_emit (first ∷ id ∷ last ∷ []) = first == "payment_intents" && last == "emit"
is_emit _ = false

unfoldable pub is_payment_intent_emit_endpoint : (endpoint : String) → Bool
is_payment_intent_emit_endpoint endpoint = is_emit (split b'/' endpoint)

abbrev second_of_three : List String → String
second_of_three (first ∷ id ∷ last ∷ []) = id
second_of_three _ = ""

unfoldable pub payment_intent_emit_id : (endpoint : String) → String
payment_intent_emit_id endpoint = second_of_three (split b'/' endpoint)

-- paymentIntentStatusEvents and eventTypeForPaymentIntentStatus
unfoldable pub event_type_for_payment_intent_status : (status : String) → String
event_type_for_payment_intent_status status =
    if status == "succeeded"
    then "payment_intent.succeeded"
    else if status == "requires_action"
    then "payment_intent.requires_action"
    else if status == "requires_payment_method"
    then "payment_intent.payment_failed"
    else if status == "requires_capture"
    then "payment_intent.amount_capturable_updated"
    else if status == "requires_confirmation"
    then "payment_intent.created"
    else if status == "processing"
    then "payment_intent.processing"
    else if status == "canceled"
    then "payment_intent.canceled"
    else "payment_intent.created"

abbrev invalid_request : (message : String) → Value
invalid_request message = create_stripe_error type_invalid_request_error message

-- A `bool` stored under the flag's name; true where there is none.
abbrev enabled_by : Value → Bool
enabled_by (bool b) = b
enabled_by _ = true

abbrev configured : (session : String) → Bool → Server → Response × Server
configured session enabled s = (
  respond status_ok (
      obj (
        object (("object", str "_mock.config") ∷ ("stateful_payment_intents", bool enabled) ∷ []))),
  record s { store = set_stateful_enabled s.store session enabled },
)

unfoldable pub handle_config : (session : String) → Body → Server → Response × Server
handle_config session eof s = configured session true s
handle_config session (decoded cfg) s =
    configured session (enabled_by (at cfg "stateful_payment_intents")) s
handle_config session (malformed message) s =
    (respond status_bad_request (invalid_request ("Couldn't parse config body: " <> message)), s)

abbrev pub unknown_endpoint : ControlRequest → Response
unknown_endpoint r =
    respond status_not_found (
      invalid_request
        ("Unknown mock control endpoint (" <> (r.method <> (": " <> (r.path <> ")")))))

module _ (config : Config) where
  -- A seeded object is stored under its own id, or a fresh one, and opts the session in.
  unfoldable pub seed_object : (session : String) → Object → Server → Response × Server
  seed_object session seeded s =
      if get_string seeded "id" == ""
      then (let (id, e) = random_id "pi" s.entropy in
          let named = put seeded "id" (str id) in
          (
            respond status_ok (obj named),
            record {
              store =
                  set_stateful_enabled (put_payment_intent s.store session id named) session true;
              entropy = e;
            },
          ))
      else (
        respond status_ok (obj seeded),
        record s {
          store =
              set_stateful_enabled
                (put_payment_intent s.store session (get_string seeded "id") seeded) session true;
        },
      )

  abbrev pub seed_on :
      (session : String) → (overrides : Object) → Option Object × Server → Response × Server
  seed_on session overrides (none, s) =
      (respond status_internal_server_error create_internal_server_error, s)
  seed_on session overrides (some base, s) = seed_object session (merge_map base overrides) s

  unfoldable pub seed : (session : String) → (overrides : Object) → Server → Response × Server
  unfolding seed_object
  seed session overrides s =
      let (base, e) = config.generate_resource_base payment_intent_resource_id s.entropy in
      seed_on session overrides (base, record s { entropy = e })

  unfoldable pub handle_seed_payment_intent : (session : String) → Body → Server → Response × Server
  unfolding seed
  handle_seed_payment_intent session eof s = seed session end s
  handle_seed_payment_intent session (decoded overrides) s = seed session overrides s
  handle_seed_payment_intent session (malformed message) s =
      (respond status_bad_request (invalid_request ("Couldn't parse seed body: " <> message)), s)

  abbrev pub emit_found :
      (session id event_type : String) → Option Object → Server → Response × Server
  emit_found session id event_type none s = (
    respond status_not_found (
        invalid_request
          ("No seeded PaymentIntent \"" <> (id <> "\" in this session to emit an event for"))),
    s,
  )
  emit_found session id event_type (some pi) s =
      let chosen =
        if event_type == ""
        then event_type_for_payment_intent_status (get_string pi "status")
        else event_type in
      let (event, e) = build_event config session chosen pi s.entropy in
      (
        respond status_ok (obj event),
        record { store = enqueue_event s.store session event; entropy = e },
      )

  -- handleEmitPaymentIntentEvent. The id is quoted as a text without special characters.
  unfoldable pub handle_emit_payment_intent_event :
      (session id event_type : String) → Server → Response × Server
  handle_emit_payment_intent_event session id event_type s =
      emit_found session id event_type (get_payment_intent s.store session id) s

  abbrev pub list_body : List Object → Value
  list_body objects = obj (object (("object", str "list") ∷ ("data", array objects) ∷ []))

  -- The cases of handleControlRequest, by endpoint and method.
  unfoldable pub route_control :
      (session endpoint : String) → ControlRequest → Server → Response × Server
  unfolding handle_seed_payment_intent handle_emit_payment_intent_event
  route_control session endpoint r s =
      if endpoint == "reset" && r.method == "POST"
      then (
        respond status_ok (obj (object (("object", str "_mock.reset") ∷ []))),
        record s { store = reset s.store session },
      )
      else if endpoint == "config" && r.method == "POST"
      then handle_config session r.body s
      else if endpoint == "payment_intents" && r.method == "POST"
      then handle_seed_payment_intent session r.body s
      else if endpoint == "payment_intents" && r.method == "GET"
      then (
        respond status_ok (list_body (list_resources s.store session payment_intent_resource_id)),
        s,
      )
      else if endpoint == "events" && r.method == "GET"
      then (let (events, store) = drain_events s.store session in
          (respond status_ok (list_body events), record s { store = store }))
      else if r.method == "POST" && is_payment_intent_emit_endpoint endpoint
      then handle_emit_payment_intent_event session (payment_intent_emit_id endpoint)
          (r.query "type") s
      else (unknown_endpoint r, s)

  -- handleControlRequest
  unfoldable pub handle_control_request : ControlRequest → Server → Response × Server
  unfolding route_control
  handle_control_request r s =
      route_control (session_id r.header) (trim_prefix r.path mock_control_prefix) r s
