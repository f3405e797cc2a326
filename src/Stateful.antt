-- ===== src/Stateful.antt =====
-- maybeHandleStatefulRequest and createPaymentIntent (server/paymentintents.go): which requests the
-- stateful layer answers, and how it moves the stored objects. The lock on actions makes each
-- request one step.
pub mod Lifecycle
pub mod Progress
pub mod Notify
pub mod Guarded
pub mod Final
pub mod Capture
pub mod Create
mod Answers
mod Actions
unfoldable pub use Answers.*
unfoldable pub use Actions.*
use Prim.Native.String.{String}
use stripe_mock_pi.Prelude.{
  ℕ, Bool, true, false, not, ◌&&◌, ◌||◌, List, [], ◌∷◌, Option, none, some, ◌==◌, ◌!=◌, is_some,
  if◌then◌else◌,
}
use stripe_mock_pi.Text.{has_suffix, ◌<>◌}
use stripe_mock_pi.Float
use stripe_mock_pi.Json.{
  Value, nil, bool, str, obj, Object, end, get, at, put, get_string, bool_param,
}
use stripe_mock_pi.Json.Copy.{deep_copy}
use stripe_mock_pi.Store.{
  StatefulStore, set_stateful_enabled, stateful_enabled, get_payment_intent, put_payment_intent,
  get_charge, list_resources, charge_resource_id, payment_intent_resource_id,
}
use stripe_mock_pi.Ids.{random_id, random_id_random_part}
use stripe_mock_pi.Session.{session_id, mock_stateful_header}
use stripe_mock_pi.Server.{
  Server, Request, PathParams, Response, respond, object, array, status_ok, status_bad_request,
  status_internal_server_error, create_internal_server_error, type_invalid_request_error,
}
use stripe_mock_pi.Expand.{
  ExpansionLevel, level, find_expansion, Extracted, absent, expansions_of, panic,
  extract_expansions,
}
use stripe_mock_pi.Intent.{
  Action, update, confirm, capture, cancel, confirm_has_payment_method, number_value,
  attach_payment_method, set_status, apply_confirm, apply_capture, apply_cancel, apply_update,
  copy_payment_intent_params, reset_payment_intent_lifecycle_fields,
  payment_intent_action_for_request,
}
use stripe_mock_pi.Transition.{Config, record_payment_intent_transition}

module _ (config : Config) where
  -- The initial status, and a confirm at once where the request asks for it.
  unfoldable pub start_payment_intent : (pi params : Object) → Server → Object × Server
  start_payment_intent pi params s =
      if bool_param params "confirm"
      then (let (confirmed, e) = apply_confirm pi params s.entropy in
          (confirmed, record s { entropy = e }))
      else if get_string pi "payment_method" != ""
      then (set_status pi "requires_confirmation", s)
      else (set_status pi "requires_payment_method", s)

  -- An intent's id: its own, or a fresh one.
  unfoldable pub with_id : Object → Server → Object × String × Server
  with_id pi s =
      if get_string pi "id" == ""
      then (let (id, e) = random_id "pi" s.entropy in
          (put pi "id" (str id), id, record s { entropy = e }))
      else (pi, get_string pi "id", s)

  -- The intent of a create before its transition is recorded, and its id.
  unfoldable pub prepare : (base params : Object) → Server → Object × String × Server
  unfolding with_id start_payment_intent
  prepare base params s =
      let copied = copy_payment_intent_params (reset_payment_intent_lifecycle_fields base) params in
      let (named, id, s₁) = with_id copied s in
      let (secret, e₂) = random_id_random_part s₁.entropy in
      let keyed = put named "client_secret" (str (id <> ("_secret_" <> secret))) in
      let (attached, e₃) = attach_payment_method keyed params e₂ in
      let (started, s₄) = start_payment_intent attached params (record s₁ { entropy = e₃ }) in
      (started, id, s₄)

  -- createPaymentIntent behind the generation of the base.
  unfoldable pub create_from :
      (session : String) → (base params : Object) → Server → Object × Server
  unfolding prepare
  create_from session base params s =
      let (started, id, s₄) = prepare base params s in
      let (pi, s₅) = record_payment_intent_transition config session s₄ started true false in
      (pi, record s₅ { store = put_payment_intent s₅.store session id pi })

  abbrev created :
      (session : String) → (params : Object) → Option Object → Server → Outcome × Server
  created session params none s = (internal_error, s)
  created session params (some base) s =
      let (pi, s') = create_from session base params s in
      (expand_stateful_payment_intent s'.store session pi params, s')

  -- A POST to the collection.
  unfoldable pub handle_create : (session : String) → (params : Object) → Server → Outcome × Server
  unfolding create_from
  handle_create session params s =
      if bool_param params "confirm" && not (confirm_has_payment_method end params)
      then (state_error missing_payment_method, s)
      else (let (base, e) = config.generate_resource_base payment_intent_resource_id s.entropy in
          created session params base (record s { entropy = e }))

  -- An intent that the store has never seen, on a fresh base.
  unfoldable pub adopt : (id : String) → Object → Object
  adopt id base =
      set_status (put (reset_payment_intent_lifecycle_fields base) "id" (str id))
        "requires_confirmation"

  abbrev adopted : (id : String) → Option Object → Option Object
  adopted id none = none
  adopted id (some base) = some (adopt id base)

  abbrev load_found : (id : String) → Option Object → Server → Option Object × Server
  load_found id (some pi) s = (some pi, s)
  load_found id none s =
      let (base, e) = config.generate_resource_base payment_intent_resource_id s.entropy in
      (adopted id base, record s { entropy = e })

  -- The stored intent, or an adopted one; none where the base cannot be generated.
  unfoldable pub load : (session id : String) → Server → Option Object × Server
  unfolding adopt
  load session id s = load_found id (get_payment_intent s.store session id) s

  -- What follows the switch on the action: the intent is stored and shown.
  abbrev finish : (session id : String) → (params : Object) → Acted → Server → Outcome × Server
  finish session id params (refused message) s = (state_error message, s)
  finish session id params (acted pi s') s =
      let stored = put_payment_intent s'.store session id pi in
      (expand_stateful_payment_intent stored session pi params, record s' { store = stored })

  abbrev perform :
      Action → (session id : String) → (params : Object) → Option Object × Server → Outcome × Server
  perform action session id params (none, s) = (internal_error, s)
  perform action session id params (some pi, s) =
      finish session id params (act config action session pi params s) s

  abbrev on_action :
      Option Action → (session id : String) → (params : Object) → Server → Outcome × Server
  on_action none session id params s = (falls_through, s)
  on_action (some action) session id params s = perform action session id params (load session id s)

  -- A POST to an intent's path.
  unfoldable pub handle_action :
      (session id path : String) → (params : Object) → Server → Outcome × Server
  unfolding load act
  handle_action session id path params s =
      on_action (payment_intent_action_for_request path id) session id params s

  abbrev shown : (Object → Outcome) → Option Object → Server → Outcome × Server
  shown show none s = (falls_through, s)
  shown show (some m) s = (show m, s)

  abbrev retrieve :
      (String → Option Object) → (Object → Outcome) → Option String → Server → Outcome × Server
  retrieve read show none s = (falls_through, s)
  retrieve read show (some id) s = shown show (read id) s

  abbrev post_action :
      Option String → (session path : String) → (params : Object) → Server → Outcome × Server
  post_action none session path params s = (falls_through, s)
  post_action (some id) session path params s = handle_action session id path params s

  abbrev pub retrieve_charge : (session : String) → Request → Server → Outcome × Server
  retrieve_charge session r s =
      retrieve (get_charge s.store session)
        (λ charge. expand_stateful_charge s.store session charge r.params)
        (primary_id_of r.path_params) s

  abbrev pub retrieve_payment_intent : (session : String) → Request → Server → Outcome × Server
  retrieve_payment_intent session r s =
      retrieve (get_payment_intent s.store session)
        (λ pi. expand_stateful_payment_intent s.store session pi r.params)
        (primary_id_of r.path_params) s

  -- The dispatch on the route's resource and the method.
  unfoldable pub dispatch : (session : String) → Request → Server → Outcome × Server
  unfolding handle_create handle_action
  dispatch session r s =
      if r.resource_id == charge_resource_id
      then (if r.method == "GET" then retrieve_charge session r s else (falls_through, s))
      else if r.resource_id != payment_intent_resource_id
      then (falls_through, s)
      else if r.method == "GET"
      then retrieve_payment_intent session r s
      else if r.method == "POST"
      then (if is_some r.path_params
          then post_action (primary_id_of r.path_params) session r.path r.params s
          else handle_create session r.params s)
      else (falls_through, s)

  -- The list of the matching charges, or what follows where there is none.
  abbrev or_charges : List Object → Outcome × Server → Server → Outcome × Server
  or_charges [] rest s = rest
  or_charges (charge ∷ charges) rest s = (responds_ok (charge_list (charge ∷ charges)), s)

  -- maybeHandleStatefulRequest, where the session has opted in.
  unfoldable pub handle_enabled : (session : String) → Request → Server → Outcome × Server
  unfolding dispatch
  handle_enabled session r s =
      let pi_id = get_string r.params "payment_intent" in
      let matches = charges_of pi_id (list_resources s.store session charge_resource_id) in
      if r.method == "GET" && (has_suffix r.path "/v1/charges" && pi_id != "")
      then or_charges matches (dispatch session r s) s
      else dispatch session r s

  -- The header opts the session in.
  unfoldable pub opt_in : (session : String) → Request → Server → Server
  opt_in session r s =
      if r.header mock_stateful_header != ""
      then record s { store = set_stateful_enabled s.store session true }
      else s

  unfoldable pub maybe_handle_stateful_request : Request → Server → Outcome × Server
  unfolding handle_enabled opt_in
  maybe_handle_stateful_request r s =
      let session = session_id r.header in
      let s' = opt_in session r s in
      if stateful_enabled s'.store session then handle_enabled session r s' else (falls_through, s')
