-- ===== src/Transition.antt =====
-- The events and the charge of a PaymentIntent's transition (server/paymentintents.go):
-- buildEvent, ensureChargeForPI and recordPaymentIntentTransition.
pub mod Fields
pub mod Queue
pub mod Reads
pub mod Charges
use Prim.Native.String.{String}
use stripe_mock_pi.Prelude.{
  ℕ, Bool, true, false, not, ◌&&◌, List, [], ◌∷◌, Option, none, some, ◌==◌, ◌!=◌, is_some,
  if◌then◌else◌,
}
use stripe_mock_pi.Prelude.Int.{pos}
use stripe_mock_pi.Json.{Value, nil, bool, int, str, obj, Object, end, get, at, put, get_string}
use stripe_mock_pi.Json.Copy.{deep_copy}
use stripe_mock_pi.Store.{get_charge, put_charge, enqueue_event, charge_resource_id}
use stripe_mock_pi.Ids.{Entropy, random_id}
use stripe_mock_pi.Server.{Server, object}

-- What the stateful layer takes from the rest of the server: the API version of the spec, and
-- generateResourceBase, which draws random numbers and may fail.
pub record Config : Type 0 where
  pub api_version : String
  pub generate_resource_base : String → Entropy → Option Object × Entropy

abbrev pub is_nil : Value → Bool
is_nil nil = true
is_nil _ = false

-- `if v := pi[key]; v != nil { charge[key] = v }`
abbrev copy_non_nil : (charge pi : Object) → String → Object
copy_non_nil charge pi key = if is_nil (at pi key) then charge else put charge key (at pi key)

-- A charge that a PaymentIntent may go on using.
abbrev live : Option Object → Option Object
live none = none
live (some charge) = if get_string charge "status" != "failed" then some charge else none

module _ (config : Config) (session : String) where
  -- buildEvent
  unfoldable pub build_event : (event_type : String) → Object → Entropy → Object × Entropy
  build_event event_type subject e =
      let (id, e') = random_id "evt" e in
      (
        object (
            ("id", str id)
            ∷ ("object", str "event")
            ∷ ("api_version", str config.api_version)
            ∷ ("created", int (pos e.now))
            ∷ ("livemode", bool false)
            ∷ ("pending_webhooks", int (pos 0))
            ∷ ("type", str event_type)
            ∷ ("request", obj (object (("id", nil) ∷ ("idempotency_key", nil) ∷ [])))
            ∷ ("data", obj (object (("object", obj (deep_copy subject)) ∷ [])))
            ∷ []),
        e',
      )

  -- enqueuePIEvent, enqueueChargeEvent
  unfoldable pub emit : Server → Object → (event_type : String) → Server
  unfolding build_event
  emit s subject event_type =
      let (event, e) = build_event event_type subject s.entropy in
      record s { store = enqueue_event s.store session event; entropy = e }

  -- The live charge that `latest_charge` names.
  unfoldable pub existing_charge : Server → (pi : Object) → Option Object
  existing_charge s pi =
      if get_string pi "latest_charge" != ""
      then live (get_charge s.store session (get_string pi "latest_charge"))
      else none

  abbrev or_empty_base : Option Object → Object
  or_empty_base none = end
  or_empty_base (some base) = base

  -- The charge to write to, the intent that names it, and the charge's id.
  unfoldable pub charge_for :
      Option Object → (pi : Object) → Entropy → Object × Object × String × Entropy
  charge_for (some charge) pi e = (charge, pi, get_string pi "latest_charge", e)
  charge_for none pi e =
      let (base, e') = config.generate_resource_base charge_resource_id e in
      let (id, e'') = random_id "ch" e' in
      (put (or_empty_base base) "id" (str id), put pi "latest_charge" (str id), id, e'')

  -- The fields that ensureChargeForPI writes to the charge.
  unfoldable pub fill_charge : (charge pi : Object) → (status : String) → (captured : Bool) → Object
  fill_charge charge pi status captured =
      let named = put charge "object" (str "charge") in
      let priced = put (put named "amount" (at pi "amount")) "currency" (at pi "currency") in
      let owned = put priced "payment_intent" (str (get_string pi "id")) in
      let paid_by = copy_non_nil (copy_non_nil owned pi "customer") pi "payment_method" in
      let settled = put (put paid_by "status" (str status)) "captured" (bool captured) in
      let paid = put settled "paid" (bool (status == "succeeded")) in
      put paid "amount_captured" (if captured then at pi "amount_received" else int (pos 0))

  -- ensureChargeForPI: the charge, the intent and the server behind it.
  unfoldable pub ensure_charge_for_pi :
      Server → (pi : Object) → (status : String) → (captured : Bool) → Object × Object × Server
  unfolding existing_charge charge_for fill_charge
  ensure_charge_for_pi s pi status captured =
      let (found, pi', id, e) = charge_for (existing_charge s pi) pi s.entropy in
      let charge = fill_charge found pi' status captured in
      (charge, pi', record s { store = put_charge s.store session id charge; entropy = e })

  -- A charge is written, then its event is queued, then the intent's.
  unfoldable pub settle_charge :
      Server
      → (pi : Object) → (status : String) → (captured : Bool) → (charge_event pi_event : String)
      → Object × Server
  unfolding ensure_charge_for_pi emit
  settle_charge s pi status captured charge_event pi_event =
      let (charge, pi', s') = ensure_charge_for_pi s pi status captured in
      (pi', emit (emit s' charge charge_event) pi' pi_event)

  -- recordPaymentIntentTransition's switch on the status.
  unfoldable pub record_status : Server → (pi : Object) → (was_authorized : Bool) → Object × Server
  unfolding settle_charge emit
  record_status s pi was_authorized =
      let status = get_string pi "status" in
      if status == "succeeded"
      then settle_charge s pi "succeeded" true
          (if was_authorized then "charge.captured" else "charge.succeeded")
          "payment_intent.succeeded"
      else if status == "requires_capture"
      then settle_charge s pi "succeeded" false "charge.succeeded"
          "payment_intent.amount_capturable_updated"
      else if status == "requires_action"
      then (pi, emit s pi "payment_intent.requires_action")
      else if status == "processing"
      then (pi, emit s pi "payment_intent.processing")
      else if status == "requires_payment_method"
      then (if is_nil (at pi "last_payment_error")
          then (pi, s)
          else settle_charge s pi "failed" false "charge.failed" "payment_intent.payment_failed")
      else if status == "canceled"
      then (pi, emit s pi "payment_intent.canceled")
      else (pi, s)

  -- recordPaymentIntentTransition
  unfoldable pub record_payment_intent_transition :
      Server → (pi : Object) → (is_create was_authorized : Bool) → Object × Server
  unfolding record_status emit
  record_payment_intent_transition s pi is_create was_authorized =
      let created = if is_create then emit s pi "payment_intent.created" else s in
      record_status created pi was_authorized
