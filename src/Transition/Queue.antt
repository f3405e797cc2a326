-- ===== src/Transition/Queue.antt =====
-- What a recorded transition adds to the session's event queue.
use Prim.Native.String.{String}
use mathlib.Core.List.{append_assoc}
use stripe_mock_pi.Prelude.{
  ◌≡◌, refl, Bool, true, false, List, [], ◌∷◌, ◌++◌, ap, ◌∙◌, sym, eq_refl, Option, none, some,
  if◌then◌else◌,
}
use stripe_mock_pi.Json.{Value, nil, obj, Object, get, at, get_string}
use stripe_mock_pi.Json.Copy.{deep_copy}
use stripe_mock_pi.Store.{StatefulStore, get_charge, put_resource, enqueue_event}
use stripe_mock_pi.Store.Events.{queue, queue-put_session}
use stripe_mock_pi.Server.{Server}
use stripe_mock_pi.Transition.Charges.{get_charge-settle_charge}
use stripe_mock_pi.Transition.{
  Config, ensure_charge_for_pi, settle_charge, record_status, emit, is_nil,
}

-- The object that an event carries.
abbrev object_in : Value → Value
object_in (obj held) = at held "object"
object_in _ = nil

-- What queued events say: their types and their objects.
abbrev pub said : List Object → List (String × Value)
said [] = []
said (event ∷ events) = (get_string event "type", object_in (at event "data")) ∷ said events

said-append : (xs ys : List Object) → said (xs ++ ys) ≡ said xs ++ said ys
said-append [] ys = refl
said-append (x ∷ xs) ys =
    ap (λ l. (get_string x "type", object_in (at x "data")) ∷ l) (said-append xs ys)

-- An event of the charge, then one of the intent.
abbrev pub of_both : (charge_event pi_event : String) → Value → Value → List (String × Value)
of_both charge_event pi_event charge intent = (charge_event, charge) ∷ (pi_event, intent) ∷ []

abbrev pub of_intent : (pi_event : String) → Value → Value → List (String × Value)
of_intent pi_event charge intent = (pi_event, intent) ∷ []

abbrev pub settled_events : (was_authorized : Bool) → Value → Value → List (String × Value)
settled_events true = of_both "charge.captured" "payment_intent.succeeded"
settled_events false = of_both "charge.succeeded" "payment_intent.succeeded"

abbrev or_no_charge : Option Object → Value
or_no_charge none = nil
or_no_charge (some charge) = obj charge

module _ (session : String) where
  -- What the events that wait in the session say.
  abbrev pub waiting : Server → List (String × Value)
  waiting s = said (queue session s.store)

  -- The charge that is stored under the id that an intent names.
  abbrev pub stored_charge : (pi : Object) → Server → Value
  stored_charge pi s = or_no_charge (get_charge s.store session (get_string pi "latest_charge"))

  -- The events that are queued behind those of `s`, for the stored charge and the intent.
  abbrev pub Queues : Server → (Value → Value → List (String × Value)) → Object × Server → Type 0
  Queues s events r =
      waiting r.1 ≡ waiting s ++ events (stored_charge r.0 r.1) (obj (deep_copy r.0))

  pub queue-put_resource :
      (s : StatefulStore) (kind id : String) (object : Object)
      → queue session (put_resource s session kind id object) ≡ queue session s
  unfolding put_resource
  queue-put_resource s kind id object = queue-put_session session s session _ ∙ rw (eq_refl session)

  queue-enqueue_event :
      (s : StatefulStore) (event : Object)
      → queue session (enqueue_event s session event) ≡ queue session s ++ (event ∷ [])
  unfolding enqueue_event
  queue-enqueue_event s event = queue-put_session session s session _ ∙ rw (eq_refl session)

module _ (config : Config) (session : String) where
  pub waiting-emit :
      (s : Server) (subject : Object) (event_type : String)
      → waiting session (emit config session s subject event_type)
        ≡ waiting session s ++ ((event_type, obj (deep_copy subject)) ∷ [])
  unfolding emit get_string get
  waiting-emit s subject event_type =
      ap said (queue-enqueue_event session s.store _) ∙ said-append (queue session s.store) _

  Queues-settle_charge :
      (s : Server) (pi : Object) (status : String) (captured : Bool)
      (charge_event pi_event : String)
      → Queues session s
          (of_both charge_event pi_event)
          (settle_charge config session s pi status captured charge_event pi_event)
  unfolding settle_charge
  Queues-settle_charge s pi status captured charge_event pi_event =
      let (charge, pi', s') = ensure_charge_for_pi config session s pi status captured in
      let intent = obj (deep_copy pi') in
      waiting-emit (emit config session s' charge charge_event) pi' pi_event
      ∙ ap (λ l. l ++ ((pi_event, intent) ∷ [])) (waiting-emit s' charge charge_event)
      ∙ append_assoc (waiting session s') _ _
      ∙ ap (λ l. said l ++ of_both charge_event pi_event (obj (deep_copy charge)) intent)
          (queue-put_resource session s.store _ _ _)
      ∙ ap (λ o. waiting session s ++ of_both charge_event pi_event (or_no_charge o) intent)
          (sym (get_charge-settle_charge config session s pi status captured charge_event pi_event))

  module _ (s : Server) (pi : Object) (was_authorized : Bool) where
    pub Queues-succeeded :
        get_string pi "status" ≡ "succeeded"
        → Queues session s
            (settled_events was_authorized)
            (record_status config session s pi was_authorized)
    unfolding record_status
    Queues-succeeded h = rw h (if-settled was_authorized)
      where
        if-settled :
            (b : Bool)
            → Queues session s (settled_events b) (
                settle_charge config session s pi "succeeded" true
                  (if b then "charge.captured" else "charge.succeeded")
                  "payment_intent.succeeded")
        if-settled true = Queues-settle_charge s pi _ _ _ _
        if-settled false = Queues-settle_charge s pi _ _ _ _

    pub Queues-requires_capture :
        get_string pi "status" ≡ "requires_capture"
        → Queues session s
            (of_both "charge.succeeded" "payment_intent.amount_capturable_updated")
            (record_status config session s pi was_authorized)
    unfolding record_status
    Queues-requires_capture h = rw h (Queues-settle_charge s pi _ _ _ _)

    pub Queues-declined :
        get_string pi "status" ≡ "requires_payment_method"
        → is_nil (at pi "last_payment_error") ≡ false
        → Queues session s
            (of_both "charge.failed" "payment_intent.payment_failed")
            (record_status config session s pi was_authorized)
    unfolding record_status
    Queues-declined h failed = rw h (rw failed (Queues-settle_charge s pi _ _ _ _))

    pub Queues-requires_action :
        get_string pi "status" ≡ "requires_action"
        → Queues session s
            (of_intent "payment_intent.requires_action")
            (record_status config session s pi was_authorized)
    unfolding record_status
    Queues-requires_action h = rw h (waiting-emit s pi _)

    pub Queues-canceled :
        get_string pi "status" ≡ "canceled"
        → Queues session s
            (of_intent "payment_intent.canceled")
            (record_status config session s pi was_authorized)
    unfolding record_status
    Queues-canceled h = rw h (waiting-emit s pi _)
