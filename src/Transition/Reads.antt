-- ===== src/Transition/Reads.antt =====
-- Reading intents behind recordPaymentIntentTransition (server/paymentintents.go).
use Prim.Native.String.{String}
use stripe_mock_pi.Prelude.{
  ◌≡◌, refl, Bool, true, false, Option, ◌==◌, if◌then◌else◌, if_elim, ◌∙◌, eq_refl,
}
use stripe_mock_pi.Json.{Object, at, get_string}
use stripe_mock_pi.Store.{get_payment_intent}
use stripe_mock_pi.Store.Resources.{get_resource-put_resource, get_resource-enqueue_event}
use stripe_mock_pi.Server.{Server}
use stripe_mock_pi.Transition.{
  Config, emit, ensure_charge_for_pi, settle_charge, record_status,
  record_payment_intent_transition, is_nil,
}

module _ (config : Config) (session : String) (id : String) where
  abbrev read : Server → Option Object
  read s = get_payment_intent s.store session id

  read-emit :
      (s : Server) (subject : Object) (event_type : String)
      → read (emit config session s subject event_type) ≡ read s
  unfolding emit
  read-emit s subject event_type = get_resource-enqueue_event s.store session _ session _ id

  read-settle_charge :
      (s : Server) (pi : Object) (status : String) (captured : Bool)
      (charge_event pi_event : String)
      → read (settle_charge config session s pi status captured charge_event pi_event).1 ≡ read s
  unfolding settle_charge
  read-settle_charge s pi status captured charge_event pi_event =
      let (charge, pi', s') = ensure_charge_for_pi config session s pi status captured in
      read-emit (emit config session s' charge charge_event) pi' pi_event
      ∙ read-emit s' charge charge_event
      ∙ get_resource-put_resource s.store session "charge" _ charge session "payment_intent" id
      ∙ rw (eq_refl session)

  record Reads (s : Server) (r : Object × Server) : Type 0 where
    by : read r.1 ≡ read s

  Reads-if :
      {s : Server} (b : Bool) {x y : Object × Server}
      → Reads s x
      → Reads s y
      → Reads s (if b then x else y)
  Reads-if {s} b px py = if_elim (Reads s) b px py

  settled :
      (s : Server) (pi : Object) (status : String) (captured : Bool)
      (charge_event pi_event : String)
      → Reads s (settle_charge config session s pi status captured charge_event pi_event)
  settled s pi status captured charge_event pi_event = record {
    by = read-settle_charge s pi status captured charge_event pi_event;
  }

  Reads-record_status :
      (s : Server) (pi : Object) (was_authorized : Bool)
      → Reads s (record_status config session s pi was_authorized)
  unfolding record_status
  Reads-record_status s pi was_authorized =
      let idle : Reads s (pi, s) = record { by = refl } in
      let emitted : (event_type : String) → Reads s (pi, emit config session s pi event_type) =
        λ event_type. record { by = read-emit s pi event_type } in
      let status = get_string pi "status" in
      Reads-if (status == "succeeded")
        (settled s pi "succeeded" true
          (if was_authorized then "charge.captured" else "charge.succeeded")
          "payment_intent.succeeded")
        (Reads-if (status == "requires_capture")
          (settled s pi "succeeded" false "charge.succeeded"
            "payment_intent.amount_capturable_updated")
          (Reads-if (status == "requires_action") (emitted "payment_intent.requires_action") (
            Reads-if (status == "processing") (emitted "payment_intent.processing") (
              Reads-if (status == "requires_payment_method")
                (Reads-if (is_nil (at pi "last_payment_error")) idle
                  (settled s pi "failed" false "charge.failed" "payment_intent.payment_failed"))
                (Reads-if (status == "canceled") (emitted "payment_intent.canceled") idle)))))

  pub get_payment_intent-record :
      (s : Server) (pi : Object) (is_create was_authorized : Bool)
      → get_payment_intent
          (record_payment_intent_transition config session s pi is_create was_authorized).1.store
          session
          id
        ≡ get_payment_intent s.store session id
  unfolding record_payment_intent_transition
  get_payment_intent-record s pi true was_authorized =
      (Reads-record_status (emit config session s pi "payment_intent.created") pi was_authorized).by
      ∙ read-emit s pi _
  get_payment_intent-record s pi false was_authorized = (Reads-record_status s pi was_authorized).by
