-- ===== src/Transition/Fields.antt =====
-- The fields of the intent behind recordPaymentIntentTransition (server/paymentintents.go).
use Prim.Native.String.{String}
use stripe_mock_pi.Prelude.{
  ◌≡◌, refl, Bool, true, false, Option, none, some, arith, ◌==◌, if◌then◌else◌, ap,
}
use stripe_mock_pi.Json.{Object, get, get_string, or_nil, string_of}
use stripe_mock_pi.Json.Laws.{get-put}
use stripe_mock_pi.Ids.{Entropy}
use stripe_mock_pi.Server.{Server}
use stripe_mock_pi.Transition.{
  Config, charge_for, existing_charge, settle_charge, record_status, emit,
  record_payment_intent_transition,
}

module _ (config : Config) (session : String) (k : String)
    (h : ("latest_charge" == k) ≡ false) where
  get-charge_for :
      (o : Option Object) (pi : Object) (e : Entropy)
      → get (charge_for config session o pi e).1 k ≡ get pi k
  unfolding charge_for
  get-charge_for (some charge) pi e = refl
  get-charge_for none pi e = rw get-put (rw h)

  get-settle_charge :
      (s : Server) (pi : Object) (status : String) (captured : Bool)
      (charge_event pi_event : String)
      → get (settle_charge config session s pi status captured charge_event pi_event).0 k ≡ get pi k
  unfolding settle_charge
  get-settle_charge s pi status captured charge_event pi_event =
      get-charge_for (existing_charge config session s pi) pi s.entropy

  get-record_status :
      (s : Server) (pi : Object) (was_authorized : Bool)
      → get (record_status config session s pi was_authorized).0 k ≡ get pi k
  unfolding record_status
  get-record_status s pi was_authorized = ground (
    arith,
    get-settle_charge s pi "succeeded" true
        (if was_authorized then "charge.captured" else "charge.succeeded")
        "payment_intent.succeeded",
  )

  pub get-record :
      (s : Server) (pi : Object) (is_create was_authorized : Bool)
      → get (record_payment_intent_transition config session s pi is_create was_authorized).0 k
        ≡ get pi k
  unfolding record_payment_intent_transition
  get-record s pi is_create was_authorized =
      get-record_status (if is_create then emit config session s pi "payment_intent.created" else s)
        pi was_authorized

  pub get_string-record :
      (s : Server) (pi : Object) (is_create was_authorized : Bool)
      → get_string
          (record_payment_intent_transition config session s pi is_create was_authorized).0
          k
        ≡ get_string pi k
  unfolding get_string
  get_string-record s pi is_create was_authorized =
      ap (λ o. string_of (or_nil o)) (get-record s pi is_create was_authorized)
