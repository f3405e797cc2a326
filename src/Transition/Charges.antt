-- ===== src/Transition/Charges.antt =====
-- The charge that backs a PaymentIntent: where it is stored, and what it says.
use Prim.Native.String.{String}
use stripe_mock_pi.Prelude.{
  ◌≡◌, refl, Bool, false, Option, none, some, ◌==◌, if◌then◌else◌, ◌∙◌, eq_refl, Bool-cases, inl,
  inr,
}
use stripe_mock_pi.Prelude.Int.{pos}
use stripe_mock_pi.Json.{int, bool, Object, at, get, get_string}
use stripe_mock_pi.Json.Laws.{get-put, object_laws}
use stripe_mock_pi.Json.Copy.{deep_copy}
use stripe_mock_pi.Ids.{Entropy}
use stripe_mock_pi.Store.{get_charge}
use stripe_mock_pi.Store.Resources.{get_resource-put_resource, get_resource-enqueue_event}
use stripe_mock_pi.Server.{Server}
use stripe_mock_pi.Transition.{
  Config, emit, ensure_charge_for_pi, settle_charge, charge_for, existing_charge, fill_charge,
  copy_non_nil, is_nil,
}

get-copy_non_nil :
    (charge pi : Object) (key k : String)
    → (key == k) ≡ false
    → get (copy_non_nil charge pi key) k ≡ get charge k
get-copy_non_nil charge pi key k h = elim (Bool-cases (is_nil (at pi key))) [
  | inl missing ↦ rw missing
  | inr given ↦ rw given (rw get-put (rw h))
]

module _ (config : Config) (session : String) where
  -- The id under which the charge is stored is the one that the intent names.
  charge_for-id :
      (o : Option Object) (pi : Object) (e : Entropy)
      → (charge_for config session o pi e).2
        ≡ get_string (charge_for config session o pi e).1 "latest_charge"
  unfolding charge_for
  charge_for-id none pi e = simp object_laws
  charge_for-id (some charge) pi e = refl

  -- What a charge says of its intent.
  pub record Backs (charge pi : Object) (status : String) (captured : Bool) : Type 0 where
    pub status_is : get_string charge "status" ≡ status
    pub captured_is : at charge "captured" ≡ bool captured
    pub paid_is : at charge "paid" ≡ bool (status == "succeeded")
    pub amount_is : at charge "amount" ≡ at pi "amount"
    pub amount_captured_is :
        at charge "amount_captured" ≡ (if captured then at pi "amount_received" else int (pos 0))
    pub payment_intent_is : get_string charge "payment_intent" ≡ get_string pi "id"

  pub fill_charge-Backs :
      (charge pi : Object) (status : String) (captured : Bool)
      → Backs (fill_charge config session charge pi status captured) pi status captured
  unfolding fill_charge get_string
  fill_charge-Backs charge pi status captured = record {
    status_is = simp object_laws;
    captured_is = simp object_laws;
    paid_is = simp object_laws;
    amount_is = simp (object_laws, get-copy_non_nil);
    amount_captured_is = simp object_laws;
    payment_intent_is = simp (object_laws, get-copy_non_nil);
  }

  -- Settling stores the charge under the id that the intent names from then on.
  pub get_charge-settle_charge :
      (s : Server) (pi : Object) (status : String) (captured : Bool)
      (charge_event pi_event : String)
      → get_charge
          (settle_charge config session s pi status captured charge_event pi_event).1.store
          session
          (get_string
            (settle_charge config session s pi status captured charge_event pi_event).0
            "latest_charge")
        ≡ some (deep_copy (ensure_charge_for_pi config session s pi status captured).0)
  unfolding settle_charge
  get_charge-settle_charge s pi status captured charge_event pi_event =
      let (charge, pi', s') = ensure_charge_for_pi config session s pi status captured in
      let id = (charge_for config session (existing_charge config session s pi) pi s.entropy).2 in
      get_resource-enqueue_event (emit config session s' charge charge_event).store session _
        session "charge" _
      ∙ get_resource-enqueue_event s'.store session _ session "charge" _
      ∙ get_resource-put_resource s.store session "charge" id charge session "charge" _
      ∙ rw (eq_refl session) (
          rw (← charge_for-id (existing_charge config session s pi) pi s.entropy) (rw (eq_refl id)))
