-- ===== src/Stateful/Capture.antt =====
-- The capture of a held PaymentIntent, down to the charge that is stored for it.
use Prim.Native.String.{String}
use stripe_mock_pi.Prelude.{
  ◌≡◌, refl, Bool, true, false, Option, none, some, ◌==◌, ◌!=◌, ap, ◌∙◌, sym, subst,
}
use stripe_mock_pi.Prelude.Int.{pos}
use stripe_mock_pi.Json.{Value, int, Object, get, at, get_string, or_nil}
use stripe_mock_pi.Json.Laws.{get-put, object_laws}
use stripe_mock_pi.Json.Copy.{deep_copy}
use stripe_mock_pi.Store.{get_charge}
use stripe_mock_pi.Server.{Server}
use stripe_mock_pi.Intent.{capture, apply_capture, captured_amount}
use stripe_mock_pi.Intent.Outcomes.{status-apply_capture}
use stripe_mock_pi.Transition.{
  Config, record_payment_intent_transition, record_status, settle_charge, ensure_charge_for_pi,
}
use stripe_mock_pi.Transition.Fields.{get-record}
use stripe_mock_pi.Transition.Charges.{Backs, fill_charge-Backs, get_charge-settle_charge}
use stripe_mock_pi.Stateful.{Acted, acted, act, over_capture}
use stripe_mock_pi.Stateful.Lifecycle.{if-acted, acted_capture}

abbrev pub requested_amount : (pi params : Object) → Value
requested_amount pi params = captured_amount pi (get params "amount_to_capture")

captured_amount-same :
    (held pi : Object) (requested : Option Value)
    → at held "amount" ≡ at pi "amount"
    → captured_amount held requested ≡ captured_amount pi requested
captured_amount-same held pi none h = h
captured_amount-same held pi (some amount) h = refl

module _ (config : Config) (session : String) where
  -- The charge that is stored under the id that an intent names says what the intent says.
  pub record Charged (r : Object × Server) : Type 0 where
    pub charge : Object
    pub stored_is :
        get_charge r.1.store session (get_string r.0 "latest_charge") ≡ some (deep_copy charge)
    pub backs_it : Backs config session charge r.0 "succeeded" true

  Charged-settle_charge :
      (s : Server) (pi : Object) (charge_event pi_event : String)
      → Charged (settle_charge config session s pi "succeeded" true charge_event pi_event)
  unfolding settle_charge
  Charged-settle_charge s pi charge_event pi_event = record {
    charge = (ensure_charge_for_pi config session s pi "succeeded" true).0;
    stored_is = get_charge-settle_charge config session s pi "succeeded" true charge_event pi_event;
    backs_it = fill_charge-Backs config session _ _ "succeeded" true;
  }

  Charged-record :
      (s : Server) (pi : Object) (was_authorized : Bool)
      → get_string pi "status" ≡ "succeeded"
      → Charged (record_payment_intent_transition config session s pi false was_authorized)
  unfolding record_payment_intent_transition record_status
  Charged-record s pi was_authorized h = rw h (Charged-settle_charge s pi _ _)

  -- What a capture that was carried out leaves behind.
  pub record Captured (pi params pi' : Object) (s' : Server) : Type 0 where
    pub was_held : get_string pi "status" ≡ "requires_capture"
    pub status_is : get_string pi' "status" ≡ "succeeded"
    pub capturable_is : at pi' "amount_capturable" ≡ int (pos 0)
    pub received_is : at pi' "amount_received" ≡ requested_amount pi params
    pub charged : Charged (pi', s')

  abbrev parts : Object → Server → Acted → Object × Server
  parts pi s (acted pi' s') = (pi', s')
  parts pi s (Acted.refused message) = (pi, s)

  capturable-apply_capture :
      (pi params : Object) → at (apply_capture pi params) "amount_capturable" ≡ int (pos 0)
  unfolding apply_capture
  capturable-apply_capture pi params = simp object_laws

  received-apply_capture :
      (pi params : Object)
      → at (apply_capture pi params) "amount_received" ≡ requested_amount pi params
  unfolding apply_capture
  received-apply_capture pi params =
      rw get-put (captured_amount-same _ pi (get params "amount_to_capture") (simp object_laws))

  -- A capture that is carried out leaves the held intent succeeded, with nothing left to capture and
  -- with the requested amount received, or the intent's amount where none is requested. The charge
  -- that the intent names is stored as paid and captured, for the amounts of the intent.
  pub act-Captured :
      (pi params : Object) (s : Server) {pi' : Object} {s' : Server}
      → act config capture session pi params s ≡ acted pi' s'
      → Captured pi params pi' s'
  unfolding act
  act-Captured pi params s h =
      let (held, h₁) = if-acted (get_string pi "status" != "requires_capture") _ _ h in
      let (fits, h₂) = if-acted (over_capture pi params) _ _ h₁ in
      let (was, is) = acted_capture config session pi params s h in
      let same = ap (parts pi s) h₂ in
      let kept = λ (k : String). λ (p : ("latest_charge" == k) ≡ false).
        get-record config session k p s (apply_capture pi params) false true in
      record {
        was_held = was;
        status_is = is;
        capturable_is =
            ap (λ r. at r.0 "amount_capturable") (sym same)
            ∙ ap or_nil (kept "amount_capturable" refl)
            ∙ capturable-apply_capture pi params;
        received_is =
            ap (λ r. at r.0 "amount_received") (sym same)
            ∙ ap or_nil (kept "amount_received" refl)
            ∙ received-apply_capture pi params;
        charged =
            subst Charged same
              (Charged-record s (apply_capture pi params) true (status-apply_capture pi params));
      }
