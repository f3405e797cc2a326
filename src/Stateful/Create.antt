-- ===== src/Stateful/Create.antt =====
-- The id and the status of a created PaymentIntent (createPaymentIntent, server/paymentintents.go).
use Prim.Native.String.{String}
use stripe_mock_pi.Prelude.{
  ◌≡◌, refl, true, false, some, ◌==◌, ◌!=◌, if◌then◌else◌, ◌∙◌, subst, Bool-cases, inl, inr,
}
use stripe_mock_pi.Text.{◌<>◌}
use stripe_mock_pi.Json.{str, Object, get_string, put, bool_param}
use stripe_mock_pi.Json.Laws.{get_string-put}
use stripe_mock_pi.Json.Copy.{deep_copy}
use stripe_mock_pi.Store.{get_payment_intent}
use stripe_mock_pi.Store.Resources.{get-put_payment_intent_self}
use stripe_mock_pi.Ids.{Entropy, random_id_random_part}
use stripe_mock_pi.Server.{Server}
use stripe_mock_pi.Intent.{
  attach_payment_method, capture_method, outcome_for_payment_method, apply_confirm,
  copy_payment_intent_params, reset_payment_intent_lifecycle_fields,
}
use stripe_mock_pi.Intent.Outcomes.{
  confirmed_status, status-apply_confirm, get_string-attach, get_string-apply_outcome,
}
use stripe_mock_pi.Transition.{Config, record_payment_intent_transition}
use stripe_mock_pi.Transition.Fields.{get_string-record}
use stripe_mock_pi.Stateful.{create_from, prepare, with_id, start_payment_intent}

-- The status that goes with an intent and its creation's parameters.
abbrev pub initial_status : (pi params : Object) → String
initial_status pi params =
    if bool_param params "confirm"
    then confirmed_status (outcome_for_payment_method (get_string pi "payment_method"))
        (capture_method pi params == "manual")
    else if get_string pi "payment_method" != ""
    then "requires_confirmation"
    else "requires_payment_method"

record Starts (id : String) (pi params : Object) : Type 0 where
  id_is : get_string pi "id" ≡ id
  status_is : get_string pi "status" ≡ initial_status pi params

module _ (pi params : Object) (e : Entropy) where
  confirmed : Object
  confirmed = (apply_confirm pi params e).0

  kept_by_confirm :
      (k : String)
      → ("status" == k) ≡ false
      → ("next_action" == k) ≡ false
      → ("last_payment_error" == k) ≡ false
      → ("amount_capturable" == k) ≡ false
      → ("amount_received" == k) ≡ false
      → get_string confirmed k ≡ get_string (attach_payment_method pi params e).0 k
  unfolding confirmed apply_confirm
  kept_by_confirm k a b c d f = get_string-apply_outcome k a b c d f _ _ _

  Starts-confirmed :
      bool_param params "confirm" ≡ true → Starts (get_string pi "id") confirmed params
  unfolding confirmed
  Starts-confirmed h = record {
    id_is = kept_by_confirm "id" refl refl refl refl refl ∙ get_string-attach pi params e "id" refl;
    status_is = rw h (
        rw (kept_by_confirm "payment_method" refl refl refl refl refl) (
          rw (kept_by_confirm "capture_method" refl refl refl refl refl) (
            rw (get_string-attach pi params e "capture_method" refl)
              (status-apply_confirm pi params e))));
  }

module _ (config : Config) where
  Starts-start :
      (pi params : Object) (s : Server)
      → Starts (get_string pi "id") (start_payment_intent config pi params s).0 params
  unfolding start_payment_intent confirmed
  Starts-start pi params s = elim (Bool-cases (bool_param params "confirm")) [
    | inl confirms ↦ rw confirms (Starts-confirmed pi params s.entropy confirms)
    | inr waits ↦ rw waits (elim (Bool-cases (get_string pi "payment_method" != "")) [
      | inl has ↦ rw has record {
        id_is = rw get_string-put;
        status_is = rw waits (rw get_string-put (rw get_string-put (rw has)));
      }
      | inr lacks ↦ rw lacks record {
        id_is = rw get_string-put;
        status_is = rw waits (rw get_string-put (rw get_string-put (rw lacks)));
      }
    ])
  ]

  with_id-id :
      (pi : Object) (s : Server) → get_string (with_id config pi s).0 "id" ≡ (with_id config pi s).1
  unfolding with_id
  with_id-id pi s = elim (Bool-cases (get_string pi "id" == "")) [
    | inl missing ↦ rw missing (rw get_string-put)
    | inr own ↦ rw own
  ]

  Starts-prepare :
      (base params : Object) (s : Server)
      → Starts (prepare config base params s).1 (prepare config base params s).0 params
  unfolding prepare
  Starts-prepare base params s =
      let copied = copy_payment_intent_params (reset_payment_intent_lifecycle_fields base) params in
      let (named, id, s₁) = with_id config copied s in
      let (secret, e₂) = random_id_random_part s₁.entropy in
      let keyed = put named "client_secret" (str (id <> ("_secret_" <> secret))) in
      let (attached, e₃) = attach_payment_method keyed params e₂ in
      subst
        (λ i.
          Starts i (start_payment_intent config attached params (record s₁ { entropy = e₃ })).0
            params)
        (get_string-attach keyed params e₂ "id" refl
          ∙ get_string-put named "client_secret" "id" _
          ∙ with_id-id copied s)
        (Starts-start attached params (record s₁ { entropy = e₃ }))

  Starts-record :
      (session id : String) (pi params : Object) (s : Server)
      → Starts id pi params
      → Starts id (record_payment_intent_transition config session s pi true false).0 params
  Starts-record session id pi params s h =
      let kept = λ (k : String). λ (p : ("latest_charge" == k) ≡ false).
        get_string-record config session k p s pi true false in
      record {
        id_is = kept "id" refl ∙ h.id_is;
        status_is =
            rw (kept "payment_method" refl)
              (rw (kept "capture_method" refl) (kept "status" refl ∙ h.status_is));
      }

  -- A created intent is stored under its own id, where it is read back as its deep copy, and its
  -- status goes by its payment method: the outcome of a confirm where the request asks for one,
  -- and else whether there is a payment method to confirm.
  pub create_from-Created :
      (session : String) (base params : Object) (s : Server)
      → (get_payment_intent
            (create_from config session base params s).1.store
            session
            (get_string (create_from config session base params s).0 "id")
          ≡ some (deep_copy (create_from config session base params s).0))
        × (get_string (create_from config session base params s).0 "status"
            ≡ initial_status (create_from config session base params s).0 params)
  unfolding create_from
  create_from-Created session base params s =
      let (started, id, s₄) = prepare config base params s in
      let (pi, s₅) = record_payment_intent_transition config session s₄ started true false in
      let starts = Starts-record session id started params s₄ (Starts-prepare base params s) in
      (rw starts.id_is (get-put_payment_intent_self s₅.store session id pi), starts.status_is)
