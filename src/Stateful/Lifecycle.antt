-- ===== src/Stateful/Lifecycle.antt =====
-- The PaymentIntent state machine as a relation between statuses, and the actions that follow it.
use Prim.Native.String.{String}
use stripe_mock_pi.Prelude.{
  ◌≡◌, refl, ◌≢◌, Bool, true, false, not, arith, ◌==◌, ◌!=◌, ◌||◌, if◌then◌else◌, Bool-cases, inl,
  inr, ap, ◌∙◌, sym, eq_iff, subst,
}
use stripe_mock_pi.Json.{Object, get_string}
use stripe_mock_pi.Json.Laws.{get_string-put}
use stripe_mock_pi.Server.{Server}
use stripe_mock_pi.Intent.{
  Action, update, confirm, capture, cancel, PmOutcome, confirm_has_payment_method, apply_update,
  attach_payment_method, capture_method, outcome_for_payment_method, copy_payment_intent_params,
  becomes_confirmable,
}
use stripe_mock_pi.Intent.Outcomes.{
  confirmed_status, status-apply_confirm, status-apply_capture, status-apply_cancel,
  get_string-attach, get_string-copy_payment_intent_params,
}
use stripe_mock_pi.Transition.{Config}
use stripe_mock_pi.Transition.Fields.{get_string-record}
use stripe_mock_pi.Stateful.{Acted, refused, acted, act, may_confirm, over_capture}

module _ (pi params : Object) (s : Server) where
  -- The outcome that the payment method of the intent asks for.
  abbrev pub outcome : PmOutcome
  outcome =
      outcome_for_payment_method
        (get_string (attach_payment_method pi params s.entropy).0 "payment_method")

  abbrev pub manual : Bool
  manual = capture_method pi params == "manual"

-- What an action may do to a status, for the outcome that the payment method asks for and for
-- whether the capture is manual.
pub data Step (outcome : PmOutcome) (manual : Bool) (from to : String) : Action → Type 0 where
  confirming :
      may_confirm from ≡ true
      → to ≡ confirmed_status outcome manual
      → Step outcome manual from to confirm
  capturing : from ≡ "requires_capture" → to ≡ "succeeded" → Step outcome manual from to capture
  canceling :
      from ≢ "succeeded" → from ≢ "canceled" → to ≡ "canceled" → Step outcome manual from to cancel
  attaching :
      from ≡ "requires_payment_method"
      → to ≡ "requires_confirmation"
      → Step outcome manual from to update
  keeping : to ≡ from → Step outcome manual from to update

abbrev pub intent_of : Object → Acted → Object
intent_of default (refused message) = default
intent_of default (acted pi s) = pi

-- The guard of an action that was carried out.
pub if-acted :
    (b : Bool) (message : String) (rest : Acted) {pi : Object} {s : Server}
    → (if b then refused message else rest) ≡ acted pi s
    → (b ≡ false) × (rest ≡ acted pi s)
if-acted true _ _ h = cc
if-acted false _ _ h = (refl, h)

module _ (config : Config) (session : String) (pi params : Object) (s : Server) where
  abbrev status : String
  status = get_string pi "status"

  pub acted_confirm :
      {pi' : Object} {s' : Server}
      → act config confirm session pi params s ≡ acted pi' s'
      → (may_confirm status ≡ true)
        × (get_string pi' "status" ≡ confirmed_status (outcome pi params s) (manual pi params s))
  unfolding act
  acted_confirm h =
      let (may, h₁) = if-acted (not (may_confirm status)) _ _ h in
      let (has, h₂) = if-acted (not (confirm_has_payment_method pi params)) _ _ h₁ in
      (
        ground arith,
        ap (λ a. get_string (intent_of pi a) "status") (sym h₂)
            ∙ get_string-record config session "status" refl _ _ false false
            ∙ status-apply_confirm pi params s.entropy,
      )

  pub acted_capture :
      {pi' : Object} {s' : Server}
      → act config capture session pi params s ≡ acted pi' s'
      → (status ≡ "requires_capture") × (get_string pi' "status" ≡ "succeeded")
  unfolding act
  acted_capture h =
      let (held, h₁) = if-acted (status != "requires_capture") _ _ h in
      let (fits, h₂) = if-acted (over_capture pi params) _ _ h₁ in
      (
        ground (arith, eq_iff status "requires_capture"),
        ap (λ a. get_string (intent_of pi a) "status") (sym h₂)
            ∙ get_string-record config session "status" refl s _ false true
            ∙ status-apply_capture pi params,
      )

  pub acted_cancel :
      {pi' : Object} {s' : Server}
      → act config cancel session pi params s ≡ acted pi' s'
      → (status ≢ "succeeded") × (status ≢ "canceled") × (get_string pi' "status" ≡ "canceled")
  unfolding act
  acted_cancel h =
      let (open_still, h₁) = if-acted (status == "succeeded" || status == "canceled") _ _ h in
      (
        ground (arith, eq_iff status "succeeded"),
        ground (arith, eq_iff status "canceled"),
        ap (λ a. get_string (intent_of pi a) "status") (sym h₁)
            ∙ get_string-record config session "status" refl s _ false false
            ∙ status-apply_cancel pi params,
      )

  -- What an update attaches to, with the request's parameters copied.
  abbrev updated : Object
  updated = (attach_payment_method (copy_payment_intent_params pi params) params s.entropy).0

  status-updated : get_string updated "status" ≡ status
  status-updated =
      get_string-attach (copy_payment_intent_params pi params) params s.entropy "status" refl
      ∙ get_string-copy_payment_intent_params pi params "status" refl

  -- An update leaves the status, or makes an intent that waits for a payment method confirmable.
  apply_update-Step :
      Step
        (outcome pi params s)
        (manual pi params s)
        status
        (get_string (apply_update pi params s.entropy).0 "status")
        update
  unfolding apply_update
  apply_update-Step = elim (Bool-cases (becomes_confirmable updated)) [
    | inl ready ↦ rw ready (
        attaching
          (ground
            (arith, status-updated, eq_iff (get_string updated "status") "requires_payment_method"))
          (rw get_string-put))
    | inr waits ↦ rw waits (keeping status-updated)
  ]

  -- Every action that is carried out moves the intent's status along the state machine: a confirm
  -- from a confirmable status to the one of the outcome that the intent's payment method asks for and
  -- of its capture method, a capture from `requires_capture` to
  -- `succeeded`, a cancel from an unfinished status to `canceled`, and an update nowhere or from
  -- `requires_payment_method` to `requires_confirmation`.
  pub act-Step :
      (action : Action) {pi' : Object} {s' : Server}
      → act config action session pi params s ≡ acted pi' s'
      → Step (outcome pi params s) (manual pi params s) status (get_string pi' "status") action
  unfolding act
  act-Step confirm h = let (may, to) = acted_confirm h in confirming may to
  act-Step capture h = let (from, to) = acted_capture h in capturing from to
  act-Step cancel h = let (a, b, to) = acted_cancel h in canceling a b to
  act-Step update h =
      subst
        (λ a.
          Step (outcome pi params s) (manual pi params s) status
            (get_string (intent_of pi a) "status") update)
        h apply_update-Step
