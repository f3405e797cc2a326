-- ===== src/Stateful/Notify.antt =====
-- The events that each action queues.
use Prim.Native.String.{String}
use mathlib.Core.List.{append-nil}
use stripe_mock_pi.Prelude.{
  ◌≡◌, refl, Bool, true, false, not, List, [], ◌++◌, ◌==◌, ◌!=◌, ◌||◌, ap, ◌∙◌, sym, subst,
}
use stripe_mock_pi.Json.{Value, obj, Object, at, get_string}
use stripe_mock_pi.Json.Copy.{deep_copy}
use stripe_mock_pi.Json.Laws.{object_laws}
use stripe_mock_pi.Server.{Server}
use stripe_mock_pi.Intent.{
  Action, update, confirm, capture, cancel, PmOutcome, succeed, requires_action, decline,
  confirm_has_payment_method, apply_confirm, apply_outcome, attach_payment_method, capture_method,
}
use stripe_mock_pi.Intent.Outcomes.{
  status-apply_outcome, status-apply_capture, status-apply_cancel, get_string-attach,
}
use stripe_mock_pi.Transition.{Config, is_nil, record_status, record_payment_intent_transition}
use stripe_mock_pi.Transition.Queue.{
  waiting, stored_charge, Queues, of_both, of_intent, Queues-succeeded, Queues-requires_capture,
  Queues-declined, Queues-requires_action, Queues-canceled,
}
use stripe_mock_pi.Stateful.{Acted, refused, acted, act, may_confirm, over_capture}
use stripe_mock_pi.Stateful.Lifecycle.{if-acted, outcome, manual}

-- The events of a confirm, by its outcome and by whether the capture is manual.
abbrev pub confirm_events : PmOutcome → (by_hand : Bool) → Value → Value → List (String × Value)
confirm_events requires_action by_hand = of_intent "payment_intent.requires_action"
confirm_events decline by_hand = of_both "charge.failed" "payment_intent.payment_failed"
confirm_events succeed true = of_both "charge.succeeded" "payment_intent.amount_capturable_updated"
confirm_events succeed false = of_both "charge.succeeded" "payment_intent.succeeded"

abbrev no_events : Value → Value → List (String × Value)
no_events charge intent = []

-- The events of an action, each as its type and the object that it carries, for a charge and an
-- intent.
abbrev pub action_events :
    Action → PmOutcome → (by_hand : Bool) → Value → Value → List (String × Value)
action_events confirm asked by_hand = confirm_events asked by_hand
action_events capture asked by_hand = of_both "charge.captured" "payment_intent.succeeded"
action_events cancel asked by_hand = of_intent "payment_intent.canceled"
action_events update asked by_hand = no_events

parts : Object → Server → Acted → Object × Server
parts pi s (refused message) = (pi, s)
parts pi s (acted pi' s') = (pi', s')

declined_error :
    (pi params : Object)
    → is_nil (at (apply_outcome decline pi params) "last_payment_error") ≡ false
unfolding apply_outcome
declined_error pi params = simp object_laws

module _ (config : Config) (session : String) where
  Queues-outcome :
      (asked : PmOutcome) (by_hand : Bool) (pi params : Object) (s : Server)
      → (capture_method pi params == "manual") ≡ by_hand
      → Queues session s
          (confirm_events asked by_hand)
          (record_status config session s (apply_outcome asked pi params) false)
  Queues-outcome requires_action by_hand pi params s e =
      Queues-requires_action config session s _ false
        (status-apply_outcome requires_action pi params)
  Queues-outcome decline by_hand pi params s e =
      Queues-declined config session s _ false (status-apply_outcome decline pi params)
        (declined_error pi params)
  Queues-outcome succeed true pi params s e =
      Queues-requires_capture config session s _ false
        (status-apply_outcome succeed pi params ∙ rw e)
  Queues-outcome succeed false pi params s e =
      Queues-succeeded config session s _ false (status-apply_outcome succeed pi params ∙ rw e)

  module _ (pi params : Object) (s : Server) where
    manual-attach :
        (capture_method (attach_payment_method pi params s.entropy).0 params == "manual")
        ≡ manual pi params s
    manual-attach = rw (get_string-attach pi params s.entropy "capture_method" refl)

    -- What an action queues, by what it did.
    abbrev QueuesFor : Action → Object × Server → Type 0
    QueuesFor action =
        Queues session s (action_events action (outcome pi params s) (manual pi params s))

    Queues-confirm :
        {pi' : Object} {s' : Server}
        → act config confirm session pi params s ≡ acted pi' s'
        → QueuesFor confirm (pi', s')
    unfolding act record_payment_intent_transition apply_confirm parts
    Queues-confirm h =
        let (may, h₁) = if-acted (not (may_confirm (get_string pi "status"))) _ _ h in
        let (has, h₂) = if-acted (not (confirm_has_payment_method pi params)) _ _ h₁ in
        subst (QueuesFor confirm) (ap (parts pi s) h₂) (
          Queues-outcome (outcome pi params s) (manual pi params s)
            (attach_payment_method pi params s.entropy).0 params _ manual-attach)

    Queues-capture :
        {pi' : Object} {s' : Server}
        → act config capture session pi params s ≡ acted pi' s'
        → QueuesFor capture (pi', s')
    unfolding act record_payment_intent_transition parts
    Queues-capture h =
        let (held, h₁) = if-acted (get_string pi "status" != "requires_capture") _ _ h in
        let (fits, h₂) = if-acted (over_capture pi params) _ _ h₁ in
        subst (QueuesFor capture) (ap (parts pi s) h₂)
          (Queues-succeeded config session s _ true (status-apply_capture pi params))

    Queues-cancel :
        {pi' : Object} {s' : Server}
        → act config cancel session pi params s ≡ acted pi' s'
        → QueuesFor cancel (pi', s')
    unfolding act record_payment_intent_transition parts
    Queues-cancel h =
        let (unfinished, h₁) =
          if-acted (get_string pi "status" == "succeeded" || get_string pi "status" == "canceled") _
            _ h in
        subst (QueuesFor cancel) (ap (parts pi s) h₁)
          (Queues-canceled config session s _ false (status-apply_cancel pi params))

    Queues-update :
        {pi' : Object} {s' : Server}
        → act config update session pi params s ≡ acted pi' s'
        → QueuesFor update (pi', s')
    unfolding act parts
    Queues-update h = subst (QueuesFor update) (ap (parts pi s) h) (sym (append-nil _))

-- An action that is carried out queues exactly its own events behind those that wait: a capture
-- one that carries the captured charge and one that carries the intent, a cancel one with the
-- intent, an update none, and a confirm those of the outcome that the payment method asks for. The
-- charge is the one that is stored from then on under the id that the intent names, and the intent
-- is a copy of the one that the action answers.
pub waiting-act :
    (config : Config) (session : String) (pi params : Object) (s : Server) (action : Action)
    (pi' : Object) (s' : Server)
    → act config action session pi params s ≡ acted pi' s'
    → waiting session s'
      ≡ waiting session s
        ++ action_events action
            (outcome pi params s)
            (manual pi params s)
            (stored_charge session pi' s')
            (obj (deep_copy pi'))
waiting-act config session pi params s confirm pi' s' h =
    Queues-confirm config session pi params s h
waiting-act config session pi params s capture pi' s' h =
    Queues-capture config session pi params s h
waiting-act config session pi params s cancel pi' s' h = Queues-cancel config session pi params s h
waiting-act config session pi params s update pi' s' h = Queues-update config session pi params s h
