-- ===== src/Stateful/Actions.antt =====
-- The switch of maybeHandleStatefulRequest on the action (server/paymentintents.go).
use Prim.Native.String.{String}
use stripe_mock_pi.Prelude.{
  ℕ, Bool, true, false, not, ◌||◌, Option, some, ◌==◌, ◌!=◌, if◌then◌else◌,
}
use stripe_mock_pi.Text.{◌<>◌}
use stripe_mock_pi.Float
use stripe_mock_pi.Json.{Object, at, get_string}
use stripe_mock_pi.Server.{Server}
use stripe_mock_pi.Intent.{
  Action, update, confirm, capture, cancel, confirm_has_payment_method, number_value, apply_confirm,
  apply_capture, apply_cancel, apply_update,
}
use stripe_mock_pi.Transition.{Config, record_payment_intent_transition}

abbrev pub missing_payment_method : String
missing_payment_method =
    "You cannot confirm this PaymentIntent because it's missing a payment method."

abbrev pub confirm_refused : String → String
confirm_refused status =
    "This PaymentIntent could not be confirmed because it has a status of "
    <> (status
        <> ". Only a PaymentIntent with one of the following statuses may be confirmed: requires_confirmation, requires_action, requires_payment_method.")

abbrev pub capture_refused : String → String
capture_refused status =
    "This PaymentIntent could not be captured because it has a status of "
    <> (status
        <> ". Only a PaymentIntent with one of the following statuses may be captured: requires_capture.")

abbrev pub capture_too_large : String
capture_too_large =
    "amount_to_capture must be less than or equal to the amount_capturable on the PaymentIntent."

abbrev pub cancel_refused : String → String
cancel_refused status =
    "You cannot cancel this PaymentIntent because it has a status of " <> (status <> ".")

abbrev pub may_confirm : String → Bool
may_confirm status =
    status == "requires_confirmation"
    || (status == "requires_action" || status == "requires_payment_method")

abbrev exceeds : Option ℕ → Option ℕ → Bool
exceeds (some amount) (some capturable) = Float.gt amount capturable
exceeds _ _ = false

-- Whether the amount to capture is larger than what is held; only two numbers are compared.
unfoldable pub over_capture : (pi params : Object) → Bool
over_capture pi params =
    exceeds (number_value (at params "amount_to_capture"))
      (number_value (at pi "amount_capturable"))

-- What an action does to the intent, or the message with which it is refused.
pub data Acted : Type 0 where
  refused : (message : String) → Acted
  acted : (pi : Object) → Server → Acted

module _ (config : Config) where
  abbrev recorded : Object × Server → Acted
  recorded (pi, s) = acted pi s

  -- The switch on the action.
  unfoldable pub act : Action → (session : String) → (pi params : Object) → Server → Acted
  act confirm session pi params s =
      if not (may_confirm (get_string pi "status"))
      then refused (confirm_refused (get_string pi "status"))
      else if not (confirm_has_payment_method pi params)
      then refused missing_payment_method
      else (let (confirmed, e) = apply_confirm pi params s.entropy in
          recorded (
            record_payment_intent_transition config session (record s { entropy = e }) confirmed
              false false))
  act capture session pi params s =
      if get_string pi "status" != "requires_capture"
      then refused (capture_refused (get_string pi "status"))
      else if over_capture pi params
      then refused capture_too_large
      else recorded
          (record_payment_intent_transition config session s (apply_capture pi params) false true)
  act cancel session pi params s =
      if get_string pi "status" == "succeeded" || get_string pi "status" == "canceled"
      then refused (cancel_refused (get_string pi "status"))
      else recorded
          (record_payment_intent_transition config session s (apply_cancel pi params) false false)
  act update session pi params s =
      let (updated, e) = apply_update pi params s.entropy in
      acted updated (record s { entropy = e })
