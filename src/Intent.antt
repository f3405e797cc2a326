-- ===== src/Intent.antt =====
-- The operations on a PaymentIntent object (server/paymentintents.go): what a confirm, a capture, a
-- cancel and an update write to it. A map that Go mutates in place is returned here.
pub mod Outcomes
use Prim.Native.String.{String}
use stripe_mock_pi.Prelude.{
  ℕ, Bool, true, false, ◌&&◌, ◌||◌, List, [], ◌∷◌, Option, none, some, ◌==◌, ◌!=◌, is_some,
  if◌then◌else◌,
}
use stripe_mock_pi.Prelude.Int.{ℤ, pos}
use stripe_mock_pi.Text.{has_suffix, ◌<>◌}
use stripe_mock_pi.Float
use stripe_mock_pi.Json.{
  Value, nil, int, float64, str, obj, Object, end, get, at, put, get_string, bool_param,
}
use stripe_mock_pi.Ids.{Entropy, random_id}
use stripe_mock_pi.Server.{object}

-- pmOutcome
pub data PmOutcome : Type 0 where
  succeed requires_action decline : PmOutcome

-- magicPaymentMethods
abbrev pub magic_payment_methods : List (String × PmOutcome)
magic_payment_methods =
    ("pm_card_visa", succeed)
    ∷ ("pm_card_mastercard", succeed)
    ∷ ("pm_card_authenticationRequired", requires_action)
    ∷ ("pm_card_authenticationRequiredOnSetup", requires_action)
    ∷ ("pm_card_chargeDeclined", decline)
    ∷ ("pm_card_chargeDeclinedInsufficientFunds", decline)
    ∷ ("pm_card_chargeDeclinedLostCard", decline)
    ∷ ("pm_card_chargeDeclinedExpiredCard", decline)
    ∷ ("pm_card_visa_chargeDeclined", decline)
    ∷ []

abbrev find_outcome : List (String × PmOutcome) → String → PmOutcome
find_outcome [] pm = succeed
find_outcome ((known, outcome) ∷ rest) pm = if known == pm then outcome else find_outcome rest pm

unfoldable pub outcome_for_payment_method : String → PmOutcome
outcome_for_payment_method pm = find_outcome magic_payment_methods pm

-- confirmHasPaymentMethod; a nil intent reads like an empty one.
unfoldable pub confirm_has_payment_method : (pi params : Object) → Bool
confirm_has_payment_method pi params =
    if get_string params "payment_method" != "" || get_string pi "payment_method" != ""
    then true
    else is_some (get params "payment_method_data")

-- numberValue, as a `float64`.
unfoldable pub number_value : Value → Option ℕ
number_value (float64 b) = some b
number_value (int n) = some (Float.of_int n)
number_value _ = none

unfoldable pub attach_payment_method : (pi params : Object) → Entropy → Object × Entropy
attach_payment_method pi params e =
    if get_string params "payment_method" != ""
    then (put pi "payment_method" (str (get_string params "payment_method")), e)
    else if is_some (get params "payment_method_data") && get_string pi "payment_method" == ""
    then (let (id, e') = random_id "pm" e in (put pi "payment_method" (str id), e'))
    else (pi, e)

abbrev pub set_status : Object → String → Object
set_status pi status = put pi "status" (str status)

abbrev pub decline_error : Object
decline_error = object (
    ("type", str "card_error")
    ∷ ("code", str "card_declined")
    ∷ ("decline_code", str "generic_decline")
    ∷ ("message", str "Your card was declined.")
    ∷ [])

-- The request's capture method, and the intent's own without one.
abbrev pub capture_method : (pi params : Object) → String
capture_method pi params =
    if get_string params "capture_method" != ""
    then get_string params "capture_method"
    else get_string pi "capture_method"

unfoldable pub settle_payment_intent : (pi params : Object) → Object
settle_payment_intent pi params =
    let cleared = put (put pi "next_action" nil) "last_payment_error" nil in
    if capture_method cleared params == "manual"
    then (let held = set_status cleared "requires_capture" in
        put held "amount_capturable" (at held "amount"))
    else (let settled = set_status cleared "succeeded" in
        put settled "amount_received" (at settled "amount"))

abbrev pub use_stripe_sdk : Value
use_stripe_sdk = obj (object (("type", str "use_stripe_sdk") ∷ []))

-- The switch of applyConfirm, behind attachPaymentMethod.
unfoldable pub apply_outcome : PmOutcome → (pi params : Object) → Object
apply_outcome requires_action pi params =
    put (put (set_status pi "requires_action") "last_payment_error" nil) "next_action"
      use_stripe_sdk
apply_outcome decline pi params =
    put (put (set_status pi "requires_payment_method") "next_action" nil) "last_payment_error"
      (obj decline_error)
apply_outcome succeed pi params = settle_payment_intent pi params

unfoldable pub apply_confirm : (pi params : Object) → Entropy → Object × Entropy
apply_confirm pi params e =
    let (attached, e') = attach_payment_method pi params e in
    let outcome = outcome_for_payment_method (get_string attached "payment_method") in
    (apply_outcome outcome attached params, e')

abbrev pub captured_amount : (pi : Object) → Option Value → Value
captured_amount pi none = at pi "amount"
captured_amount pi (some amount) = amount

unfoldable pub apply_capture : (pi params : Object) → Object
apply_capture pi params =
    let settled =
      put (put (set_status pi "succeeded") "next_action" nil) "amount_capturable" (int (pos 0)) in
    put settled "amount_received" (captured_amount settled (get params "amount_to_capture"))

unfoldable pub apply_cancel : (pi params : Object) → Object
apply_cancel pi params =
    let canceled =
      put (put (set_status pi "canceled") "next_action" nil) "amount_capturable" (int (pos 0)) in
    if get_string params "cancellation_reason" != ""
    then put canceled "cancellation_reason" (str (get_string params "cancellation_reason"))
    else canceled

abbrev pub payment_intent_param_keys : List String
payment_intent_param_keys =
    "amount" ∷ "application_fee_amount" ∷ "capture_method" ∷ "confirmation_method" ∷ "currency"
    ∷ "customer" ∷ "description" ∷ "metadata" ∷ "on_behalf_of" ∷ "payment_method"
    ∷ "payment_method_types" ∷ "receipt_email" ∷ "setup_future_usage" ∷ "statement_descriptor"
    ∷ "transfer_group" ∷ []

abbrev copy_param : Object → String → Option Value → Object
copy_param pi key none = pi
copy_param pi key (some value) = put pi key value

-- The loop of copyPaymentIntentParams over the keys that are left.
unfoldable pub copy_params : List String → (pi params : Object) → Object
copy_params [] pi params = pi
copy_params (key ∷ keys) pi params = copy_params keys (copy_param pi key (get params key)) params

unfoldable pub copy_payment_intent_params : (pi params : Object) → Object
copy_payment_intent_params pi params = copy_params payment_intent_param_keys pi params

unfoldable pub reset_payment_intent_lifecycle_fields : Object → Object
reset_payment_intent_lifecycle_fields pi =
    put
      (put (put (put (put pi "next_action" nil) "last_payment_error" nil) "latest_charge" nil)
        "amount_received" (int (pos 0)))
      "amount_capturable" (int (pos 0))

-- What a POST to a PaymentIntent's path asks for.
pub data Action : Type 0 where
  update confirm capture cancel : Action

-- paymentIntentActionForRequest; none for an action endpoint that is not simulated.
unfoldable pub payment_intent_action_for_request : (path id : String) → Option Action
payment_intent_action_for_request path id =
    if has_suffix path ("/" <> id)
    then some update
    else if has_suffix path "/confirm"
    then some confirm
    else if has_suffix path "/capture"
    then some capture
    else if has_suffix path "/cancel"
    then some cancel
    else none

-- Attaching a payment method makes the intent confirmable.
abbrev pub becomes_confirmable : Object → Bool
becomes_confirmable pi =
    get_string pi "status" == "requires_payment_method" && get_string pi "payment_method" != ""

-- The default case of the switch on the action: a plain update.
unfoldable pub apply_update : (pi params : Object) → Entropy → Object × Entropy
apply_update pi params e =
    let (attached, e') = attach_payment_method (copy_payment_intent_params pi params) params e in
    (
      if becomes_confirmable attached
          then set_status attached "requires_confirmation"
          else attached,
      e',
    )
