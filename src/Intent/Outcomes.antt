-- ===== src/Intent/Outcomes.antt =====
-- The status and the amounts that each operation leaves on a PaymentIntent.
use Prim.Native.String.{String}
use stripe_mock_pi.Prelude.{
  ◌≡◌, refl, Bool, true, false, Option, none, some, arith, ◌==◌, ◌!=◌, if◌then◌else◌, eq_iff,
  Bool-cases, inl, inr, List, [], ◌∷◌, ◌||◌, ◌&&◌, is_some, ap, ◌∙◌,
}
use stripe_mock_pi.Json.{Value, nil, Object, get, put, get_string, string_of, or_nil}
use stripe_mock_pi.Json.Laws.{get-put, get_string-put, object_laws}
use stripe_mock_pi.Ids.{Entropy}
use stripe_mock_pi.Intent.{
  PmOutcome, succeed, requires_action, decline, outcome_for_payment_method, attach_payment_method,
  settle_payment_intent, apply_outcome, apply_confirm, apply_capture, apply_cancel, capture_method,
  copy_param, copy_params, copy_payment_intent_params, payment_intent_param_keys,
}

-- The status behind a confirm, by the outcome and whether the capture is manual.
abbrev pub confirmed_status : PmOutcome → (manual : Bool) → String
confirmed_status requires_action manual = "requires_action"
confirmed_status decline manual = "requires_payment_method"
confirmed_status succeed true = "requires_capture"
confirmed_status succeed false = "succeeded"

-- Settling goes by the capture method that the intent had.
cleared_lem :
    (pi params : Object)
    → capture_method (put (put pi "next_action" nil) "last_payment_error" nil) params
      ≡ capture_method pi params
cleared_lem pi params = simp object_laws

status-settle :
    (pi params : Object)
    → get_string (settle_payment_intent pi params) "status"
      ≡ confirmed_status succeed (capture_method pi params == "manual")
unfolding settle_payment_intent
status-settle pi params =
    rw (cleared_lem pi params) (elim (Bool-cases (capture_method pi params == "manual")) [
      | inl manual ↦ rw manual (simp object_laws)
      | inr automatic ↦ rw automatic (simp object_laws)
    ])

pub status-apply_outcome :
    (outcome : PmOutcome) (pi params : Object)
    → get_string (apply_outcome outcome pi params) "status"
      ≡ confirmed_status outcome (capture_method pi params == "manual")
unfolding apply_outcome
status-apply_outcome requires_action pi params = simp object_laws
status-apply_outcome decline pi params = simp object_laws
status-apply_outcome succeed pi params = status-settle pi params

-- Attaching a payment method writes to no other field.
pub get-attach :
    (pi params : Object) (e : Entropy) (k : String)
    → ("payment_method" == k) ≡ false
    → get (attach_payment_method pi params e).0 k ≡ get pi k
unfolding attach_payment_method
get-attach pi params e k h = elim (Bool-cases (get_string params "payment_method" != "")) [
  | inl given ↦ rw given (rw get-put (rw h))
  | inr none_given ↦
      rw none_given
        (elim (Bool-cases
          (is_some (get params "payment_method_data") && get_string pi "payment_method" == "")) [
            | inl inline ↦ rw inline (rw get-put (rw h))
            | inr absent ↦ rw absent
          ])
]

pub get_string-attach :
    (pi params : Object) (e : Entropy) (k : String)
    → ("payment_method" == k) ≡ false
    → get_string (attach_payment_method pi params e).0 k ≡ get_string pi k
unfolding get_string
get_string-attach pi params e k h = ap (λ o. string_of (or_nil o)) (get-attach pi params e k h)

abbrev pub contains : List String → String → Bool
contains [] k = false
contains (key ∷ keys) k = key == k || contains keys k

abbrev pub first_of : Option Value → Option Value → Option Value
first_of none old = old
first_of (some new) old = some new

get-copy_param :
    (pi : Object) (key k : String) (o : Option Value)
    → get (copy_param pi key o) k ≡ (if key == k then first_of o (get pi k) else get pi k)
get-copy_param pi key k none = ground arith
get-copy_param pi key k (some v) = get-put pi key k v

get-copy_params :
    (keys : List String) (pi params : Object) (k : String)
    → get (copy_params keys pi params) k
      ≡ (if contains keys k then first_of (get params k) (get pi k) else get pi k)
unfolding copy_params
get-copy_params [] pi params k = refl
get-copy_params (key ∷ keys) pi params k =
    rw (get-copy_params keys) (rw get-copy_param (ground (arith, eq_iff key k)))

-- Of the request's parameters exactly the listed ones reach the intent, and those that the request
-- leaves out keep the intent's value. No other field changes: neither the status nor what the state
-- machine owns.
pub get-copy_payment_intent_params :
    (pi params : Object) (k : String)
    → get (copy_payment_intent_params pi params) k ≡ (
        if contains payment_intent_param_keys k
        then first_of (get params k) (get pi k)
        else get pi k)
unfolding copy_payment_intent_params
get-copy_payment_intent_params pi params k = get-copy_params payment_intent_param_keys pi params k

-- The status behind a confirm goes by the payment method that the intent has then, and by the
-- capture method of the request, or of the intent where the request names none.
pub status-apply_confirm :
    (pi params : Object) (e : Entropy)
    → get_string (apply_confirm pi params e).0 "status"
      ≡ confirmed_status
          (outcome_for_payment_method
            (get_string (attach_payment_method pi params e).0 "payment_method"))
          (capture_method pi params == "manual")
unfolding apply_confirm
status-apply_confirm pi params e =
    status-apply_outcome _ (attach_payment_method pi params e).0 params
    ∙ rw (get_string-attach pi params e "capture_method" refl)

pub status-apply_capture :
    (pi params : Object) → get_string (apply_capture pi params) "status" ≡ "succeeded"
unfolding apply_capture
status-apply_capture pi params = simp object_laws

pub status-apply_cancel :
    (pi params : Object) → get_string (apply_cancel pi params) "status" ≡ "canceled"
unfolding apply_cancel
status-apply_cancel pi params = elim (Bool-cases (get_string params "cancellation_reason" != "")) [
  | inl given ↦ rw given (simp object_laws)
  | inr none_given ↦ rw none_given (simp object_laws)
]

pub get_string-copy_payment_intent_params :
    (pi params : Object) (k : String)
    → contains payment_intent_param_keys k ≡ false
    → get_string (copy_payment_intent_params pi params) k ≡ get_string pi k
unfolding get_string
get_string-copy_payment_intent_params pi params k h =
    ap (λ o. string_of (or_nil o)) {y = get pi k}
      (get-copy_payment_intent_params pi params k ∙ rw h)

-- A confirm writes to no field but these five and the payment method.
module _ (k : String) (not_status : ("status" == k) ≡ false)
    (not_action : ("next_action" == k) ≡ false) (not_error : ("last_payment_error" == k) ≡ false)
    (not_capturable : ("amount_capturable" == k) ≡ false)
    (not_received : ("amount_received" == k) ≡ false) where
  get_string-settle :
      (pi params : Object) → get_string (settle_payment_intent pi params) k ≡ get_string pi k
  unfolding settle_payment_intent
  get_string-settle pi params =
      rw (cleared_lem pi params) (elim (Bool-cases (capture_method pi params == "manual")) [
        | inl manual ↦ rw manual (
            rw get_string-put (
              rw not_capturable (
                rw get_string-put (
                  rw not_status
                    (rw get_string-put (rw not_error (rw get_string-put (rw not_action))))))))
        | inr automatic ↦ rw automatic (
            rw get_string-put (
              rw not_received (
                rw get_string-put (
                  rw not_status
                    (rw get_string-put (rw not_error (rw get_string-put (rw not_action))))))))
      ])

  pub get_string-apply_outcome :
      (outcome : PmOutcome) (pi params : Object)
      → get_string (apply_outcome outcome pi params) k ≡ get_string pi k
  unfolding apply_outcome
  get_string-apply_outcome requires_action pi params =
      rw get_string-put
        (rw not_action (rw get_string-put (rw not_error (rw get_string-put (rw not_status)))))
  get_string-apply_outcome decline pi params =
      rw get_string-put
        (rw not_error (rw get_string-put (rw not_action (rw get_string-put (rw not_status)))))
  get_string-apply_outcome succeed pi params = get_string-settle pi params
