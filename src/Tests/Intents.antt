-- ===== src/Tests/Intents.antt =====
-- The theorems on PaymentIntents, on stored intents.
use stripe_mock_pi.Prelude.{
  ◌≡◌, refl, Bool, true, false, List, [], ◌∷◌, ◌++◌, some, none, inl, inr, ◌==◌, ◌!=◌,
  if◌then◌else◌, ◌≢◌,
}
use stripe_mock_pi.Prelude.Int.{pos}
use stripe_mock_pi.Json.{int, str, obj, Object, end, get, get_string}
use stripe_mock_pi.Json.Copy.{deep_copy}
use stripe_mock_pi.Store.{
  get_payment_intent, ensure_session, put_payment_intent, set_stateful_enabled,
}
use stripe_mock_pi.Server.{Server, object}
use stripe_mock_pi.Intent.{
  Action, confirm, capture, cancel, update, apply_capture, apply_confirm,
  copy_payment_intent_params, succeed, payment_intent_param_keys, attach_payment_method,
  outcome_for_payment_method, capture_method, payment_intent_action_for_request,
}
use stripe_mock_pi.Intent.Outcomes.{
  confirmed_status, contains, first_of, get-copy_payment_intent_params, status-apply_confirm,
}
use stripe_mock_pi.Transition.{record_payment_intent_transition}
use stripe_mock_pi.Transition.Queue.{waiting, stored_charge}
use stripe_mock_pi.Stateful.{acted, act, over_capture, create_from}
use stripe_mock_pi.Stateful.Lifecycle.{Step, act-Step, outcome, manual}
use stripe_mock_pi.Stateful.Final.{status_of, run_actions, run_actions-final}
use stripe_mock_pi.Stateful.Notify.{waiting-act, action_events}
use stripe_mock_pi.Stateful.Capture.{Captured, act-Captured}
use stripe_mock_pi.Stateful.Create.{create_from-Created, initial_status}
use stripe_mock_pi.Tests.{config, server, held, base}

-- The intent of a capture of 400, and the server behind it.
abbrev partial : Object
partial = object (("amount_to_capture", int (pos 400)) ∷ [])

abbrev captured : Object × Server
captured =
    record_payment_intent_transition config "alice" server (apply_capture held partial) false true

capture_acts : act config capture "alice" held partial server ≡ acted captured.0 captured.1
unfolding act get_string get over_capture stripe_mock_pi.Intent.number_value stripe_mock_pi.Float.gt
    stripe_mock_pi.Float.of_int
capture_acts = refl

act-Step_example :
    Step
      (outcome held partial server)
      (manual held partial server)
      (get_string held "status")
      (get_string captured.0 "status")
      capture
act-Step_example = act-Step config "alice" held partial server capture capture_acts

waiting-act_example :
    waiting "alice" captured.1
    ≡ waiting "alice" server
      ++ action_events capture
          (outcome held partial server)
          (manual held partial server)
          (stored_charge "alice" captured.0 captured.1)
          (obj (deep_copy captured.0))
waiting-act_example =
    waiting-act config "alice" held partial server capture captured.0 captured.1 capture_acts

act-Captured_example : Captured config "alice" held partial captured.0 captured.1
act-Captured_example = act-Captured config "alice" held partial server capture_acts

paid_stays : status_of config "alice" "pi_paid" server ≡ "succeeded"
unfolding get_string get stripe_mock_pi.Store.get_resource stripe_mock_pi.Prelude.lookup
    set_stateful_enabled stripe_mock_pi.Prelude.insert stripe_mock_pi.Store.put_resource deep_copy
    stripe_mock_pi.Json.Copy.encodable_object stripe_mock_pi.Json.Copy.copy_object
    stripe_mock_pi.Text.Utf8.valid_from
paid_stays = refl

run_actions-final_example :
    status_of config "alice" "pi_paid" (
      run_actions config "alice"
        (("pi_paid", "/v1/payment_intents/pi_paid/cancel", end)
          ∷ ("pi_held", "/v1/payment_intents/pi_held/capture", end)
          ∷ [])
        server)
    ≡ status_of config "alice" "pi_paid" server
run_actions-final_example =
    run_actions-final config "alice"
      (("pi_paid", "/v1/payment_intents/pi_paid/cancel", end)
        ∷ ("pi_held", "/v1/payment_intents/pi_held/capture", end)
        ∷ [])
      "pi_paid" server (inl paid_stays)

-- A create that confirms at once.
abbrev confirming_params : Object
confirming_params = object (
    ("confirm", str "true")
    ∷ ("payment_method", str "pm_card_visa")
    ∷ ("amount", int (pos 500))
    ∷ [])

create_from-Created_example :
    (get_payment_intent
        (create_from config "alice" base confirming_params server).1.store
        "alice"
        (get_string (create_from config "alice" base confirming_params server).0 "id")
      ≡ some (deep_copy (create_from config "alice" base confirming_params server).0))
    × (get_string (create_from config "alice" base confirming_params server).0 "status"
        ≡ initial_status
            (create_from config "alice" base confirming_params server).0
            confirming_params)
create_from-Created_example = create_from-Created config "alice" base confirming_params server

get-copy_payment_intent_params_example :
    get (copy_payment_intent_params held confirming_params) "amount" ≡ (
      if contains payment_intent_param_keys "amount"
      then first_of (get confirming_params "amount") (get held "amount")
      else get held "amount")
get-copy_payment_intent_params_example =
    get-copy_payment_intent_params held confirming_params "amount"

status-apply_confirm_example :
    get_string (apply_confirm held confirming_params server.entropy).0 "status"
    ≡ confirmed_status
        (outcome_for_payment_method (
          get_string
            (attach_payment_method held confirming_params server.entropy).0
            "payment_method"))
        (capture_method held confirming_params == "manual")
status-apply_confirm_example = status-apply_confirm held confirming_params server.entropy
