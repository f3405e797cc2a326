-- ===== src/Tests.antt =====
-- A server with a few stored PaymentIntents, on which the theorems are applied.
mod Intents
mod Stores
mod Requests
mod Generated
mod Routes
use Prim.Native.String.{String}
use stripe_mock_pi.Prelude.{◌+◌, ◌*◌, List, [], ◌∷◌, Option, some, true}
use stripe_mock_pi.Prelude.Int.{pos}
use stripe_mock_pi.Json.{Value, nil, int, str, Object, end}
use stripe_mock_pi.Store.{
  StatefulStore, new_stateful_store, put_payment_intent, set_stateful_enabled,
}
use stripe_mock_pi.Ids.{Entropy, random_id_time_reference}
use stripe_mock_pi.Server.{Server, object}
use stripe_mock_pi.Transition.{Config}

abbrev pub base : Object
base = object (("id", str "") ∷ ("status", str "requires_payment_method") ∷ [])

abbrev pub config : Config
config = record { api_version = "2020-08-27"; generate_resource_base = λ kind e. (some base, e) }

abbrev pub entropy : Entropy
entropy = record { now = random_id_time_reference + 86400; draws = λ n. n * 7 + 3; used = 0 }

-- An intent that waits for its capture, one that has succeeded and one without a payment method.
abbrev pub intent : (id status : String) → Object
intent id status = object (
    ("id", str id)
    ∷ ("status", str status)
    ∷ ("amount", int (pos 1000))
    ∷ ("currency", str "usd")
    ∷ ("amount_capturable", int (pos 1000))
    ∷ ("capture_method", str "automatic")
    ∷ ("payment_method", str "pm_card_visa")
    ∷ [])

abbrev pub held : Object
held = intent "pi_held" "requires_capture"

abbrev pub paid : Object
paid = intent "pi_paid" "succeeded"

abbrev pub store : StatefulStore
store =
    set_stateful_enabled
      (put_payment_intent (put_payment_intent new_stateful_store "alice" "pi_held" held) "alice"
        "pi_paid" paid)
      "alice" true

abbrev pub server : Server
server = record { store = store; entropy = entropy }
