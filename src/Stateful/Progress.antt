-- ===== src/Stateful/Progress.antt =====
-- Which actions on an intent are carried out (the switch of maybeHandleStatefulRequest,
-- server/paymentintents.go).
use Prim.Native.String.{String}
use stripe_mock_pi.Prelude.{◌≡◌, Bool, true, not}
use stripe_mock_pi.Json.{Object, get_string}
use stripe_mock_pi.Server.{Server}
use stripe_mock_pi.Intent.{Action, update, confirm, capture, cancel, confirm_has_payment_method}
use stripe_mock_pi.Transition.{Config}
use stripe_mock_pi.Stateful.{acted, act, over_capture}
use stripe_mock_pi.Stateful.Lifecycle.{Step, outcome, manual}

-- What a request has to bring along: a confirm a payment method, if the intent has none, and a
-- capture an amount that the intent holds.
abbrev pub suffices : Action → (pi params : Object) → Bool
suffices confirm pi params = confirm_has_payment_method pi params
suffices capture pi params = not (over_capture pi params)
suffices cancel pi params = true
suffices update pi params = true

module _ (config : Config) (session : String) (pi params : Object) (s : Server) where
  abbrev status : String
  status = get_string pi "status"

  -- That an action is carried out.
  abbrev pub IsActed : Action → Type 0
  IsActed action =
      (pi' : Object) × (s' : Server) × (act config action session pi params s ≡ acted pi' s')

  -- That the state machine has a step for an action, and the request brings what it takes.
  abbrev pub IsPermitted : Action → Type 0
  IsPermitted action =
      ((to : String) × Step (outcome pi params s) (manual pi params s) status to action)
      × (suffices action pi params ≡ true)
