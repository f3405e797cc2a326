-- ===== src/Stateful/Final.antt =====
-- The final statuses of a PaymentIntent under sequences of actions (server/paymentintents.go).
use Prim.Native.String.{String}
use stripe_mock_pi.Prelude.{
  Bool, ◌≡◌, refl, ◌≢◌, ◌⊎◌, inl, inr, true, false, not, Option, none, some, List, [], ◌∷◌, arith,
  ◌==◌, ◌!=◌, ◌||◌, ap, ◌∙◌, sym, eq_iff, Bool-cases, subst,
}
use stripe_mock_pi.Json.{Object, get_string}
use stripe_mock_pi.Text.Utf8.{is_valid, is_valid_from}
use stripe_mock_pi.Json.Copy.{get_string-deep_copy}
use stripe_mock_pi.Store.{get_payment_intent}
use stripe_mock_pi.Store.Resources.{get-put_payment_intent_self, get-put_payment_intent_other}
use stripe_mock_pi.Server.{Server}
use stripe_mock_pi.Intent.{
  Action, PmOutcome, update, confirm, capture, cancel, confirm_has_payment_method,
  payment_intent_action_for_request,
}
use stripe_mock_pi.Transition.{Config}
use stripe_mock_pi.Transition.Reads.{get_payment_intent-record}
use stripe_mock_pi.Stateful.{
  Acted, refused, acted, act, may_confirm, over_capture, load, finish, load_found, perform,
  on_action, handle_action,
}
use stripe_mock_pi.Stateful.Lifecycle.{
  Step, confirming, capturing, canceling, attaching, keeping, act-Step, if-acted,
}

abbrev pub IsFinal : String → Type 0
IsFinal status = (status ≡ "succeeded") ⊎ (status ≡ "canceled")

texts_differ : (s t : String) → (s == t) ≡ false → s ≢ t
texts_differ s t h e = ground (arith, eq_iff s t)

-- No status of the state machine is both final and open to a move.
final-ne :
    (from open_status : String)
    → IsFinal from
    → ("succeeded" == open_status) ≡ false
    → ("canceled" == open_status) ≡ false
    → from ≢ open_status
final-ne from open_status (inl e) p q from_open =
    texts_differ "succeeded" open_status p (sym e ∙ from_open)
final-ne from open_status (inr e) p q from_open =
    texts_differ "canceled" open_status q (sym e ∙ from_open)

not-may_confirm : {from : String} → IsFinal from → may_confirm from ≡ false
not-may_confirm (inl e) = rw e
not-may_confirm (inr e) = rw e

final-valid : {status : String} → IsFinal status → is_valid status ≡ true
unfolding is_valid_from
final-valid (inl e) = rw e
final-valid (inr e) = rw e

-- The server behind an action, which is the one before where the action is refused.
abbrev after : Server → Acted → Server
after s (refused message) = s
after s (acted pi s') = s'

Step-final :
    (outcome : PmOutcome) (manual : Bool) (from to : String) (action : Action)
    → IsFinal from
    → Step outcome manual from to action
    → to ≡ from
Step-final outcome manual from to confirm f (confirming may into) = cc (not-may_confirm f)
Step-final outcome manual from to capture f (capturing held into) =
    absurd (final-ne from "requires_capture" f refl refl held)
Step-final outcome manual from to cancel (inl e) (canceling a b into) = absurd (a e)
Step-final outcome manual from to cancel (inr e) (canceling a b into) = absurd (b e)
Step-final outcome manual from to update f (attaching waits into) =
    absurd (final-ne from "requires_payment_method" f refl refl waits)
Step-final outcome manual from to update f (keeping same) = same

module _ (config : Config) (session : String) where
  -- Reading an intent behind an action that was carried out, before the intent is stored.
  pub get_payment_intent-act :
      (action : Action) (pi params : Object) (s : Server) (id : String) {pi' : Object} {s' : Server}
      → act config action session pi params s ≡ acted pi' s'
      → get_payment_intent s'.store session id ≡ get_payment_intent s.store session id
  unfolding act
  get_payment_intent-act confirm pi params s id h =
      let (may, h₁) = if-acted (not (may_confirm (get_string pi "status"))) _ _ h in
      let (has, h₂) = if-acted (not (confirm_has_payment_method pi params)) _ _ h₁ in
      ap (λ a. get_payment_intent (after s a).store session id) (sym h₂)
      ∙ get_payment_intent-record config session id _ _ false false
  get_payment_intent-act capture pi params s id h =
      let (held, h₁) = if-acted (get_string pi "status" != "requires_capture") _ _ h in
      let (fits, h₂) = if-acted (over_capture pi params) _ _ h₁ in
      ap (λ a. get_payment_intent (after s a).store session id) (sym h₂)
      ∙ get_payment_intent-record config session id _ _ false true
  get_payment_intent-act cancel pi params s id h =
      let (unfinished, h₁) =
        if-acted (get_string pi "status" == "succeeded" || get_string pi "status" == "canceled") _ _
          h in
      ap (λ a. get_payment_intent (after s a).store session id) (sym h₁)
      ∙ get_payment_intent-record config session id _ _ false false
  get_payment_intent-act update pi params s id h =
      ap (λ a. get_payment_intent (after s a).store session id) (sym h)

  abbrev status_in : Option Object → String
  status_in none = ""
  status_in (some pi) = get_string pi "status"

  -- The status of the stored intent, "" where none is stored.
  abbrev pub status_of : (id : String) → Server → String
  status_of id s = status_in (get_payment_intent s.store session id)

  status-finish_self :
      (id : String) (params : Object) (a : Acted) (pi : Object) (action : Action) (s : Server)
      → act config action session pi params s ≡ a
      → get_payment_intent s.store session id ≡ some pi
      → IsFinal (get_string pi "status")
      → status_of id (finish config session id params a s).1 ≡ get_string pi "status"
  unfolding is_valid_from
  status-finish_self id params (refused message) pi action s h stored f = rw stored
  status-finish_self id params (acted pi' s') pi action s h stored f =
      let kept = Step-final _ _ _ _ action f (act-Step config session pi params s action h) in
      ap status_in (get-put_payment_intent_self s'.store session id pi')
      ∙ get_string-deep_copy pi' "status" (refl, refl) (ap is_valid kept ∙ final-valid f)
      ∙ kept

  status-finish_other :
      (id other : String) (params : Object) (a : Acted) (pi : Object) (action : Action) (s : Server)
      → act config action session pi params s ≡ a
      → (id == other) ≡ false
      → status_of other (finish config session id params a s).1 ≡ status_of other s
  status-finish_other id other params (refused message) pi action s h differs = refl
  status-finish_other id other params (acted pi' s') pi action s h differs = ap status_in (
      get-put_payment_intent_other s'.store session id pi' other differs
      ∙ get_payment_intent-act action pi params s other h)

  -- A request on the stored intent itself.
  status-perform_self :
      (id : String) (params : Object) (action : Action) (found : Option Object) (s : Server)
      → get_payment_intent s.store session id ≡ found
      → IsFinal (status_in found)
      → status_of id (perform config action session id params (load_found config id found s)).1
        ≡ status_in found
  status-perform_self id params action none s stored (inl e) =
      absurd (texts_differ "" "succeeded" refl e)
  status-perform_self id params action none s stored (inr e) =
      absurd (texts_differ "" "canceled" refl e)
  status-perform_self id params action (some pi) s stored f =
      status-finish_self id params _ pi action s refl stored f

  status-perform_other :
      (id other : String) (params : Object) (action : Action) (loaded : Option Object) (s : Server)
      → (id == other) ≡ false
      → status_of other (perform config action session id params (loaded, s)).1 ≡ status_of other s
  status-perform_other id other params action none s differs = refl
  status-perform_other id other params action (some pi) s differs =
      status-finish_other id other params _ pi action s refl differs

  status-load_other :
      (id other : String) (params : Object) (action : Action) (found : Option Object) (s : Server)
      → (id == other) ≡ false
      → status_of other (perform config action session id params (load_found config id found s)).1
        ≡ status_of other s
  status-load_other id other params action (some pi) s differs =
      status-perform_other id other params action (some pi) s differs
  status-load_other id other params action none s differs =
      status-perform_other id other params action _ _ differs

  status-on_action :
      (id other : String) (params : Object) (o : Option Action) (s : Server)
      → IsFinal (status_of other s)
      → status_of other (on_action config o session id params s).1 ≡ status_of other s
  unfolding load
  status-on_action id other params none s f = refl
  status-on_action id other params (some action) s f = elim (Bool-cases (id == other)) [
    | inl same ↦ rw ((eq_iff id other).0 same) (
        status-perform_self other params action (get_payment_intent s.store session other) s refl f)
    | inr differs ↦
        status-load_other id other params action (get_payment_intent s.store session id) s differs
  ]

  status-handle_action :
      (other id path : String) (params : Object) (s : Server)
      → IsFinal (status_of other s)
      → status_of other (handle_action config session id path params s).1 ≡ status_of other s
  unfolding handle_action
  status-handle_action other id path params s f =
      status-on_action id other params (payment_intent_action_for_request path id) s f

  -- POST requests to intents' paths, each with its id, path and parameters, one after the other.
  abbrev pub run_actions : List (String × String × Object) → Server → Server
  run_actions [] s = s
  run_actions ((id, path, params) ∷ rest) s =
      run_actions rest (handle_action config session id path params s).1

  -- An intent that has succeeded or was canceled keeps that status under any sequence of POST
  -- requests to the paths of intents, its own among them.
  pub run_actions-final :
      (requests : List (String × String × Object)) (id : String) (s : Server)
      → IsFinal (status_of id s)
      → status_of id (run_actions requests s) ≡ status_of id s
  run_actions-final [] id s f = refl
  run_actions-final ((other, path, params) ∷ rest) id s f =
      let e = status-handle_action id other path params s f in
      run_actions-final rest id _ (subst IsFinal (sym e) f) ∙ e
