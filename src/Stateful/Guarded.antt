-- ===== src/Stateful/Guarded.antt =====
-- The store behind errors and requests that are left to the generator (server/paymentintents.go).
use Prim.Native.String.{String}
use stripe_mock_pi.Prelude.{
  ◌≡◌, refl, ◌≢◌, Bool, not, Option, none, some, ◌==◌, ◌!=◌, ◌&&◌, if◌then◌else◌, ◌∙◌, List, [],
  ◌∷◌, ap, is_some, if_elim,
}
use stripe_mock_pi.Text.{has_suffix}
use stripe_mock_pi.Json.{Object, end, get_string, bool_param}
use stripe_mock_pi.Store.{
  StatefulStore, charge_resource_id, payment_intent_resource_id, list_resources, get_payment_intent,
  get_charge, put_payment_intent,
}
use stripe_mock_pi.Server.{Server, Request, status_ok}
use stripe_mock_pi.Expand.{Extracted, absent, expansions_of, panic, extract_expansions}
use stripe_mock_pi.Intent.{Action, confirm_has_payment_method, payment_intent_action_for_request}
use stripe_mock_pi.Transition.{Config}
use stripe_mock_pi.Stateful.{
  Outcome, shown, retrieve, falls_through, responds, panics, expand_with, asks_for,
  expand_stateful_payment_intent, expand_stateful_charge, Acted, refused, acted, act, load,
  load_found, finish, perform, on_action, handle_action, create_from, created, handle_create,
  dispatch, handle_enabled, charges_of, post_action, primary_id_of, or_charges, retrieve_charge,
  retrieve_payment_intent,
}

-- No answer, or an answer other than 200.
abbrev pub Quiet : Outcome → Type 0
Quiet falls_through = Unit
Quiet (responds r) = r.status ≢ status_ok
Quiet panics = ⊥

expand_with-loud :
    (read : String → Option Object) (key : String) (m : Object) (x : Extracted)
    → ¬ Quiet (expand_with read key m x)
expand_with-loud read key m absent q = q refl
expand_with-loud read key m panic q = q
expand_with-loud read key m (expansions_of wanted) q =
    if_elim (λ o. ¬ Quiet o) (asks_for wanted key && get_string m key != "") (λ p. p refl)
      (λ p. p refl) q

expand-loud :
    (s : StatefulStore) (session : String) (pi params : Object)
    → ¬ Quiet (expand_stateful_payment_intent s session pi params)
unfolding expand_stateful_payment_intent
expand-loud s session pi params q =
    expand_with-loud (get_charge s session) "latest_charge" pi (extract_expansions params) q

-- An answer that is quiet only where the store is as it was.
record Guarded (s : StatefulStore) (answer : Outcome × Server) : Type 0 where
  by : Quiet answer.0 → answer.1.store ≡ s

Guarded-if :
    {s : StatefulStore} (b : Bool) {x y : Outcome × Server}
    → Guarded s x
    → Guarded s y
    → Guarded s (if b then x else y)
Guarded-if {s} b px py = if_elim (Guarded s) b px py

module _ (config : Config) (session : String) where
  store-load_found :
      (id : String) (o : Option Object) (s : Server) → (load_found config id o s).1.store ≡ s.store
  store-load_found id none s = refl
  store-load_found id (some pi) s = refl

  store-shown :
      (show : Object → Outcome) (m : Option Object) (s : Server) → (shown config show m s).1 ≡ s
  store-shown show none s = refl
  store-shown show (some m) s = refl

  -- A read changes nothing.
  store-retrieve :
      (read : String → Option Object) (show : Object → Outcome) (o : Option String) (s : Server)
      → (retrieve config read show o s).1 ≡ s
  store-retrieve read show none s = refl
  store-retrieve read show (some id) s = store-shown show (read id) s

  Guarded-finish :
      (id : String) (params : Object) (a : Acted) (s : Server)
      → Guarded s.store (finish config session id params a s)
  Guarded-finish id params (refused message) s = record { by = λ q. refl }
  Guarded-finish id params (acted pi s') s = record {
    by = λ q. absurd (expand-loud (put_payment_intent s'.store session id pi) session pi params q);
  }

  Guarded-perform :
      (action : Action) (id : String) (params : Object) (loaded : Option Object) (s : Server)
      → Guarded s.store (perform config action session id params (loaded, s))
  Guarded-perform action id params none s = record { by = λ q. refl }
  Guarded-perform action id params (some pi) s =
      Guarded-finish id params (act config action session pi params s) s

  Guarded-on_action :
      (o : Option Action) (id : String) (params : Object) (s : Server)
      → Guarded s.store (on_action config o session id params s)
  unfolding load
  Guarded-on_action none id params s = record { by = λ q. refl }
  Guarded-on_action (some action) id params s =
      let found = get_payment_intent s.store session id in
      let (loaded, s') = load_found config id found s in
      record {
        by = λ q. (Guarded-perform action id params loaded s').by q ∙ store-load_found id found s;
      }

  Guarded-post_action :
      (o : Option String) (path : String) (params : Object) (s : Server)
      → Guarded s.store (post_action config o session path params s)
  unfolding handle_action
  Guarded-post_action none path params s = record { by = λ q. refl }
  Guarded-post_action (some id) path params s =
      Guarded-on_action (payment_intent_action_for_request path id) id params s

  Guarded-created :
      (params : Object) (base : Option Object) (s : Server)
      → Guarded s.store (created config session params base s)
  Guarded-created params none s = record { by = λ q. refl }
  Guarded-created params (some base) s =
      let (pi, s') = create_from config session base params s in
      record { by = λ q. absurd (expand-loud s'.store session pi params q) }

  Guarded-handle_create :
      (params : Object) (s : Server) → Guarded s.store (handle_create config session params s)
  unfolding handle_create
  Guarded-handle_create params s =
      let (base, e) = config.generate_resource_base payment_intent_resource_id s.entropy in
      Guarded-if (bool_param params "confirm" && not (confirm_has_payment_method end params))
        (record { by = λ q. refl }) (Guarded-created params base (record s { entropy = e }))

  Guarded-same : (answer : Outcome × Server) (s : Server) → answer.1 ≡ s → Guarded s.store answer
  Guarded-same answer s e = record { by = λ q. ap (λ (t : Server). t.store) e }

  Guarded-retrieve_charge :
      (r : Request) (s : Server) → Guarded s.store (retrieve_charge config session r s)
  Guarded-retrieve_charge r s = Guarded-same (retrieve_charge config session r s) s (
      store-retrieve (get_charge s.store session)
        (λ charge. expand_stateful_charge s.store session charge r.params)
        (primary_id_of r.path_params) s)

  Guarded-retrieve_payment_intent :
      (r : Request) (s : Server) → Guarded s.store (retrieve_payment_intent config session r s)
  Guarded-retrieve_payment_intent r s =
      Guarded-same (retrieve_payment_intent config session r s) s (
        store-retrieve (get_payment_intent s.store session)
          (λ pi. expand_stateful_payment_intent s.store session pi r.params)
          (primary_id_of r.path_params) s)

  Guarded-dispatch : (r : Request) (s : Server) → Guarded s.store (dispatch config session r s)
  unfolding dispatch
  Guarded-dispatch r s =
      let idle : Guarded s.store (falls_through, s) = record { by = λ q. refl } in
      Guarded-if (r.resource_id == charge_resource_id)
        (Guarded-if (r.method == "GET") (Guarded-retrieve_charge r s) idle)
        (Guarded-if (r.resource_id != payment_intent_resource_id) idle (
          Guarded-if (r.method == "GET") (Guarded-retrieve_payment_intent r s) (
            Guarded-if (r.method == "POST")
              (Guarded-if (is_some r.path_params)
                (Guarded-post_action (primary_id_of r.path_params) r.path r.params s)
                (Guarded-handle_create r.params s))
              idle)))

  Guarded-or_charges :
      (charges : List Object) (rest : Outcome × Server) (s : Server)
      → Guarded s.store rest
      → Guarded s.store (or_charges config charges rest s)
  Guarded-or_charges [] rest s p = p
  Guarded-or_charges (charge ∷ charges) rest s p = record { by = λ q. refl }

  Guarded-handle_enabled :
      (r : Request) (s : Server) → Guarded s.store (handle_enabled config session r s)
  unfolding handle_enabled
  Guarded-handle_enabled r s =
      Guarded-if
        (r.method == "GET"
          && (has_suffix r.path "/v1/charges" && get_string r.params "payment_intent" != ""))
        (Guarded-or_charges
          (charges_of (get_string r.params "payment_intent")
            (list_resources s.store session charge_resource_id))
          (dispatch config session r s) s (Guarded-dispatch r s))
        (Guarded-dispatch r s)

-- In a session that has opted in, a request that is answered with an error, or that is left to the
-- generator, leaves the store exactly as it was: no intent, charge or event is half written.
pub handle_enabled-Quiet :
    (config : Config) (session : String) (r : Request) (s : Server)
    → Quiet (handle_enabled config session r s).0
    → (handle_enabled config session r s).1.store ≡ s.store
handle_enabled-Quiet config session r s q = (Guarded-handle_enabled config session r s).by q
