-- ===== src/Control/Seeding.antt =====
-- The store behind handleSeedPaymentIntent (server/control.go).
use Prim.Native.String.{String}
use stripe_mock_pi.Prelude.{
  ◌≡◌, refl, Bool, true, false, ◌==◌, some, ◌∙◌, Bool-cases, inl, inr, lookup-insert, eq_refl,
}
use stripe_mock_pi.Json.{Object, obj, str, get_string, put}
use stripe_mock_pi.Json.Laws.{get_string-put}
use stripe_mock_pi.Json.Copy.{deep_copy}
use stripe_mock_pi.Store.{
  get_payment_intent, put_payment_intent, set_stateful_enabled, stateful_enabled, StatefulStore,
}
use stripe_mock_pi.Store.Resources.{get-put_payment_intent_self, get_resource-set_stateful_enabled}
use stripe_mock_pi.Ids.{random_id}
use stripe_mock_pi.Server.{Server, Response, respond, status_ok}
use stripe_mock_pi.Transition.{Config}
use stripe_mock_pi.Control.{seed_object}

enabled-set_stateful_enabled :
    (s : StatefulStore) (session : String) (b : Bool)
    → stateful_enabled (set_stateful_enabled s session b) session ≡ b
unfolding stateful_enabled set_stateful_enabled
enabled-set_stateful_enabled s session b = rw lookup-insert (rw (eq_refl session))

-- What seeding leaves: the object that was answered is stored under its id, and the session has
-- opted in.
pub record Seeded (session : String) (seeded : Object) (answer : Response × Server) : Type 0 where
  pub object : Object
  pub answers : answer.0 ≡ respond status_ok (obj object)
  pub is_stored :
      get_payment_intent answer.1.store session (get_string object "id") ≡ some (deep_copy object)
  pub is_enabled : stateful_enabled answer.1.store session ≡ true
  pub is_own : (get_string seeded "id" == "") ≡ false → object ≡ seeded

module _ (session id : String) (object : Object) (s : StatefulStore) where
  abbrev written : StatefulStore
  written = set_stateful_enabled (put_payment_intent s session id object) session true

  read-written : get_payment_intent written session id ≡ some (deep_copy object)
  read-written =
      get_resource-set_stateful_enabled (put_payment_intent s session id object) session true
        session "payment_intent" id
      ∙ get-put_payment_intent_self s session id object

-- Seeding stores the object that it answers with, under its id: the seeded one where that has an
-- id, and opts the session in.
pub seed_object-Seeded :
    (config : Config) (session : String) (seeded : Object) (s : Server)
    → Seeded session seeded (seed_object config session seeded s)
unfolding seed_object
seed_object-Seeded config session seeded s = elim (Bool-cases (get_string seeded "id" == "")) [
  | inl missing ↦
      let (id, e) = random_id "pi" s.entropy in
      let named = put seeded "id" (str id) in
      rw missing record {
        object = named;
        answers = refl;
        is_stored =
            rw (get_string-put seeded "id" "id" (str id)) (read-written session id named s.store);
        is_enabled = enabled-set_stateful_enabled _ session true;
        is_own = λ given. cc;
      }
  | inr own ↦ rw own record {
    object = seeded;
    answers = refl;
    is_stored = read-written session (get_string seeded "id") seeded s.store;
    is_enabled = enabled-set_stateful_enabled _ session true;
    is_own = λ given. refl;
  }
]
