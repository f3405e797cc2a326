-- ===== src/Store/Sessions.antt =====
-- Sequences of store operations (server/stateful.go) and the sessions that they name.
use Prim.Native.String.{String}
use stripe_mock_pi.Prelude.{
  ◌≡◌, refl, Bool, false, Option, none, some, List, [], ◌∷◌, ◌==◌, lookup, lookup-insert,
  lookup-delete, ◌∙◌, All,
}
use stripe_mock_pi.Json.{Object}
use stripe_mock_pi.Store.{
  StatefulStore, SessionStore, reset, set_stateful_enabled, stateful_enabled, put_resource,
  get_resource, list_resources, enqueue_event, drain_events, drain_queue, drain_found,
}

pub data Action : Type 0 where
  clear : Action
  enable : Bool → Action
  write : (resource_id id : String) → Object → Action
  enqueue : Object → Action
  drain : Action

-- An action and the session that it names.
abbrev pub Operation : Type 0
Operation = String × Action

unfoldable pub apply : Operation → StatefulStore → StatefulStore
apply (session, clear) s = reset s session
apply (session, enable b) s = set_stateful_enabled s session b
apply (session, write resource_id id object) s = put_resource s session resource_id id object
apply (session, enqueue event) s = enqueue_event s session event
apply (session, drain) s = (drain_events s session).1

unfoldable pub run : List Operation → StatefulStore → StatefulStore
run [] s = s
run (op ∷ ops) s = run ops (apply op s)

-- Only the session that is drained is written to.
module _ (s : StatefulStore) (session other : String) (h : (session == other) ≡ false) where
  drain_queue-other :
      (sess : SessionStore) (events : List Object)
      → lookup other (drain_queue s session sess events).1.sessions ≡ lookup other s.sessions
  drain_queue-other sess [] = refl
  drain_queue-other sess (event ∷ events) = rw lookup-insert (rw h)

  pub drain_found-other :
      (o : Option SessionStore)
      → lookup other (drain_found s session o).1.sessions ≡ lookup other s.sessions
  drain_found-other none = refl
  drain_found-other (some sess) = drain_queue-other sess sess.events

-- What a drain hands over depends on the session alone.
drain_queue-store :
    (s t : StatefulStore) (session : String) (sess : SessionStore) (events : List Object)
    → (drain_queue s session sess events).0 ≡ (drain_queue t session sess events).0
drain_queue-store s t session sess [] = refl
drain_queue-store s t session sess (event ∷ events) = refl

drain_found-store :
    (s t : StatefulStore) (session : String) (o : Option SessionStore)
    → (drain_found s session o).0 ≡ (drain_found t session o).0
drain_found-store s t session none = refl
drain_found-store s t session (some sess) = drain_queue-store s t session sess sess.events

module _ (other : String) where
  abbrev pub Avoids : Operation → Type 0
  Avoids op = (op.0 == other) ≡ false

  pub lookup-apply :
      (op : Operation) (s : StatefulStore)
      → Avoids op
      → lookup other (apply op s).sessions ≡ lookup other s.sessions
  unfolding apply reset set_stateful_enabled put_resource enqueue_event drain_events
  lookup-apply (session, clear) s h = rw lookup-delete (rw h)
  lookup-apply (session, drain) s h =
      drain_found-other s session other h (lookup session s.sessions)
  lookup-apply (session, _) s h = rw lookup-insert (rw h)

  pub lookup-run :
      (ops : List Operation) (s : StatefulStore)
      → All Avoids ops
      → lookup other (run ops s).sessions ≡ lookup other s.sessions
  unfolding run
  lookup-run [] s h = refl
  lookup-run (op ∷ ops) s (h, hs) = lookup-run ops (apply op s) hs ∙ lookup-apply op s h

  -- Operations that name other sessions change nothing that a session shows: its resources, its
  -- lists, its flag and the events that a drain would give.
  pub run-isolated :
      (ops : List Operation) (s : StatefulStore) (resource_id id : String)
      → All Avoids ops
      → (get_resource (run ops s) other resource_id id ≡ get_resource s other resource_id id)
        × (list_resources (run ops s) other resource_id ≡ list_resources s other resource_id)
        × (stateful_enabled (run ops s) other ≡ stateful_enabled s other)
        × ((drain_events (run ops s) other).0 ≡ (drain_events s other).0)
  unfolding get_resource list_resources stateful_enabled drain_events
  run-isolated ops s resource_id id h =
      let e = lookup-run ops s h in
      (rw e, rw e, rw e, rw e (drain_found-store (run ops s) s other (lookup other s.sessions)))
