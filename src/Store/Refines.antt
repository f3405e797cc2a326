-- ===== src/Store/Refines.antt =====
-- What the store of sessions (server/stateful.go) promises: objects by session, kind and id, a
-- queue and a flag for each session; and that its operations keep to it.
use Prim.Native.String.{String}
use stripe_mock_pi.Prelude.{
  ◌≡◌, refl, ◌∙◌, ap, Bool, false, Option, none, some, List, [], ◌∷◌, ◌++◌, ◌==◌, ◌&&◌,
  if◌then◌else◌, lookup,
}
use stripe_mock_pi.Json.{Object}
use stripe_mock_pi.Json.Copy.{deep_copy}
use stripe_mock_pi.Store.{
  StatefulStore, get_resource, put_resource, stateful_enabled, set_stateful_enabled, enqueue_event,
  drain_events, reset, ensure_session, new_stateful_store,
}
use stripe_mock_pi.Store.Sessions.{clear, enable, write, enqueue, drain, Operation, apply, run}
use stripe_mock_pi.Store.Events.{queue}
use stripe_mock_pi.Store.Resources.{
  get_resource-put_resource, get_resource-enqueue_event, get_resource-set_stateful_enabled,
}
use stripe_mock_pi.Store.Drains.{
  handed_over, enabled-put_session, enabled-kept, Drained-drain_events, get_resource-reset,
  queue-reset_any, enabled-reset, queue-kept, queue-enqueue_event,
}

-- What a client can tell of the store.
pub record Contract : Type 0 where
  pub objects : (session kind id : String) → Option Object
  pub waiting : (session : String) → List Object
  pub enabled : (session : String) → Bool

abbrev pub nothing : Contract
nothing = record {
  objects = λ session kind id. none;
  waiting = λ session. [];
  enabled = λ session. false;
}

-- The operations on what a client can tell.
unfoldable pub perform : Operation → Contract → Contract
perform (session, clear) c = record {
  objects = λ other kind id. if session == other then none else c.objects other kind id;
  waiting = λ other. if session == other then [] else c.waiting other;
  enabled = λ other. if session == other then false else c.enabled other;
}
perform (session, enable b) c = record c {
  enabled = λ other. if session == other then b else c.enabled other;
}
perform (session, write kind id object) c = record c {
  objects = λ other kind' id'.
      if session == other && (kind == kind' && id == id')
      then some (deep_copy object)
      else c.objects other kind' id';
}
perform (session, enqueue event) c = record c {
  waiting = λ other. if session == other then c.waiting other ++ (event ∷ []) else c.waiting other;
}
perform (session, drain) c = record c {
  waiting = λ other. if session == other then [] else c.waiting other;
}

unfoldable pub perform_all : List Operation → Contract → Contract
perform_all [] c = c
perform_all (op ∷ ops) c = perform_all ops (perform op c)

-- A store shows exactly what the contract says, and a drain hands over what waits.
abbrev pub Shows : StatefulStore → Contract → Type 0
Shows s c =
    ((session kind id : String) → get_resource s session kind id ≡ c.objects session kind id)
    × ((session : String) → queue session s ≡ c.waiting session)
    × ((session : String) → stateful_enabled s session ≡ c.enabled session)
    × ((session : String) → (drain_events s session).0 ≡ c.waiting session)

Shows-of :
    (s : StatefulStore) (c : Contract)
    → ((session kind id : String) → get_resource s session kind id ≡ c.objects session kind id)
    → ((session : String) → queue session s ≡ c.waiting session)
    → ((session : String) → stateful_enabled s session ≡ c.enabled session)
    → Shows s c
Shows-of s c objects waiting enabled =
    (objects, waiting, enabled, λ session. handed_over s session ∙ waiting session)

Shows-apply :
    (op : Operation) (s : StatefulStore) (c : Contract)
    → Shows s c
    → Shows (apply op s) (perform op c)
unfolding apply perform set_stateful_enabled put_resource enqueue_event ensure_session
Shows-apply (session, clear) s c h =
    Shows-of (reset s session) (perform (session, clear) c)
      (λ other kind id.
        get_resource-reset s session other kind id
        ∙ ap (λ x. if session == other then none else x) (h.0 other kind id))
      (λ other.
        queue-reset_any s session other ∙ ap (λ x. if session == other then [] else x) (h.1 other))
      (λ other.
        enabled-reset s session other ∙ ap (λ x. if session == other then false else x) (h.2 other))
Shows-apply (session, enable b) s c h =
    Shows-of (set_stateful_enabled s session b) (perform (session, enable b) c)
      (λ other kind id.
        get_resource-set_stateful_enabled s session b other kind id ∙ h.0 other kind id)
      (λ other. queue-kept s session other _ refl ∙ h.1 other)
      (λ other.
        enabled-put_session s session other _
        ∙ ap (λ x. if session == other then b else x) (h.2 other))
Shows-apply (session, write kind id object) s c h =
    Shows-of (put_resource s session kind id object) (perform (session, write kind id object) c)
      (λ other kind' id'.
        get_resource-put_resource s session kind id object other kind' id'
        ∙ ap
            (λ x.
              if session == other && (kind == kind' && id == id')
              then some (deep_copy object)
              else x)
            (h.0 other kind' id'))
      (λ other. queue-kept s session other _ refl ∙ h.1 other)
      (λ other. enabled-kept s session other _ refl ∙ h.2 other)
Shows-apply (session, enqueue event) s c h =
    Shows-of (enqueue_event s session event) (perform (session, enqueue event) c)
      (λ other kind id.
        get_resource-enqueue_event s session event other kind id ∙ h.0 other kind id)
      (λ other.
        queue-enqueue_event s session other event
        ∙ ap (λ x. if session == other then x ++ (event ∷ []) else x) (h.1 other))
      (λ other. enabled-kept s session other _ refl ∙ h.2 other)
Shows-apply (session, drain) s c h =
    let left = Drained-drain_events s session in
    Shows-of (drain_events s session).1 (perform (session, drain) c)
      (λ other kind id. left.0 other kind id ∙ h.0 other kind id)
      (λ other. left.1 other ∙ ap (λ x. if session == other then [] else x) (h.1 other))
      (λ other. left.2 other ∙ h.2 other)

Shows-run :
    (ops : List Operation) (s : StatefulStore) (c : Contract)
    → Shows s c
    → Shows (run ops s) (perform_all ops c)
unfolding run perform_all
Shows-run [] s c h = h
Shows-run (op ∷ ops) s c h = Shows-run ops (apply op s) (perform op c) (Shows-apply op s c h)

Shows-new : Shows new_stateful_store nothing
unfolding get_resource stateful_enabled drain_events lookup
Shows-new = (λ session kind id. refl, λ session. refl, λ session. refl, λ session. refl)

-- Whatever operations are run on a new store, it shows what the contract says: each object as the
-- copy of the one that was last written to its session, kind and id since the session was cleared,
-- the flag that was last set, and the events since the last drain, which the next drain hands over.
pub run-Shows :
    (ops : List Operation) → Shows (run ops new_stateful_store) (perform_all ops nothing)
run-Shows ops = Shows-run ops new_stateful_store nothing Shows-new
