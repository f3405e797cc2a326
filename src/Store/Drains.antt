-- ===== src/Store/Drains.antt =====
-- Reading the store (server/stateful.go) behind a drain, a reset and a write of a session.
use Prim.Native.String.{String}
use stripe_mock_pi.Prelude.{
  ◌≡◌, refl, sym, ◌∙◌, ap, false, Option, none, some, List, [], ◌∷◌, ◌++◌, ◌==◌, if◌then◌else◌,
  eq_iff, lookup, lookup-insert, lookup-delete, Bool-cases, inl, inr, arith,
}
use stripe_mock_pi.Json.{Object}
use stripe_mock_pi.Store.{
  StatefulStore, SessionStore, get_resource, stateful_enabled, enqueue_event, drain_events,
  drain_found, drain_queue, reset, put_session, ensure_session, or_new, enabled_in, copied_from,
  kind_in,
}
use stripe_mock_pi.Store.Events.{queue, queue-put_session}
use stripe_mock_pi.Store.Resources.{get_resource-put_session}

pub handed_over :
    (s : StatefulStore) (session : String) → (drain_events s session).0 ≡ queue session s
unfolding drain_events
handed_over s session = of_session (lookup session s.sessions)
  where
    of_queue :
        (sess : SessionStore) (events : List Object)
        → (drain_queue s session sess events).0 ≡ events
    of_queue sess [] = refl
    of_queue sess (event ∷ events) = refl

    of_session : (o : Option SessionStore) → (drain_found s session o).0 ≡ (or_new o).events
    of_session none = refl
    of_session (some sess) = of_queue sess sess.events

-- Reading behind a write of a session, a drain and a reset.
pub enabled-put_session :
    (s : StatefulStore) (session other : String) (sess : SessionStore)
    → stateful_enabled (put_session s session sess) other
      ≡ (if session == other then sess.stateful_enabled else stateful_enabled s other)
unfolding stateful_enabled
enabled-put_session s session other sess =
    ap enabled_in (lookup-insert session other sess s.sessions) ∙ ground arith

enabled_in-or_new : (o : Option SessionStore) → enabled_in o ≡ (or_new o).stateful_enabled
enabled_in-or_new none = refl
enabled_in-or_new (some sess) = refl

-- A session that is written back with the flag it had.
pub enabled-kept :
    (s : StatefulStore) (session other : String) (sess : SessionStore)
    → sess.stateful_enabled ≡ (ensure_session s session).stateful_enabled
    → stateful_enabled (put_session s session sess) other ≡ stateful_enabled s other
unfolding stateful_enabled ensure_session
enabled-kept s session other sess e =
    enabled-put_session s session other sess ∙ elim (Bool-cases (session == other)) [
      | inl same ↦ rw same (
          e
          ∙ sym (enabled_in-or_new (lookup session s.sessions))
          ∙ ap (λ x. enabled_in (lookup x s.sessions)) ((eq_iff session other).0 same))
      | inr differs ↦ rw differs refl
    ]

module _ (s : StatefulStore) (session : String) where
  -- What a drain leaves: the session written back with an empty queue, or the store as it was.
  abbrev pub Drained : StatefulStore → Type 0
  Drained t =
      ((other kind id : String) → get_resource t other kind id ≡ get_resource s other kind id)
      × ((other : String) → queue other t ≡ (if session == other then [] else queue other s))
      × ((other : String) → stateful_enabled t other ≡ stateful_enabled s other)

  Drained-empty : queue session s ≡ [] → Drained s
  Drained-empty e = (
    λ other kind id. refl,
    λ other. elim (Bool-cases (session == other)) [
      | inl same ↦ rw same (ap (λ x. queue x s) (sym ((eq_iff session other).0 same)) ∙ e)
      | inr differs ↦ rw differs refl
    ],
    λ other. refl,
  )

  Drained-written :
      (sess : SessionStore)
      → lookup session s.sessions ≡ some sess
      → Drained (put_session s session (record sess { events = [] }))
  unfolding ensure_session
  Drained-written sess e =
      let drained = record sess { events = [] } in
      (
        λ other kind id.
            get_resource-put_session s session drained other kind id
              (ap (λ o. (or_new o).resources) (sym e)),
        λ other. queue-put_session other s session drained,
        λ other.
            enabled-kept s session other drained (ap (λ o. (or_new o).stateful_enabled) (sym e)),
      )

  Drained-queue :
      (sess : SessionStore) (events : List Object)
      → lookup session s.sessions ≡ some sess
      → sess.events ≡ events
      → Drained (drain_queue s session sess events).1
  Drained-queue sess [] e q = Drained-empty (ap (λ o. (or_new o).events) e ∙ q)
  Drained-queue sess (event ∷ events) e q = Drained-written sess e

  Drained-found :
      (o : Option SessionStore)
      → lookup session s.sessions ≡ o
      → Drained (drain_found s session o).1
  Drained-found none e = Drained-empty (ap (λ o. (or_new o).events) e)
  Drained-found (some sess) e = Drained-queue sess sess.events e refl

  pub Drained-drain_events : Drained (drain_events s session).1
  unfolding drain_events
  Drained-drain_events = Drained-found (lookup session s.sessions) refl

  -- A session that was reset.
  pub get_resource-reset :
      (other kind id : String)
      → get_resource (reset s session) other kind id
        ≡ (if session == other then none else get_resource s other kind id)
  unfolding reset get_resource
  get_resource-reset other kind id =
      ap (λ o. copied_from (kind_in o kind) id) (lookup-delete session other s.sessions)
      ∙ elim (Bool-cases (session == other)) [
        | inl same ↦ rw same refl
        | inr differs ↦ rw differs refl
      ]

  pub queue-reset_any :
      (other : String)
      → queue other (reset s session) ≡ (if session == other then [] else queue other s)
  unfolding reset
  queue-reset_any other =
      ap (λ o. (or_new o).events) (lookup-delete session other s.sessions)
      ∙ elim (Bool-cases (session == other)) [
        | inl same ↦ rw same refl
        | inr differs ↦ rw differs refl
      ]

  pub enabled-reset :
      (other : String)
      → stateful_enabled (reset s session) other
        ≡ (if session == other then false else stateful_enabled s other)
  unfolding reset stateful_enabled
  enabled-reset other =
      ap enabled_in (lookup-delete session other s.sessions)
      ∙ elim (Bool-cases (session == other)) [
        | inl same ↦ rw same refl
        | inr differs ↦ rw differs refl
      ]

-- A session that is written back with the queue it had.
pub queue-kept :
    (s : StatefulStore) (session other : String) (sess : SessionStore)
    → sess.events ≡ (ensure_session s session).events
    → queue other (put_session s session sess) ≡ queue other s
unfolding ensure_session
queue-kept s session other sess e =
    queue-put_session other s session sess ∙ elim (Bool-cases (session == other)) [
      | inl same ↦ rw same (e ∙ ap (λ x. queue x s) ((eq_iff session other).0 same))
      | inr differs ↦ rw differs refl
    ]

pub queue-enqueue_event :
    (s : StatefulStore) (session other : String) (event : Object)
    → queue other (enqueue_event s session event)
      ≡ (if session == other then queue other s ++ (event ∷ []) else queue other s)
unfolding enqueue_event ensure_session
queue-enqueue_event s session other event =
    queue-put_session other s session _ ∙ elim (Bool-cases (session == other)) [
      | inl same ↦ rw same (ap (λ x. queue x s ++ (event ∷ [])) ((eq_iff session other).0 same))
      | inr differs ↦ rw differs refl
    ]
