-- ===== src/Store/Events.antt =====
-- The event queue of a session (server/stateful.go) over a sequence of store operations.
use Prim.Native.String.{String}
use mathlib.Core.List.{append-nil, append_assoc}
use stripe_mock_pi.Prelude.{
  ◌≡◌, refl, false, Option, none, some, List, [], ◌∷◌, ◌++◌, arith, ◌==◌, if◌then◌else◌, eq_iff,
  eq_refl, lookup, lookup-insert, lookup-delete, ◌∙◌, All, ap, sym, Bool-cases, inl, inr,
}
use stripe_mock_pi.Json.{Object}
use stripe_mock_pi.Store.{
  StatefulStore, SessionStore, reset, set_stateful_enabled, put_resource, enqueue_event,
  drain_events, drain_queue, drain_found, put_session, ensure_session, or_new,
}
use stripe_mock_pi.Store.Sessions.{clear, enqueue, drain, Operation, apply, run, drain_found-other}

module _ (session : String) where
  -- The events that wait in the session.
  abbrev pub queue : StatefulStore → List Object
  queue s = (or_new (lookup session s.sessions)).events

  -- What the operation adds to the session's queue, and what it hands over.
  abbrev added : Operation → List Object
  added (other, enqueue event) = if other == session then event ∷ [] else []
  added (other, _) = []

  abbrev handed : Operation → StatefulStore → List Object
  handed (other, drain) s = if other == session then (drain_events s session).0 else []
  handed (other, _) s = []

  abbrev pub enqueued : List Operation → List Object
  enqueued [] = []
  enqueued (op ∷ ops) = added op ++ enqueued ops

  abbrev pub delivered : List Operation → StatefulStore → List Object
  delivered [] s = []
  delivered (op ∷ ops) s = handed op s ++ delivered ops (apply op s)

  -- The operation does not clear the session.
  abbrev pub Retains : Operation → Type 0
  Retains (other, clear) = (other == session) ≡ false
  Retains (other, _) = Unit

  pub queue-put_session :
      (s : StatefulStore) (other : String) (sess : SessionStore)
      → queue (put_session s other sess) ≡ (if other == session then sess.events else queue s)
  queue-put_session s other sess =
      ap (λ o. (or_new o).events) (lookup-insert other session sess s.sessions) ∙ ground arith

  queue-reset :
      (s : StatefulStore) (other : String)
      → (other == session) ≡ false
      → queue (reset s other) ≡ queue s
  unfolding reset
  queue-reset s other h =
      ap (λ o. (or_new o).events) (lookup-delete other session s.sessions) ∙ rw h

  drained_queue :
      (s : StatefulStore) (sess : SessionStore) (events : List Object)
      → events ≡ queue s
      → (drain_queue s session sess events).0 ++ queue (drain_queue s session sess events).1
        ≡ queue s
  drained_queue s sess [] e = refl
  drained_queue s sess (event ∷ events) e =
      ap (λ l. (event ∷ events) ++ l) (queue-put_session s session _ ∙ rw (eq_refl session))
      ∙ append-nil _
      ∙ e

  drained :
      (s : StatefulStore) (o : Option SessionStore)
      → lookup session s.sessions ≡ o
      → (drain_found s session o).0 ++ queue (drain_found s session o).1 ≡ queue s
  drained s none e = refl
  drained s (some sess) e = drained_queue s sess sess.events (ap (λ o. (or_new o).events) (sym e))

  queue-drain_self :
      (other : String) (s : StatefulStore)
      → handed (other, drain) s ++ queue (drain_events s other).1 ≡ queue s
  unfolding drain_events
  queue-drain_self other s = elim (Bool-cases (other == session)) [
    | inl same ↦
        rw same (rw ((eq_iff other session).0 same) (drained s (lookup session s.sessions) refl))
    | inr differs ↦ rw differs (
        ap (λ o. (or_new o).events)
          (drain_found-other s other session differs (lookup other s.sessions)))
  ]

  step :
      (op : Operation) (s : StatefulStore)
      → Retains op
      → handed op s ++ queue (apply op s) ≡ queue s ++ added op
  unfolding apply reset set_stateful_enabled put_resource enqueue_event ensure_session
  step (other, drain) s h = queue-drain_self other s ∙ sym (append-nil (queue s))
  step (other, clear) s h = queue-reset s other h ∙ sym (append-nil (queue s))
  step (other, _) s h = queue-put_session s other _ ∙ elim (Bool-cases (other == session)) [
    | inl same ↦ rw same (rw ((eq_iff other session).0 same) (ground (arith, append-nil (queue s))))
    | inr differs ↦ rw differs (sym (append-nil (queue s)))
  ]

  -- Over any operations on the store that do not clear the session, what its drains hand over
  -- followed by what still waits is what waited at first followed by what was enqueued, in order.
  pub delivered_in_order :
      (ops : List Operation) (s : StatefulStore)
      → All Retains ops
      → delivered ops s ++ queue (run ops s) ≡ queue s ++ enqueued ops
  unfolding run
  delivered_in_order [] s h = sym (append-nil (queue s))
  delivered_in_order (op ∷ ops) s (h, hs) =
      append_assoc (handed op s) _ _
      ∙ ap (λ l. handed op s ++ l) (delivered_in_order ops (apply op s) hs)
      ∙ sym (append_assoc (handed op s) _ _)
      ∙ ap (λ l. l ++ enqueued ops) (step op s h)
      ∙ append_assoc (queue s) _ _
