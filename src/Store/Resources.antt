-- ===== src/Store/Resources.antt =====
-- getResource behind putResource and the other writes (server/stateful.go).
use Prim.Native.String.{String}
use stripe_mock_pi.Prelude.{
  ◌≡◌, refl, Bool, false, Option, none, some, arith, ◌==◌, ◌&&◌, if◌then◌else◌, eq_iff, lookup,
  insert, lookup-insert, Dict, Bool-cases, inl, inr, ◌∙◌, ap, eq_refl,
}
use stripe_mock_pi.Json.{Object}
use stripe_mock_pi.Json.Copy.{deep_copy}
use stripe_mock_pi.Store.{
  StatefulStore, SessionStore, get_resource, put_resource, or_new, or_empty, kind_in, copied_from,
  ensure_session, put_session, enqueue_event, set_stateful_enabled, get_payment_intent,
  put_payment_intent,
}

copied_from-or_empty :
    (o : Option (Dict Object)) (id : String) → copied_from (some (or_empty o)) id ≡ copied_from o id
unfolding lookup
copied_from-or_empty none id = refl
copied_from-or_empty (some by_id) id = refl

copied_from-or_new :
    (o : Option SessionStore) (kind id : String)
    → copied_from (lookup kind (or_new o).resources) id ≡ copied_from (kind_in o kind) id
unfolding lookup
copied_from-or_new none kind id = refl
copied_from-or_new (some sess) kind id = refl

copied_from-insert :
    (by_id : Dict Object) (id : String) (object : Object) (id' : String)
    → copied_from (some (insert id object by_id)) id'
      ≡ (if id == id' then some (deep_copy object) else copied_from (some by_id) id')
copied_from-insert by_id id object id' =
    rw (lookup-insert id id' object by_id, copied_from) (ground arith)

-- What a session that one object was written to reads as, kind and id by kind and id.
module _ (o : Option SessionStore) (kind id : String) (object : Object) where
  abbrev written : Dict Object
  written = insert id object (or_empty (lookup kind (or_new o).resources))

  copied_from-written :
      (kind' id' : String)
      → copied_from (lookup kind' (insert kind written (or_new o).resources)) id' ≡ (
          if kind == kind' && id == id'
          then some (deep_copy object)
          else copied_from (kind_in o kind') id')
  copied_from-written kind' id' = rw (lookup-insert kind kind' written (or_new o).resources) (
      ground (
        arith,
        eq_iff kind kind',
        copied_from-insert (or_empty (lookup kind (or_new o).resources)) id object id',
        copied_from-or_empty (lookup kind (or_new o).resources) id',
        copied_from-or_new o kind' id',
      ))

-- A resource that was stored is read back as its deep copy, in its session, under its kind and id;
-- every other session, kind and id reads as before.
pub get_resource-put_resource :
    (s : StatefulStore) (session kind id : String) (object : Object) (session' kind' id' : String)
    → get_resource (put_resource s session kind id object) session' kind' id' ≡ (
        if session == session' && (kind == kind' && id == id')
        then some (deep_copy object)
        else get_resource s session' kind' id')
unfolding get_resource put_resource
get_resource-put_resource s session kind id object session' kind' id' =
    rw lookup-insert (elim (Bool-cases (session == session')) [
      | inl same ↦ rw (same) (
          rw ((eq_iff session session').0 same)
            (copied_from-written (lookup session' s.sessions) kind id object kind' id'))
      | inr other ↦ rw other
    ])

resources-or_new :
    (o : Option SessionStore) (kind : String) → lookup kind (or_new o).resources ≡ kind_in o kind
unfolding lookup
resources-or_new none kind = refl
resources-or_new (some sess) kind = refl

-- A write that keeps a session's resources shows in no read.
pub get_resource-put_session :
    (s : StatefulStore) (session : String) (sess : SessionStore) (session' kind id : String)
    → sess.resources ≡ (ensure_session s session).resources
    → get_resource (put_session s session sess) session' kind id ≡ get_resource s session' kind id
unfolding get_resource ensure_session
get_resource-put_session s session sess session' kind id e =
    rw lookup-insert (elim (Bool-cases (session == session')) [
      | inl same ↦ rw same (
          rw (← (eq_iff session session').0 same) (
            ap (λ o. copied_from o id)
              (ap (λ m. lookup kind m) e ∙ resources-or_new (lookup session s.sessions) kind)))
      | inr other ↦ rw other
    ])

-- Neither the queue nor the flag is read with a resource.
pub get_resource-enqueue_event :
    (s : StatefulStore) (session : String) (event : Object) (session' kind id : String)
    → get_resource (enqueue_event s session event) session' kind id
      ≡ get_resource s session' kind id
unfolding enqueue_event
get_resource-enqueue_event s session event session' kind id =
    get_resource-put_session s session _ session' kind id refl

pub get_resource-set_stateful_enabled :
    (s : StatefulStore) (session : String) (b : Bool) (session' kind id : String)
    → get_resource (set_stateful_enabled s session b) session' kind id
      ≡ get_resource s session' kind id
unfolding set_stateful_enabled
get_resource-set_stateful_enabled s session b session' kind id =
    get_resource-put_session s session _ session' kind id refl

-- The intent that was stored last, and every other one.
module _ (s : StatefulStore) (session id : String) (pi : Object) where
  pub get-put_payment_intent_self :
      get_payment_intent (put_payment_intent s session id pi) session id ≡ some (deep_copy pi)
  get-put_payment_intent_self =
      get_resource-put_resource s session "payment_intent" id pi session "payment_intent" id
      ∙ rw (eq_refl session) (rw (eq_refl id))

  pub get-put_payment_intent_other :
      (other : String)
      → (id == other) ≡ false
      → get_payment_intent (put_payment_intent s session id pi) session other
        ≡ get_payment_intent s session other
  get-put_payment_intent_other other h =
      get_resource-put_resource s session "payment_intent" id pi session "payment_intent" other
      ∙ rw h (rw (eq_refl session))
