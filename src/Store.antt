-- ===== src/Store.antt =====
-- The per-session store (server/stateful.go): resources by kind and id, a queue of events and the
-- stateful flag. The read-write lock makes each function one step; Go's pointer to a session is a
-- write back under the session's id.
pub mod Resources
pub mod Sessions
pub mod Events
pub mod Drains
pub mod Refines
use Prim.Native.String.{String}
use stripe_mock_pi.Prelude.{
  Bool, true, false, Option, none, some, List, [], ◌∷◌, ◌++◌, Dict, lookup, insert, delete, keys,
}
use stripe_mock_pi.Text.{sort}
use stripe_mock_pi.Json.{Object, end}
use stripe_mock_pi.Json.Copy.{deep_copy}

abbrev pub payment_intent_resource_id : String
payment_intent_resource_id = "payment_intent"

abbrev pub charge_resource_id : String
charge_resource_id = "charge"

-- sessionStore
pub record SessionStore : Type 0 where
  pub resources : Dict (Dict Object)
  pub events : List Object
  pub stateful_enabled : Bool

abbrev pub new_session_store : SessionStore
new_session_store = record { resources = []; events = []; stateful_enabled = false }

-- statefulStore
pub record StatefulStore : Type 0 where
  pub sessions : Dict SessionStore

abbrev pub new_stateful_store : StatefulStore
new_stateful_store = record { sessions = [] }

abbrev pub or_new : Option SessionStore → SessionStore
or_new none = new_session_store
or_new (some sess) = sess

-- ensureSession
unfoldable pub ensure_session : StatefulStore → String → SessionStore
ensure_session s id = or_new (lookup id s.sessions)

abbrev pub put_session : StatefulStore → String → SessionStore → StatefulStore
put_session s id sess = record s { sessions = insert id sess s.sessions }

unfoldable pub reset : StatefulStore → String → StatefulStore
reset s session = record s { sessions = delete session s.sessions }

unfoldable pub set_stateful_enabled : StatefulStore → String → Bool → StatefulStore
unfolding ensure_session
set_stateful_enabled s session enabled =
    let sess = ensure_session s session in
    put_session s session (record sess { stateful_enabled = enabled })

abbrev pub enabled_in : Option SessionStore → Bool
enabled_in none = false
enabled_in (some sess) = sess.stateful_enabled

unfoldable pub stateful_enabled : StatefulStore → String → Bool
stateful_enabled s session = enabled_in (lookup session s.sessions)

abbrev pub or_empty {ℓ} : {V : Type ℓ} → Option (Dict V) → Dict V
or_empty none = []
or_empty (some by_id) = by_id

-- putResource
unfoldable pub put_resource :
    StatefulStore → (session resource_id id : String) → Object → StatefulStore
unfolding ensure_session
put_resource s session resource_id id object =
    let sess = ensure_session s session in
    let by_id = insert id object (or_empty (lookup resource_id sess.resources)) in
    put_session s session (record sess { resources = insert resource_id by_id sess.resources })

-- The chain of lookups of getResource and listResources: a missing session or kind holds nothing.
abbrev pub kind_in : Option SessionStore → String → Option (Dict Object)
kind_in none resource_id = none
kind_in (some sess) resource_id = lookup resource_id sess.resources

abbrev pub copied_from : Option (Dict Object) → String → Option Object
copied_from none id = none
copied_from (some by_id) id = elim (lookup id by_id) [
  | none ↦ none
  | some object ↦ some (deep_copy object)
]

-- getResource
unfoldable pub get_resource : StatefulStore → (session resource_id id : String) → Option Object
get_resource s session resource_id id =
    copied_from (kind_in (lookup session s.sessions) resource_id) id

abbrev pub or_end : Option Object → Object
or_end none = end
or_end (some object) = object

unfoldable pub copies : Dict Object → List String → List Object
copies by_id [] = []
copies by_id (id ∷ ids) = deep_copy (or_end (lookup id by_id)) ∷ copies by_id ids

abbrev listed : Option (Dict Object) → List Object
listed none = []
listed (some by_id) = copies by_id (sort (keys by_id))

-- listResources
unfoldable pub list_resources : StatefulStore → (session resource_id : String) → List Object
list_resources s session resource_id = listed (kind_in (lookup session s.sessions) resource_id)

unfoldable pub enqueue_event : StatefulStore → String → Object → StatefulStore
unfolding ensure_session
enqueue_event s session event =
    let sess = ensure_session s session in
    put_session s session (record sess { events = sess.events ++ (event ∷ []) })

-- What a drain does with the session that it finds: an empty queue is left as it is.
abbrev pub drain_queue :
    StatefulStore → String → SessionStore → List Object → List Object × StatefulStore
drain_queue s session sess [] = ([], s)
drain_queue s session sess (event ∷ events) =
    (event ∷ events, put_session s session (record sess { events = [] }))

abbrev pub drain_found : StatefulStore → String → Option SessionStore → List Object × StatefulStore
drain_found s session none = ([], s)
drain_found s session (some sess) = drain_queue s session sess sess.events

-- drainEvents
unfoldable pub drain_events : StatefulStore → String → List Object × StatefulStore
drain_events s session = drain_found s session (lookup session s.sessions)

abbrev pub put_payment_intent : StatefulStore → (session id : String) → Object → StatefulStore
put_payment_intent s session id object = put_resource s session payment_intent_resource_id id object

abbrev pub get_payment_intent : StatefulStore → (session id : String) → Option Object
get_payment_intent s session id = get_resource s session payment_intent_resource_id id

abbrev pub put_charge : StatefulStore → (session id : String) → Object → StatefulStore
put_charge s session id object = put_resource s session charge_resource_id id object

abbrev pub get_charge : StatefulStore → (session id : String) → Option Object
get_charge s session id = get_resource s session charge_resource_id id
