-- ===== src/Tests/Stores.antt =====
-- The theorems on the store, the control plane and the isolation of sessions.
use Prim.Native.String.{String}
use stripe_mock_pi.Prelude.{
  ◌≡◌, refl, Bool, true, false, List, [], ◌∷◌, ◌++◌, some, none, ◌==◌, ◌&&◌, if◌then◌else◌, ◌≢◌,
  lookup, Option,
}
use stripe_mock_pi.Json.{str, obj, Object, end}
use stripe_mock_pi.Json.Copy.{deep_copy}
use stripe_mock_pi.Store.{
  get_resource, put_resource, list_resources, stateful_enabled, drain_events, new_stateful_store,
}
use stripe_mock_pi.Store.Sessions.{
  clear, enable, write, enqueue, drain, Operation, run, run-isolated,
}
use stripe_mock_pi.Store.Events.{queue, enqueued, delivered, delivered_in_order}
use stripe_mock_pi.Store.Refines.{Shows, nothing, perform_all, run-Shows}
use stripe_mock_pi.Store.Resources.{get_resource-put_resource}
use stripe_mock_pi.Session.{session_id, mock_session_header}
use stripe_mock_pi.Server.{Request, object}
use stripe_mock_pi.Stateful.{handle_enabled}
use stripe_mock_pi.Stateful.Guarded.{handle_enabled-Quiet}
use stripe_mock_pi.Control.{ControlRequest, eof, seed_object}
use stripe_mock_pi.Control.Seeding.{Seeded, seed_object-Seeded}
use stripe_mock_pi.Tests.{config, server, store, held, paid}

abbrev bob_headers : String → String
bob_headers name = if name == mock_session_header then "bob" else ""

abbrev alice_headers : String → String
alice_headers name = if name == mock_session_header then "alice" else ""

bob_is_not_alice : (session_id bob_headers == "alice") ≡ false
unfolding session_id
bob_is_not_alice = refl

-- Operations of another session.
abbrev bob_works : List Operation
bob_works =
    ("bob", enable true)
    ∷ ("bob", write "payment_intent" "pi_held" paid)
    ∷ ("bob", enqueue held)
    ∷ ("bob", clear)
    ∷ []

run-isolated_example :
    (get_resource (run bob_works store) "alice" "payment_intent" "pi_held"
      ≡ get_resource store "alice" "payment_intent" "pi_held")
    × (list_resources (run bob_works store) "alice" "payment_intent"
        ≡ list_resources store "alice" "payment_intent")
    × (stateful_enabled (run bob_works store) "alice" ≡ stateful_enabled store "alice")
    × ((drain_events (run bob_works store) "alice").0 ≡ (drain_events store "alice").0)
run-isolated_example =
    run-isolated "alice" bob_works store "payment_intent" "pi_held"
      (refl, (refl, (refl, (refl, tt))))

abbrev queueing : List Operation
queueing =
    ("alice", enqueue held) ∷ ("bob", clear) ∷ ("alice", drain) ∷ ("alice", enqueue paid) ∷ []

delivered_in_order_example :
    delivered "alice" queueing store ++ queue "alice" (run queueing store)
    ≡ queue "alice" store ++ enqueued "alice" queueing
delivered_in_order_example = delivered_in_order "alice" queueing store (tt, (refl, (tt, (tt, tt))))

get_resource-put_resource_example :
    get_resource (put_resource store "alice" "charge" "ch_1" held) "alice" "charge" "ch_1" ≡ (
      if "alice" == "alice" && ("charge" == "charge" && "ch_1" == "ch_1")
      then some (deep_copy held)
      else get_resource store "alice" "charge" "ch_1")
get_resource-put_resource_example =
    get_resource-put_resource store "alice" "charge" "ch_1" held "alice" "charge" "ch_1"

-- A create in another session.
abbrev bob_creates : Request
bob_creates = record {
  method = "POST";
  path = "/v1/payment_intents";
  header = bob_headers;
  resource_id = "payment_intent";
  path_params = none;
  params = end;
}

-- A request for a charge that is not there is left to the generator.
abbrev unknown_charge : Request
unknown_charge = record {
  method = "GET";
  path = "/v1/charges/ch_none";
  header = alice_headers;
  resource_id = "charge";
  path_params =
      some (record { primary_id = some "ch_none"; secondary_ids = []; replaced_primary_id = none });
  params = end;
}

handle_enabled-Quiet_example :
    (handle_enabled config "alice" unknown_charge server).1.store ≡ server.store
unfolding handle_enabled stripe_mock_pi.Text.has_suffix get_resource lookup
    stripe_mock_pi.Store.set_stateful_enabled stripe_mock_pi.Prelude.insert put_resource
handle_enabled-Quiet_example = handle_enabled-Quiet config "alice" unknown_charge server tt

abbrev bob_resets : ControlRequest
bob_resets = record {
  method = "POST";
  path = "/v1/_mock/reset";
  header = bob_headers;
  query = λ name. "";
  body = eof;
}

seed_object-Seeded_example : Seeded "bob" held (seed_object config "bob" held server)
seed_object-Seeded_example = seed_object-Seeded config "bob" held server

abbrev overrides : Object
overrides =
    object
      (("status", str "canceled") ∷ ("metadata", obj (object (("order", str "6735") ∷ []))) ∷ [])

run-Shows_example : Shows (run queueing new_stateful_store) (perform_all queueing nothing)
run-Shows_example = run-Shows queueing
