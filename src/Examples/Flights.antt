-- ===== src/Examples/Flights.antt =====
-- Two calls for one conversation at the same time, and the provider's methods one after the other.
use cc_tunnel.Common.{
  arith, ℕ, ◌≡◌, refl, true, Option, none, some, List, [], ◌∷◌, ◌==◌, ok, codes, if◌then◌else◌,
}
use cc_tunnel.Db.{EndpointStatus, SessionEndpoint}
use cc_tunnel.Db.Constraints.{IsValid}
use cc_tunnel.Db.Invariant.{set_ip, decrement, touch_endpoint}
use cc_tunnel.Db.Vms
use cc_tunnel.Db.Endpoints.{get_smallest_available_port_on_vm, create_session_endpoint}
use cc_tunnel.Gce.Pick.{pick_healthy_available_vm}
use cc_tunnel.Gce.Wait.{wait_for_agent_ready}
use cc_tunnel.Gce.Endpoint.{get_or_create_endpoint}
use cc_tunnel.Gce.Flight.{returned, Flight, Event, looks, enters, writes, starting, run}
use cc_tunnel.Gce.Flight.Serves.{SameRow, Serves}
use cc_tunnel.Gce.Flight.Agrees.{run-agrees}
use cc_tunnel.Gce.Flight.Once.{run-once}
use cc_tunnel.Gce.Operations.{Operation, executes, prepares, cleans_up, reconciles, perform_all}
use cc_tunnel.Db.Counts.{Counted, nothing_owed}
use cc_tunnel.Gce.Operations.Counters.{perform_all-Counted}
use cc_tunnel.Gce.Cleanup.{cleanup_orphans}
use cc_tunnel.Gce.Cleanup.Spares.{Spares, cleanup_orphans-Spares}
use cc_tunnel.Examples.Data.{with_endpoint, without_endpoint, world, config, outside}

-- Both calls miss, the first one runs, and the second one shares its flight.
abbrev together : List Event
together = looks 0 ∷ looks 1 ∷ writes (set_ip 8 (codes "10.0.0.8")) ∷ enters 0 ∷ enters 1 ∷ []

abbrev shares_first : ℕ → Option ℕ
shares_first i = if i == 1 then some 0 else none

abbrev both : Flight
both = run (outside true) config 40 shares_first together (starting (world without_endpoint))

abbrev created : SessionEndpoint
created = record {
  id = 61;
  conversation_id = 40;
  vm_instance_id = 7;
  container_name = codes "session-(";
  port = 61000;
  status = EndpointStatus.running;
  last_activity = 1000;
  created_at = 1000;
}

-- The first call's result, and the second one's.
first_back : both.calls 0 ≡ returned (ok created)
unfolding run get_or_create_endpoint Vms.update_vm_instance_ip pick_healthy_available_vm
    Vms.get_available_vm_instance get_smallest_available_port_on_vm wait_for_agent_ready
    create_session_endpoint Vms.increment_vm_active_containers
first_back = refl

second_back : both.calls 1 ≡ returned (ok created)
unfolding run get_or_create_endpoint Vms.update_vm_instance_ip pick_healthy_available_vm
    Vms.get_available_vm_instance get_smallest_available_port_on_vm wait_for_agent_ready
    create_session_endpoint Vms.increment_vm_active_containers
second_back = refl

run-agrees_example : SameRow created created × Serves 40 created both.world.db
run-agrees_example =
    run-agrees (outside true) config 40 shares_first together (world without_endpoint) refl 0 1
      created created first_back second_back

-- A third call looks after that and runs its own flight, and the database goes on being used.
abbrev later : List Event
later =
    looks 2 ∷ writes (touch_endpoint 1500 40) ∷ writes (decrement 1500 7) ∷ looks 3 ∷ enters 3 ∷ []

run-once_example :
    (run (outside true) config 40 shares_first later both).world.sent ≡ both.world.sent
run-once_example =
    run-once (outside true) config 40 (λ n. refl) shares_first together later
      (world without_endpoint) refl refl 0 created first_back

abbrev operations : List Operation
operations = executes 40 ∷ cleans_up ∷ prepares 41 ∷ reconciles ∷ []

with_endpoint-IsValid : IsValid with_endpoint
with_endpoint-IsValid = record { apart = (refl, tt); distinct = (refl, tt); bound = (refl, tt) }

with_endpoint-Counted : Counted 10 nothing_owed with_endpoint
with_endpoint-Counted = record { valid = with_endpoint-IsValid; fits = ((refl, omega arith), tt) }

perform_all-Counted_example :
    Counted 10 nothing_owed (perform_all (outside true) config operations (world with_endpoint)).db
perform_all-Counted_example =
    perform_all-Counted (outside true) config (λ n. refl) (omega arith) operations
      (world with_endpoint) with_endpoint-Counted

-- The endpoint has been idle; then its VM is.
cleanup_orphans-Spares_example :
    Spares 7 (codes "cc-tunnel-7") (cleanup_orphans (outside true) config (world with_endpoint)).1
cleanup_orphans-Spares_example =
    cleanup_orphans-Spares (outside true) config 7 (codes "cc-tunnel-7") (λ n. refl)
      (world with_endpoint) with_endpoint-Counted ((λ s. refl), tt) refl
