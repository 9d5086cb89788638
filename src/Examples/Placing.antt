-- ===== src/Examples/Placing.antt =====
-- An endpoint for a conversation, on the VM that there is, and the clean-up after it was idle.
use mathlib.Core.List.{Memᴰ}
use cc_tunnel.Common.{◌≡◌, refl, true, Holds}
use cc_tunnel.Db.{SessionEndpoint}
use cc_tunnel.Db.Vms.{get_vm_instance, list_idle_vm_instances, decrement_vm_active_containers}
use cc_tunnel.Db.Endpoints.{is_idle_endpoint, list_idle_session_endpoints, delete_session_endpoint}
use cc_tunnel.Gce.Endpoint.{get_or_create_endpoint, discard}
use cc_tunnel.Gce.Endpoint.Found.{FoundIn, get_or_create_endpoint-Found}
use cc_tunnel.Gce.Cleanup.{
  stop_on, stop_agent, clean_endpoint, clean_endpoints, clean_idle_endpoints, clean_idle_vms,
  cleanup_orphans,
}
use cc_tunnel.Gce.Cleanup.Sound.{cleanup_orphans-Idle}
use cc_tunnel.Examples.Data.{with_endpoint, without_endpoint, world, config, outside}

get_or_create_endpoint-Found_example :
    Holds
      (λ ep w. FoundIn 40 ep w.db)
      (get_or_create_endpoint (outside true) config 40 (world without_endpoint))
get_or_create_endpoint-Found_example =
    get_or_create_endpoint-Found (outside true) config 40 (world without_endpoint)

cleanup_orphans-Idle_example :
    (ep : SessionEndpoint) × Memᴰ ep with_endpoint.endpoints
    × (ep.id ≡ 1)
    × (is_idle_endpoint 1000 900 ep ≡ true)
unfolding cleanup_orphans clean_idle_endpoints clean_idle_vms clean_endpoints clean_endpoint
    stop_agent stop_on discard list_idle_session_endpoints delete_session_endpoint
    list_idle_vm_instances decrement_vm_active_containers get_vm_instance
cleanup_orphans-Idle_example =
    cleanup_orphans-Idle (outside true) config 1 (world with_endpoint) refl refl
