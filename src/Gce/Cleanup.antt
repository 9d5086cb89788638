-- ===== src/Gce/Cleanup.antt =====
-- CleanupOrphans of provider.go.
pub mod Rows
pub mod Forgets
pub mod Sound
pub mod Kept
pub mod Counters
pub mod Spares
use cc_tunnel.Common.{
  ℕ, Bool, true, false, List, [], ◌∷◌, Text, if◌then◌else◌, is_empty, Result, ok, err, Action, pure,
  ignoring, unless_ok, ◌>>=◌, ◌>>◌,
}
use cc_tunnel.Db.{SessionEndpoint, VmInstance}
use cc_tunnel.Db.Vms.{
  get_vm_instance, decrement_vm_active_containers, list_idle_vm_instances, delete_vm_instance,
}
use cc_tunnel.Db.Endpoints.{list_idle_session_endpoints, delete_session_endpoint}
use cc_tunnel.Gce.{Config, Outside, World, query, ask, send, delete_instance}
use cc_tunnel.Gce.Endpoint.{discard}

module _ (o : Outside) (cfg : Config) where
  nothing : Action World (Unit {0})
  nothing = pure tt

  -- Stop and remove the container on its VM, if that has an address.
  unfoldable pub stop_on : SessionEndpoint → VmInstance → Action World (Unit {0})
  unfolding nothing
  stop_on ep vm = if is_empty vm.internal_ip then nothing else do
    made ← ask o (λ k. o.client_ok k vm.internal_ip)
    if made then discard o cfg vm.internal_ip ep.container_name nothing else nothing

  -- The same if the VM is known.
  unfoldable pub stop_agent : SessionEndpoint → Action World (Unit {0})
  unfolding stop_on nothing
  stop_agent ep =
      unless_ok (query o (λ now id. get_vm_instance ep.vm_instance_id)) nothing (stop_on ep)

  unfoldable pub clean_endpoint : SessionEndpoint → Action World (Unit {0})
  unfolding stop_agent
  clean_endpoint ep = ignoring (stop_agent ep) (
      ignoring (query o (λ now id. decrement_vm_active_containers now ep.vm_instance_id))
        (query o (λ now id. delete_session_endpoint ep.id)))

  unfoldable pub clean_endpoints : List SessionEndpoint → Action World (Unit {0})
  clean_endpoints [] = pure tt
  clean_endpoints (ep ∷ eps) = do clean_endpoint ep; clean_endpoints eps

  unfoldable pub clean_vm : VmInstance → Action World (Unit {0})
  clean_vm vm =
      ignoring (send o (delete_instance vm.gce_instance_name))
        (query o (λ now id. delete_vm_instance vm.id))

  unfoldable pub clean_vms : List VmInstance → Action World (Unit {0})
  clean_vms [] = pure tt
  clean_vms (vm ∷ vms) = do clean_vm vm; clean_vms vms

  unfoldable pub clean_idle_endpoints : Action World (Unit {0})
  unfolding clean_endpoints
  clean_idle_endpoints =
      query o (λ now id. list_idle_session_endpoints now cfg.idle_timeout) >>= clean_endpoints

  unfoldable pub clean_idle_vms : Action World (Unit {0})
  unfolding clean_vms
  clean_idle_vms = query o (λ now id. list_idle_vm_instances now cfg.idle_timeout) >>= clean_vms

  unfoldable pub cleanup_orphans : Action World (Unit {0})
  unfolding clean_idle_endpoints clean_idle_vms
  cleanup_orphans = clean_idle_endpoints >> clean_idle_vms
