-- ===== src/Gce/Pick.antt =====
-- pickHealthyAvailableVM of provider.go: reuse a VM whose container-manager answers.
pub mod Laws
pub mod Kept
use cc_tunnel.Common.{
  ℕ, zero, suc, Bool, true, false, if◌then◌else◌, ok, err, Error, unavailable, exhausted, Action,
  pure, fail, ignoring, unless_ok, ◌>>=◌, ◌>>◌, Result, Option, none, some,
}
use cc_tunnel.Db.{VmStatus, VmInstance}
use cc_tunnel.Db.Vms.{get_available_vm_instance, update_vm_instance_status}
use cc_tunnel.Gce.{Config, Outside, World, query, ask}

module _ (o : Outside) (cfg : Config) where
  unfoldable pub mark_unhealthy : VmInstance → Action World (Unit {0})
  mark_unhealthy vm = query o (λ now id. update_vm_instance_status vm.id VmStatus.unhealthy)

  -- The loop body behind GetAvailableVMInstance; `again` is the rest of the loop.
  try_vm : Action World VmInstance → VmInstance → Action World VmInstance
  unfolding mark_unhealthy
  try_vm again vm = do
    made ← ask o (λ n. o.client_ok n vm.internal_ip)
    if made
        then (do
          ready ← ask o (λ n. o.is_ready n vm.internal_ip)
          if ready then pure vm else (mark_unhealthy vm >> again))
        else ignoring (mark_unhealthy vm) again

  -- The attempts left; the last error is the one returned, of a VM that cannot be reached.
  unfoldable pub pick : ℕ → Action World VmInstance
  unfolding try_vm
  pick zero = fail unavailable
  pick (suc n) = do
    vm ← query o (λ now id. get_available_vm_instance cfg.max_containers)
    try_vm (pick n) vm

  unfoldable pub pick_healthy_available_vm : Action World VmInstance
  unfolding pick
  pick_healthy_available_vm = pick 5
