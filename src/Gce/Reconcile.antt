-- ===== src/Gce/Reconcile.antt =====
-- ReconcileVMs of provider.go: reap VMs on which container-manager keeps counting no agent.
pub mod Step
pub mod Safety
pub mod Orphans
pub mod Kept
use cc_tunnel.Common.{
  ℕ, zero, suc, ◌-◌, Bool, true, false, Option, none, some, List, [], ◌∷◌, ltb, if◌then◌else◌,
  is_some, is_empty, ok, err, Action, pure, ignoring, unless_ok, ◌>>=◌, ◌>>◌,
}
use cc_tunnel.Db.{VmInstance}
use cc_tunnel.Db.Vms.{list_running_vm_instances, set_vm_zero_agents_since, delete_vm_instance}
use cc_tunnel.Gce.{Config, Outside, World, query, ask, send, delete_instance}

abbrev continue : Action World (Unit {0})
continue = pure tt

module _ (o : Outside) (cfg : Config) where
  -- GCE first; a refusal leaves the row for the next round.
  unfoldable pub reap : VmInstance → Action World (Unit {0})
  reap vm =
      unless_ok (send o (delete_instance vm.gce_instance_name)) continue
        (λ _. query o (λ now id. delete_vm_instance vm.id))

  -- The agent count is zero.
  unfoldable pub on_no_agents : VmInstance → Action World (Unit {0})
  unfolding reap
  on_no_agents vm = do
    now ← ask o o.now
    elim vm.zero_agents_since [
      | none ↦ ignoring (query o (λ _ id. set_vm_zero_agents_since vm.id (some now))) continue
      | some since ↦ if ltb (now - since) cfg.zero_agents_timeout then continue else reap vm
    ]

  on_agents : VmInstance → ℕ → Action World (Unit {0})
  unfolding on_no_agents
  on_agents vm zero = on_no_agents vm
  on_agents vm (suc n) =
      if is_some vm.zero_agents_since
      then ignoring (query o (λ now id. set_vm_zero_agents_since vm.id none)) continue
      else continue

  -- ListAgents, whose failure leaves the VM untouched.
  probe : VmInstance → Action World (Unit {0})
  unfolding on_agents
  probe vm = do
    listed ← ask o (λ n. o.list_agents n vm.internal_ip)
    elim listed [ none ↦ continue | some n ↦ on_agents vm n ]

  unfoldable pub reconcile_vm : VmInstance → Action World (Unit {0})
  unfolding probe
  reconcile_vm vm =
      if is_empty vm.internal_ip
      then continue
      else do made ← ask o (λ n. o.client_ok n vm.internal_ip); if made then probe vm else continue

  unfoldable pub reconcile_each : List VmInstance → Action World (Unit {0})
  reconcile_each [] = continue
  reconcile_each (vm ∷ vms) = do reconcile_vm vm; reconcile_each vms

  unfoldable pub reconcile_vms : Action World (Unit {0})
  unfolding reconcile_each
  reconcile_vms = do vms ← query o (λ now id. list_running_vm_instances); reconcile_each vms
