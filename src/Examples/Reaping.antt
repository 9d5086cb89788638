-- ===== src/Examples/Reaping.antt =====
-- VMs that are reaped, by themselves and by the provider.
use cc_tunnel.Common.{
  ℕ, ◌≡◌, refl, ap, inl, inr, true, false, Option, none, some, List, [], ◌∷◌, err, constraint, map,
  any, arith,
}
use mathlib.Core.List.{Memᴰ}
use mathlib.Core.List.Memᴰ.{not-nil, cases_cons}
use cc_tunnel.Db.{VmInstance}
use cc_tunnel.Db.Vms.{list_running_vm_instances, delete_vm_instance}
use cc_tunnel.SelfReaper
use cc_tunnel.SelfReaper.{Observation, deleted, Event, ctx_done, ticked, new, run}
use cc_tunnel.SelfReaper.Safety.{DeletedAfter, run-deleted}
use cc_tunnel.SelfReaper.Liveness.{run-due}
use cc_tunnel.Gce.Reconcile.{reconcile_vm, reconcile_vms}
use cc_tunnel.Gce.Reconcile.Step.{is_deletion}
use cc_tunnel.Gce.Reconcile.Safety.{ReapedOneOf, reconcile_vms-Reaped}
use cc_tunnel.Gce.Reconcile.Orphans.{Orphaned, reconcile_vms-orphan}
use cc_tunnel.Gce.Pick.{pick_healthy_available_vm}
use cc_tunnel.Gce.Pick.Laws.{db-pick_healthy_available_vm}
use cc_tunnel.Examples.Data.{idle_vm, with_endpoint, without_endpoint, world, config, outside}

abbrev minute : SelfReaper.Config
minute = record { interval = 0; timeout = 60 }

abbrev seen : Option ℕ → ℕ → Observation
seen count now = record { count = count; now = now; accepts = true }

-- Zero at 10, a failed count at 50, zero again at 70.
abbrev observations : List Observation
observations = seen none 50 ∷ seen (some 0) 70 ∷ []

run-due_example :
    run (new minute) true true true (map ticked (seen (some 0) 10 ∷ observations)) ≡ deleted
unfolding new
run-due_example = run-due minute (seen (some 0) 10) observations refl (refl, (refl, tt)) refl

run-deleted_example :
    DeletedAfter (new minute).cfg.timeout [] (map ticked (seen (some 0) 10 ∷ observations))
run-deleted_example = run-deleted minute true true true _ run-due_example

reconcile_vms-Reaped_example :
    ReapedOneOf
      (outside true)
      config
      (idle_vm ∷ [])
      7
      (reconcile_vms (outside true) config (world without_endpoint)).1
unfolding reconcile_vms reconcile_vm list_running_vm_instances delete_vm_instance
reconcile_vms-Reaped_example =
    reconcile_vms-Reaped (outside true) config 7 (world without_endpoint) (omega arith) (refl, refl)

-- The round deletes the instance, is refused the row, and says so.
orphan_test :
    ((reconcile_vms (outside true) config (world with_endpoint)).0 ≡ err constraint)
    × (any
          (is_deletion idle_vm.gce_instance_name)
          (reconcile_vms (outside true) config (world with_endpoint)).1.sent
        ≡ true)
unfolding reconcile_vms reconcile_vm list_running_vm_instances delete_vm_instance
orphan_test = (refl, refl)

only_vm : (vm : VmInstance) → Memᴰ vm with_endpoint.vms → vm.id ≡ 7
only_vm vm m = elim (cases_cons m) [ inl e ↦ ap (λ v. v.id) e | inr n ↦ absurd (not-nil n) ]

reconcile_vms-orphan_example :
    Orphaned
      (outside true)
      config
      7
      idle_vm.gce_instance_name
      (reconcile_vms (outside true) config (world with_endpoint))
reconcile_vms-orphan_example =
    reconcile_vms-orphan (outside true) config 7 idle_vm.gce_instance_name (world with_endpoint)
      (λ vm m same. only_vm vm m) (refl, refl) refl

db-pick_healthy_available_vm_example :
    (pick_healthy_available_vm (outside false) config (world with_endpoint)).1.db ≡ with_endpoint
db-pick_healthy_available_vm_example =
    db-pick_healthy_available_vm (outside false) config (world with_endpoint)
