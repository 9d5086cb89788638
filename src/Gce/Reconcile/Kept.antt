-- ===== src/Gce/Reconcile/Kept.antt =====
-- ReconcileVMs keeps what the repository's writes keep.
use cc_tunnel.Common.{
  ℕ, zero, suc, ◌≡◌, refl, true, ◌+◌, ◌-◌, ltb, List, [], ◌∷◌, Option, none, some, is_some,
  is_empty, if◌then◌else◌, Action, ignoring, ◌>>=◌, Keeps-if, Keeps-bind, Keeps-unless_ok,
}
use cc_tunnel.Db.{Db, VmInstance}
use cc_tunnel.Db.Vms.{list_running_vm_instances, set_vm_zero_agents_since, delete_vm_instance}
use cc_tunnel.Db.Invariant.{Statement, exec, set_zero_agents, delete_vm}
use cc_tunnel.Db.Counts.Writes.{is_quiet}
use cc_tunnel.Gce.{Config, Outside, World, query, ask, send, delete_instance}
use cc_tunnel.Gce.Keeps.{OfDb, Kept, Kept-query}
use cc_tunnel.Gce.Reconcile.{
  continue, reap, on_no_agents, on_agents, probe, reconcile_vm, reconcile_each, reconcile_vms,
}

module _ (o : Outside) (cfg : Config) (I : Db → Type 0)
    (kept : (s : Statement) → is_quiet s ≡ true → (d : Db) → I d → I (exec s d)) where
  abbrev K : {A : Type 0} → Action World A → Type 0
  K m = Kept o I m

  Kept-reap : (vm : VmInstance) → K (reap o cfg vm)
  unfolding reap exec
  Kept-reap vm =
      Keeps-unless_ok (OfDb o I) (send o (delete_instance vm.gce_instance_name)) continue
        (λ _. query o (λ now id. delete_vm_instance vm.id)) (λ v j. j) (λ v j. j)
        λ _.
          Kept-query o I (λ now id. delete_vm_instance vm.id)
            (λ now id d j. kept (delete_vm vm.id) refl d j)

  Kept-marked :
      (vm : VmInstance) (t : ℕ → Option ℕ)
      → K (ignoring (query o (λ now id. set_vm_zero_agents_since vm.id (t now))) continue)
  unfolding exec
  Kept-marked vm t v j =
      Kept-query o I (λ now id. set_vm_zero_agents_since vm.id (t now))
        (λ now id d k. kept (set_zero_agents vm.id (t now)) refl d k) v j

  Kept-on_no_agents : (vm : VmInstance) → K (on_no_agents o cfg vm)
  unfolding on_no_agents
  Kept-on_no_agents vm w i = go vm.zero_agents_since
    where
      v : World
      v = record w { calls = w.calls + 1 }

      go :
          (t : Option ℕ)
          → I
              ((elim t as (λ _. Action World (Unit {0})) [
                | none ↦
                    ignoring
                      (query o (λ _ id. set_vm_zero_agents_since vm.id (some (o.now w.calls))))
                      continue
                | some since ↦
                    if ltb (o.now w.calls - since) cfg.zero_agents_timeout
                    then continue
                    else reap o cfg vm
              ])
                (record w { calls = w.calls + 1 })).1.db
      go none = Kept-marked vm (λ _. some (o.now w.calls)) v i
      go (some since) =
          Keeps-if (OfDb o I) (ltb (o.now w.calls - since) cfg.zero_agents_timeout) continue
            (reap o cfg vm) (λ u k. k) (Kept-reap vm) v i

  Kept-on_agents : (vm : VmInstance) (n : ℕ) → K (on_agents o cfg vm n)
  unfolding on_agents
  Kept-on_agents vm zero w i = Kept-on_no_agents vm w i
  Kept-on_agents vm (suc n) w i =
      Keeps-if (OfDb o I) (is_some vm.zero_agents_since)
        (ignoring (query o (λ now id. set_vm_zero_agents_since vm.id none)) continue) continue
        (Kept-marked vm (λ _. none)) (λ v j. j) w i

  Kept-probe : (vm : VmInstance) → K (probe o cfg vm)
  unfolding probe
  Kept-probe vm w i = go (o.list_agents w.calls vm.internal_ip)
    where
      go :
          (a : Option ℕ)
          → I
              ((elim a as (λ _. Action World (Unit {0})) [
                | none ↦ continue
                | some n ↦ on_agents o cfg vm n
              ])
                (record w { calls = w.calls + 1 })).1.db
      go none = i
      go (some n) = Kept-on_agents vm n (record w { calls = w.calls + 1 }) i

  Kept-reconcile_vm : (vm : VmInstance) → K (reconcile_vm o cfg vm)
  unfolding reconcile_vm
  Kept-reconcile_vm vm =
      Keeps-if (OfDb o I) (is_empty vm.internal_ip) continue made (λ v j. j)
        λ v j.
          Keeps-if (OfDb o I) (o.client_ok v.calls vm.internal_ip) (probe o cfg vm) continue
            (Kept-probe vm) (λ u k. k) (record v { calls = v.calls + 1 }) j
    where
      made : Action World (Unit {0})
      made = do
        made ← ask o (λ n. o.client_ok n vm.internal_ip)
        if made then probe o cfg vm else continue

  Kept-reconcile_each : (vms : List VmInstance) → K (reconcile_each o cfg vms)
  unfolding reconcile_each
  Kept-reconcile_each [] w i = i
  Kept-reconcile_each (vm ∷ vms) w i =
      Keeps-bind (OfDb o I) (reconcile_vm o cfg vm) (λ _. reconcile_each o cfg vms)
        (Kept-reconcile_vm vm) (λ _. Kept-reconcile_each vms) w i

  pub Kept-reconcile_vms : K (reconcile_vms o cfg)
  unfolding reconcile_vms list_running_vm_instances
  Kept-reconcile_vms =
      Keeps-bind (OfDb o I) (query o (λ now id. list_running_vm_instances)) (reconcile_each o cfg)
        (Kept-query o I (λ now id. list_running_vm_instances) (λ now id d j. j)) Kept-reconcile_each
