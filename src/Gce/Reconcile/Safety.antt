-- ===== src/Gce/Reconcile/Safety.antt =====
-- Which VMs a round of ReconcileVMs may reap.
use cc_tunnel.Common.{
  ℕ, ◌+◌, ◌≡◌, refl, ◌⊎◌, inl, inr, Bool, true, false, List, [], ◌∷◌, arith, any, Bool-cases,
  select, sort_by, sort_by-mem, ◌<◌,
}
use mathlib.Core.List.{Memᴰ}
use cc_tunnel.Db.{VmInstance}
use cc_tunnel.Db.Vms.{is_running, list_running_vm_instances, has_id}
use cc_tunnel.Gce.{Config, Outside, World, Request}
use cc_tunnel.Gce.Reconcile.Step.{Reaped, Forgets, reconcile_vm-Reaped}
use cc_tunnel.Gce.Reconcile.{reconcile_vm, reconcile_each, reconcile_vms}

module _ (o : Outside) (cfg : Config) where
  -- Requests are only added.
  sent-reconcile_vm :
      (p : Request × Bool → Bool) (vm : VmInstance) (w : World)
      → any p w.sent ≡ true
      → any p (reconcile_vm o cfg vm w).1.sent ≡ true
  unfolding reconcile_vm
  sent-reconcile_vm p vm w h = ground arith

  sent-reconcile_each :
      (p : Request × Bool → Bool) (vms : List VmInstance) (w : World)
      → any p w.sent ≡ true
      → any p (reconcile_each o cfg vms w).1.sent ≡ true
  unfolding reconcile_each
  sent-reconcile_each p [] w h = h
  sent-reconcile_each p (vm ∷ vms) w h =
      ground
        (arith, sent-reconcile_vm p vm w, sent-reconcile_each p vms (reconcile_vm o cfg vm w).1)

  abbrev pub ReapedOneOf : List VmInstance → ℕ → World → Type 0
  ReapedOneOf vms i w = (vm : VmInstance) × Memᴰ vm vms × (vm.id ≡ i) × Reaped o cfg vm w

  keep_Reaped :
      (vm : VmInstance) (w w' : World)
      → ((p : Request × Bool → Bool) → any p w.sent ≡ true → any p w'.sent ≡ true)
      → Reaped o cfg vm w
      → Reaped o cfg vm w'
  keep_Reaped vm w w' grows r = record {
    probed_at = r.probed_at;
    no_agent = r.no_agent;
    checked_at = r.checked_at;
    since = r.since;
    stamped = r.stamped;
    aged = r.aged;
    deleted = grows _ r.deleted;
  }

  each-cons :
      (vm : VmInstance) (vms : List VmInstance) (w : World)
      → ((reconcile_each o cfg (vm ∷ vms) w).1 ≡ (reconcile_vm o cfg vm w).1)
        ⊎ ((reconcile_each o cfg (vm ∷ vms) w).1
            ≡ (reconcile_each o cfg vms (reconcile_vm o cfg vm w).1).1)
  unfolding reconcile_each
  each-cons vm vms w = ground arith

  reconcile_each-Forgets :
      (vms : List VmInstance) (i : ℕ) (w : World)
      → 0 < cfg.zero_agents_timeout
      → Forgets i w (reconcile_each o cfg vms w).1
      → ReapedOneOf vms i (reconcile_each o cfg vms w).1
  reconcile_each-Forgets [] i w pos (here, gone) = absurd (unfold reconcile_each in ground arith)
  reconcile_each-Forgets (vm ∷ vms) i w pos (here, gone) = elim (each-cons vm vms w) [
    | inl e ↦ rw e (
        let (same, r) = reconcile_vm-Reaped o cfg vm i w pos (here, rw e at gone) in
        (vm, Memᴰ.head refl, same, r))
    | inr e ↦ rw e (
        split (Bool-cases (any (has_id i) (reconcile_vm o cfg vm w).1.db.vms)) (λ still.
          reconcile_each-Forgets vms i (reconcile_vm o cfg vm w).1 pos (still, rw e at gone)))
  ]
    where
      after : World
      after = (reconcile_vm o cfg vm w).1

      split :
          (any (has_id i) after.db.vms ≡ true) ⊎ (any (has_id i) after.db.vms ≡ false)
          → (any (has_id i) after.db.vms ≡ true
              → ReapedOneOf vms i (reconcile_each o cfg vms after).1)
          → ReapedOneOf (vm ∷ vms) i (reconcile_each o cfg vms after).1
      split (inl still) rest = let (vm', m, same, r) = rest still in (vm', Memᴰ.tail m, same, r)
      split (inr lost) rest =
          let (same, r) = reconcile_vm-Reaped o cfg vm i w pos (here, lost) in
          (
            vm,
            Memᴰ.head refl,
            same,
            keep_Reaped vm after _ (λ p. sent-reconcile_each p vms after) r,
          )

  -- With a timeout above 0, a VM row that is gone after a round of ReconcileVMs belonged to a VM
  -- of the table at its start that was running and had a zero-agents time; in the round its
  -- container-manager counted zero agents, the timeout had passed since that time, and GCE
  -- accepted the deletion of the instance.
  pub reconcile_vms-Reaped :
      (i : ℕ) (w : World)
      → 0 < cfg.zero_agents_timeout
      → Forgets i w (reconcile_vms o cfg w).1
      → ReapedOneOf (select (λ vm. is_running vm.status) w.db.vms) i (reconcile_vms o cfg w).1
  unfolding reconcile_vms list_running_vm_instances
  reconcile_vms-Reaped i w pos (here, gone) = elim (Bool-cases (o.db_answers w.calls)) [
    | inl e ↦ rw e (
        unsorted _
          (reconcile_each-Forgets _ i (record w { calls = w.calls + 1 }) pos (here, rw e at gone)))
    | inr e ↦ absurd (ground arith)
  ]
    where
      running : List VmInstance
      running = select (λ vm. is_running vm.status) w.db.vms

      unsorted :
          (v : World)
          → ReapedOneOf (sort_by (λ vm. vm.created_at) running) i v
          → ReapedOneOf running i v
      unsorted v (vm, m, same, r) = (vm, sort_by-mem (λ x. x.created_at) running m, same, r)
