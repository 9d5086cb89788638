-- ===== src/Gce/Reconcile/Orphans.antt =====
-- ReconcileVMs meets the foreign key of session_endpoints.
use cc_tunnel.Common.{
  ℕ, ◌+◌, ◌≡◌, refl, ◌∙◌, ◌⊎◌, inl, inr, Bool, true, false, ◌&&◌, not, Option, none, some, is_empty,
  zero, suc, List, [], ◌∷◌, Text, Result, ok, err, arith, constraint, Option-cases, ◌>>=◌, ◌==◌,
  any, sort_by-mem, Memᴰ-select, same_text, any-select_kept, any-update_where, Bool-cases,
}
use mathlib.Core.List.{Memᴰ}
use native.Mathlib.Decide.{ℕ_discrete}
use cc_tunnel.Db.{VmInstance, Db}
use cc_tunnel.Db.Vms.{
  has_id, is_running, list_running_vm_instances, delete_vm_instance, set_vm_zero_agents_since,
}
use cc_tunnel.Gce.{Config, Outside, World}
use cc_tunnel.Gce.Reconcile.Step.{is_deletion}
use cc_tunnel.Gce.Reconcile.{
  reap, on_no_agents, on_agents, probe, reconcile_vm, reconcile_each, reconcile_vms,
}

-- The VM has a row, and so has an endpoint on it.
abbrev pub Hosts : ℕ → Db → Type 0
Hosts i d = (any (has_id i) d.vms ≡ true) × (any (λ ep. ep.vm_instance_id == i) d.endpoints ≡ true)

abbrev pub is_err : {A : Type 0} → Result A → Bool
is_err (ok a) = false
is_err (err e) = true

Hosts-delete_vm : (i j : ℕ) (d : Db) → Hosts i d → Hosts i (delete_vm_instance j d).1
unfolding delete_vm_instance
Hosts-delete_vm i j d h = elim (ℕ_discrete j i) [
  | yes e ↦ rw (e, h.0, h.1) h
  | no n ↦
      elim (Bool-cases (any (has_id j) d.vms && any (λ ep. ep.vm_instance_id == j) d.endpoints)) [
        | inl g ↦ rw g h
        | inr g ↦ rw g (
          any-select_kept (has_id i) (λ vm. not (has_id j vm)) (λ a k. kept n a k) d.vms ∙ h.0,
          h.1,
        )
      ]
]
  where
    kept : (j ≡ i → ⊥) → (a : VmInstance) → has_id i a ≡ true → not (has_id j a) ≡ true
    kept n a k = ground arith

refused : (i : ℕ) (d : Db) → Hosts i d → (delete_vm_instance i d).0 ≡ err constraint
unfolding delete_vm_instance
refused i d h = rw (h.0, h.1) refl

Hosts-set_zero :
    (i j : ℕ) (t : Option ℕ) (d : Db) → Hosts i d → Hosts i (set_vm_zero_agents_since j t d).1
unfolding set_vm_zero_agents_since
Hosts-set_zero i j t d h = (any-update_where (has_id i) (has_id j) _ (λ a. refl) d.vms ∙ h.0, h.1)

module _ (o : Outside) (cfg : Config) (i : ℕ) (name : Text) where
  -- The VM's row and an endpoint are there, and its instance was not deleted without an error.
  abbrev Goes : Result (Unit {0}) × World → Type 0
  Goes (r, w) = Hosts i w.db × ((any (is_deletion name) w.sent ≡ false) ⊎ (is_err r ≡ true))

  pub record Orphaned (p : Result (Unit {0}) × World) : Type 0 where
    pub hosts : Hosts i p.1.db
    pub told : (any (is_deletion name) p.1.sent ≡ false) ⊎ (is_err p.0 ≡ true)

  module _ (vm : VmInstance) (own : same_text vm.gce_instance_name name ≡ true → vm.id ≡ i) where
    reap-Goes :
        (w : World) → Hosts i w.db → any (is_deletion name) w.sent ≡ false → Goes (reap o cfg vm w)
    unfolding reap
    reap-Goes w h none_yet = elim (Bool-cases (same_text vm.gce_instance_name name)) [
      | inl e ↦ rw (own e) (ground (arith, refused i w.db h, Hosts-delete_vm i i w.db h))
      | inr e ↦ ground (arith, Hosts-delete_vm i vm.id w.db h)
    ]

    on_no_agents-Goes :
        (w : World)
        → Hosts i w.db
        → any (is_deletion name) w.sent ≡ false
        → Goes (on_no_agents o cfg vm w)
    unfolding on_no_agents
    on_no_agents-Goes w h none_yet = ground (
      arith,
      reap-Goes (record w { calls = w.calls + 1 }) h none_yet,
      Hosts-set_zero i vm.id (some (o.now w.calls)) w.db h,
    )

    on_agents-Goes :
        (n : ℕ) (w : World)
        → Hosts i w.db
        → any (is_deletion name) w.sent ≡ false
        → Goes (on_agents o cfg vm n w)
    unfolding on_agents
    on_agents-Goes zero w h none_yet = on_no_agents-Goes w h none_yet
    on_agents-Goes (suc n) w h none_yet = ground (arith, Hosts-set_zero i vm.id none w.db h)

    probe-Goes :
        (w : World) → Hosts i w.db → any (is_deletion name) w.sent ≡ false → Goes (probe o cfg vm w)
    unfolding probe
    probe-Goes w h none_yet = elim (Option-cases (o.list_agents w.calls vm.internal_ip)) [
      | inl e ↦ rw e (h, inl none_yet)
      | inr (n, e) ↦ rw e (on_agents-Goes n (record w { calls = w.calls + 1 }) h none_yet)
    ]

    reconcile_vm-Goes :
        (w : World)
        → Hosts i w.db
        → any (is_deletion name) w.sent ≡ false
        → Goes (reconcile_vm o cfg vm w)
    unfolding reconcile_vm
    reconcile_vm-Goes w h none_yet = elim (Bool-cases (is_empty vm.internal_ip)) [
      | inl e ↦ rw e (h, inl none_yet)
      | inr e ↦ rw e (elim (Bool-cases (o.client_ok w.calls vm.internal_ip)) [
        | inr lost ↦ rw lost (h, inl none_yet)
        | inl made ↦ rw made (probe-Goes (record w { calls = w.calls + 1 }) h none_yet)
      ])
    ]

  abbrev OwnName : VmInstance → Type 0
  OwnName vm = same_text vm.gce_instance_name name ≡ true → vm.id ≡ i

  -- What is left of the round after one VM.
  bind-Goes :
      (p : Result (Unit {0}) × World) (rest : World → Result (Unit {0}) × World)
      → Goes p
      → ((w : World) → Hosts i w.db → any (is_deletion name) w.sent ≡ false → Goes (rest w))
      → Goes (((λ _. p) >>= λ _. rest) p.1)
  bind-Goes (err e, w) rest g k = g
  bind-Goes (ok a, w) rest (h, inl none_yet) k = k w h none_yet
  bind-Goes (ok a, w) rest (h, inr failed) k = cc

  reconcile_each-Goes :
      (vms : List VmInstance) (w : World)
      → ((vm : VmInstance) → Memᴰ vm vms → OwnName vm)
      → Hosts i w.db
      → any (is_deletion name) w.sent ≡ false
      → Goes (reconcile_each o cfg vms w)
  unfolding reconcile_each
  reconcile_each-Goes [] w own h none_yet = (h, inl none_yet)
  reconcile_each-Goes (vm ∷ vms) w own h none_yet =
      bind-Goes (reconcile_vm o cfg vm w) (reconcile_each o cfg vms)
        (reconcile_vm-Goes vm (own vm (Memᴰ.head refl)) w h none_yet)
        (λ v k n. reconcile_each-Goes vms v (λ x m. own x (Memᴰ.tail m)) k n)

  reconcile_vms-Goes :
      (w : World)
      → ((vm : VmInstance)
          → Memᴰ vm w.db.vms
          → same_text vm.gce_instance_name name ≡ true
          → vm.id ≡ i)
      → Hosts i w.db
      → any (is_deletion name) w.sent ≡ false
      → Goes (reconcile_vms o cfg w)
  unfolding reconcile_vms list_running_vm_instances
  reconcile_vms-Goes w own h none_yet = elim (Bool-cases (o.db_answers w.calls)) [
    | inr e ↦ rw e (h, inl none_yet)
    | inl e ↦ rw e (
        reconcile_each-Goes _ (record w { calls = w.calls + 1 })
          (λ vm m.
            own vm
              (Memᴰ-select (λ x. is_running x.status) w.db.vms
                (sort_by-mem (λ x. x.created_at) _ m)).0)
          h none_yet)
  ]

  -- When a VM of the table has a session endpoint, no other row has its instance's name, and GCE has
  -- accepted no deletion of the instance before: whatever is answered from outside, a round of
  -- ReconcileVMs keeps the VM's row and an endpoint on it; and where GCE accepts the deletion of the
  -- instance in the round, the round ends with an error.
  pub reconcile_vms-orphan :
      (w : World)
      → ((vm : VmInstance)
          → Memᴰ vm w.db.vms
          → same_text vm.gce_instance_name name ≡ true
          → vm.id ≡ i)
      → Hosts i w.db
      → any (is_deletion name) w.sent ≡ false
      → Orphaned (reconcile_vms o cfg w)
  reconcile_vms-orphan w own h none_yet =
      let (hosts, told) = reconcile_vms-Goes w own h none_yet in
      record { hosts = hosts; told = told }
