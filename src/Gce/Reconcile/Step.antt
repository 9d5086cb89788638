-- ===== src/Gce/Reconcile/Step.antt =====
-- What entitles ReconcileVMs to forget one VM.
use cc_tunnel.Common.{
  same_text_refl, same_text, ℕ, ◌+◌, ◌≤◌, ◌≡◌, refl, inl, inr, Bool, true, false, ◌&&◌, Option,
  none, some, arith, any, is_empty, Bool-cases, Option-cases, zero, suc, any-select_kept,
  any-update_where, not, ◌≢◌, Text, ◌<◌,
}
use native.Mathlib.Decide.{ℕ_discrete}
use cc_tunnel.Db.{VmInstance, Db}
use cc_tunnel.Db.Vms.{has_id, delete_vm_instance, set_vm_zero_agents_since}
use cc_tunnel.Gce.{Config, Outside, World, Request, delete_instance}
use cc_tunnel.Gce.Reconcile.{reap, on_agents, probe, on_no_agents, reconcile_vm}

-- An accepted request to delete the instance.
abbrev pub is_deletion : Text → Request × Bool → Bool
is_deletion name (delete_instance n, accepted) = same_text n name && accepted
is_deletion name _ = false

-- What entitles the provider to forget a VM.
pub record Reaped (o : Outside) (cfg : Config) (vm : VmInstance) (w : World) : Type 0 where
  pub probed_at : ℕ
  pub no_agent : o.list_agents probed_at vm.internal_ip ≡ some 0
  pub checked_at : ℕ
  pub since : ℕ
  pub stamped : vm.zero_agents_since ≡ some since
  pub aged : since + cfg.zero_agents_timeout ≤ o.now checked_at
  pub deleted : any (is_deletion vm.gce_instance_name) w.sent ≡ true

gone_of_delete :
    (i j : ℕ) (d : Db)
    → any (has_id i) d.vms ≡ true
    → any (has_id i) (delete_vm_instance j d).1.vms ≡ false
    → j ≡ i
unfolding delete_vm_instance
gone_of_delete i j d here gone = elim (ℕ_discrete j i) [
  | yes e ↦ e
  | no n ↦ absurd (
      ground
        (arith, any-select_kept (has_id i) (λ vm. not (has_id j vm)) (λ a h. kept n a h) d.vms))
]
  where
    kept : j ≢ i → (a : VmInstance) → has_id i a ≡ true → not (has_id j a) ≡ true
    kept n a h = ground arith

any-set_zero :
    (i j : ℕ) (t : Option ℕ) (d : Db)
    → any (has_id i) (set_vm_zero_agents_since j t d).1.vms ≡ any (has_id i) d.vms
unfolding set_vm_zero_agents_since
any-set_zero i j t d = any-update_where (has_id i) (has_id j) _ (λ a. refl) d.vms

-- The row of VM `i` goes between the two worlds.
abbrev pub Forgets : ℕ → World → World → Type 0
Forgets i w w' = (any (has_id i) w.db.vms ≡ true) × (any (has_id i) w'.db.vms ≡ false)

module _ (o : Outside) (cfg : Config) where
  reap-Forgets :
      (vm : VmInstance) (i : ℕ) (w : World)
      → Forgets i w (reap o cfg vm w).1
      → (vm.id ≡ i) × (any (is_deletion vm.gce_instance_name) (reap o cfg vm w).1.sent ≡ true)
  unfolding reap
  reap-Forgets vm i w (here, gone) =
      ground (arith, gone_of_delete i vm.id w.db, same_text_refl vm.gce_instance_name)

  on_no_agents-Forgets :
      (vm : VmInstance) (i : ℕ) (w : World) (z : Option ℕ)
      → vm.zero_agents_since ≡ z
      → 0 < cfg.zero_agents_timeout
      → Forgets i w (on_no_agents o cfg vm w).1
      → (vm.id ≡ i)
        × (t : ℕ) × (vm.zero_agents_since ≡ some t)
        × (t + cfg.zero_agents_timeout ≤ o.now w.calls)
        × (any (is_deletion vm.gce_instance_name) (on_no_agents o cfg vm w).1.sent ≡ true)
  unfolding on_no_agents
  on_no_agents-Forgets vm i w none e pos (here, gone) =
      absurd (ground (arith, any-set_zero i vm.id (some (o.now w.calls)) w.db))
  on_no_agents-Forgets vm i w (some t) e pos (here, gone) =
      let reaped : (vm.id ≡ i)
          × (t + cfg.zero_agents_timeout ≤ o.now w.calls)
          × (any (is_deletion vm.gce_instance_name) (on_no_agents o cfg vm w).1.sent ≡ true) =
        ground (arith, gone_of_delete i vm.id w.db, same_text_refl vm.gce_instance_name) in
      (reaped.0, t, e, reaped.1, reaped.2)

  on_agents-Forgets :
      (vm : VmInstance) (m n i : ℕ) (w : World)
      → 0 < cfg.zero_agents_timeout
      → o.list_agents m vm.internal_ip ≡ some n
      → Forgets i w (on_agents o cfg vm n w).1
      → (vm.id ≡ i) × Reaped o cfg vm (on_agents o cfg vm n w).1
  unfolding on_agents
  on_agents-Forgets vm m zero i w pos listed f =
      let (same, t, stamped, aged, deleted) =
        on_no_agents-Forgets vm i w vm.zero_agents_since refl pos f in
      (
        same,
        record {
          probed_at = m;
          no_agent = listed;
          checked_at = w.calls;
          since = t;
          stamped = stamped;
          aged = aged;
          deleted = deleted;
        },
      )
  on_agents-Forgets vm m (suc n) i w pos listed (here, gone) =
      absurd (ground (arith, any-set_zero i vm.id none w.db))

  probe-Forgets :
      (vm : VmInstance) (i : ℕ) (w : World)
      → 0 < cfg.zero_agents_timeout
      → Forgets i w (probe o cfg vm w).1
      → (vm.id ≡ i) × Reaped o cfg vm (probe o cfg vm w).1
  unfolding probe
  probe-Forgets vm i w pos (here, gone) =
      elim (Option-cases (o.list_agents w.calls vm.internal_ip)) [
        | inl e ↦ absurd (ground arith)
        | inr (n, e) ↦ rw e (
            on_agents-Forgets vm w.calls n i (record w { calls = w.calls + 1 }) pos e
              (here, rw e at gone))
      ]

  pub reconcile_vm-Reaped :
      (vm : VmInstance) (i : ℕ) (w : World)
      → 0 < cfg.zero_agents_timeout
      → Forgets i w (reconcile_vm o cfg vm w).1
      → (vm.id ≡ i) × Reaped o cfg vm (reconcile_vm o cfg vm w).1
  unfolding reconcile_vm
  reconcile_vm-Reaped vm i w pos (here, gone) = elim (Bool-cases (is_empty vm.internal_ip)) [
    | inl e ↦ absurd (ground arith)
    | inr e ↦ rw e (elim (Bool-cases (o.client_ok w.calls vm.internal_ip)) [
      | inl made ↦
          rw made
            (probe-Forgets vm i (record w { calls = w.calls + 1 }) pos (here, rw (e, made) at gone))
      | inr lost ↦ absurd (ground arith)
    ])
  ]
