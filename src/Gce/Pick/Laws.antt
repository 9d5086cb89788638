-- ===== src/Gce/Pick/Laws.antt =====
-- What pickHealthyAvailableVM returns, and what marking a VM unhealthy does.
use cc_tunnel.Common.{
  ℕ, zero, suc, ◌+◌, ◌≤◌, All, ◌≡◌, refl, true, List, [], ◌∷◌, arith, any, select, ok, inl, inr,
  Bool-cases, Option-cases, ◌∙◌, Memᴰ-select, any-mem, ◌≢◌, ==_iff, Action, none, some, Option, ◌⊎◌,
  ltb,
}
use mathlib.Core.Path.{subst}
use mathlib.Core.List.{Memᴰ}
use cc_tunnel.Db.{VmInstance}
use cc_tunnel.Db.Vms.{
  has_id, is_available, fuller, fullest, get_available_vm_instance, update_vm_instance_status,
}
use cc_tunnel.Gce.{Config, Outside, World}
use cc_tunnel.Gce.Pick.{mark_unhealthy, try_vm, pick, pick_healthy_available_vm}

fullest-mem :
    (best : Option VmInstance) (vms : List VmInstance) (vm : VmInstance)
    → fullest best vms ≡ some vm
    → (best ≡ some vm) ⊎ Memᴰ vm vms
fullest-mem best [] vm e = inl e
fullest-mem best (x ∷ vms) vm e = elim (fullest-mem (fuller best x) vms vm e) [
  | inl f ↦ came best f
  | inr m ↦ inr (Memᴰ.tail m)
]
  where
    came : (b : Option VmInstance) → fuller b x ≡ some vm → (b ≡ some vm) ⊎ Memᴰ vm (x ∷ vms)
    came none f = inr (Memᴰ.head (ground arith))
    came (some b) f = elim (Bool-cases (ltb b.active_containers x.active_containers)) [
      | inl more ↦ inr (Memᴰ.head (ground arith))
      | inr less ↦ inl (ground arith)
    ]

-- The best so far is at least as full as one given.
abbrev AtLeast : Option VmInstance → ℕ → Type 0
AtLeast none n = ⊥
AtLeast (some vm) n = n ≤ vm.active_containers

fullest-AtLeast :
    (best : Option VmInstance) (vms : List VmInstance) (n : ℕ)
    → AtLeast best n
    → AtLeast (fullest best vms) n
fullest-AtLeast best [] n h = h
fullest-AtLeast best (x ∷ vms) n h = fullest-AtLeast (fuller best x) vms n (step best h)
  where
    step : (b : Option VmInstance) → AtLeast b n → AtLeast (fuller b x) n
    step none k = absurd k
    step (some b) k = elim (Bool-cases (ltb b.active_containers x.active_containers)) [
      | inl more ↦ rw more (ground arith)
      | inr less ↦ rw less k
    ]

fullest-max :
    (best : Option VmInstance) (vms : List VmInstance) (vm : VmInstance)
    → fullest best vms ≡ some vm
    → All (λ x. x.active_containers ≤ vm.active_containers) vms
fullest-max best [] vm e = tt
fullest-max best (x ∷ vms) vm e = (
  rw e at (fullest-AtLeast (fuller best x) vms x.active_containers (step best)),
  fullest-max (fuller best x) vms vm e,
)
  where
    step : (b : Option VmInstance) → AtLeast (fuller b x) x.active_containers
    step none = omega arith
    step (some b) = elim (Bool-cases (ltb b.active_containers x.active_containers)) [
      | inl more ↦ rw more (omega arith)
      | inr less ↦ rw less (ground arith)
    ]

-- What a successful pick returns: of the VMs that are running with room for a container in the
-- final table, one with the most containers, whose container-manager answered.
pub record Picked (o : Outside) (cfg : Config) (vm : VmInstance) (w : World) : Type 0 where
  pub available : Memᴰ vm (select (is_available cfg.max_containers) w.db.vms)
  pub fullest :
      All
        (λ x. x.active_containers ≤ vm.active_containers)
        (select (is_available cfg.max_containers) w.db.vms)
  pub asked_at : ℕ
  pub answered : o.is_ready asked_at vm.internal_ip ≡ true

module _ (o : Outside) (cfg : Config) where
  -- The CHECK constraint refuses the mark of a VM that is in the table.
  db-mark_unhealthy :
      (vm : VmInstance) (w : World)
      → any (has_id vm.id) w.db.vms ≡ true
      → ((mark_unhealthy o cfg vm w).1.db ≡ w.db) × ((mark_unhealthy o cfg vm w).0 ≢ ok tt)
  unfolding mark_unhealthy update_vm_instance_status
  db-mark_unhealthy vm w here = (ground arith, ground arith)

  chosen :
      (w : World) (vm : VmInstance)
      → fullest none (select (is_available cfg.max_containers) w.db.vms) ≡ some vm
      → Memᴰ vm (select (is_available cfg.max_containers) w.db.vms)
  chosen w vm e = elim (fullest-mem none _ vm e) [ inl f ↦ absurd (ground arith) | inr m ↦ m ]

  here_of_chosen :
      (w : World) (vm : VmInstance)
      → fullest none (select (is_available cfg.max_containers) w.db.vms) ≡ some vm
      → any (has_id vm.id) w.db.vms ≡ true
  here_of_chosen w vm e =
      any-mem (has_id vm.id) (Memᴰ-select _ _ (chosen w vm e)).0 ((==_iff vm.id vm.id).1 refl)

  abbrev next : World → World
  next w = record w { calls = w.calls + 1 }

  -- The rest of the loop runs after a failed mark only where the client could not be made.
  try_vm-db :
      (again : Action World VmInstance) (vm : VmInstance) (w : World)
      → ((v : World) → (again v).1.db ≡ v.db)
      → any (has_id vm.id) w.db.vms ≡ true
      → (try_vm o cfg again vm w).1.db ≡ w.db
  unfolding try_vm
  try_vm-db again vm w same here = elim (Bool-cases (o.client_ok w.calls vm.internal_ip)) [
    | inl e ↦ ground (arith, db-mark_unhealthy vm (next (next w)))
    | inr e ↦
        rw e (same (mark_unhealthy o cfg vm (next w)).1 ∙ (db-mark_unhealthy vm (next w) here).0)
  ]

  try_vm-Picked :
      (again : Action World VmInstance) (vm got : VmInstance) (w : World)
      → fullest none (select (is_available cfg.max_containers) w.db.vms) ≡ some vm
      → ((v : World) → (again v).0 ≡ ok got → Picked o cfg got (again v).1)
      → (try_vm o cfg again vm w).0 ≡ ok got
      → Picked o cfg got (try_vm o cfg again vm w).1
  unfolding try_vm
  try_vm-Picked again vm got w e rest r = elim (Bool-cases (o.client_ok w.calls vm.internal_ip)) [
    | inr lost ↦ rw lost (rest (mark_unhealthy o cfg vm (next w)).1 (rw lost at r))
    | inl made ↦ elim (Bool-cases (o.is_ready (w.calls + 1) vm.internal_ip)) [
      | inr down ↦
          absurd (ground (arith, db-mark_unhealthy vm (next (next w)) (here_of_chosen w vm e)))
      | inl up ↦
          rw (made, up)
            (subst (λ v. Picked o cfg v (next (next w))) (ground arith)
              (record {
                available = chosen w vm e;
                fullest = fullest-max none _ vm e;
                asked_at = w.calls + 1;
                answered = up;
              }))
    ]
  ]

  -- No VM, or the loop body at the one that the query returns.
  pick-cases :
      (n : ℕ) (w : World)
      → (((pick o cfg (suc n) w).1 ≡ next w)
          × ((vm : VmInstance) → (pick o cfg (suc n) w).0 ≢ ok vm))
        ⊎ ((vm : VmInstance) × (fullest none (select (is_available cfg.max_containers) w.db.vms)
              ≡ some vm)
            × (pick o cfg (suc n) w ≡ try_vm o cfg (pick o cfg n) vm (next w)))
  unfolding pick get_available_vm_instance
  pick-cases n w = elim (Bool-cases (o.db_answers w.calls)) [
    | inr e ↦ inl (ground arith, λ vm. ground arith)
    | inl e ↦
        elim (Option-cases (fullest none (select (is_available cfg.max_containers) w.db.vms))) [
          | inl f ↦ inl (rw (e, f), λ vm. ground arith)
          | inr (vm, f) ↦ inr (vm, f, rw (e, f))
        ]
  ]

  pick-db : (n : ℕ) (w : World) → (pick o cfg n w).1.db ≡ w.db
  pick-db zero w = unfold pick in refl
  pick-db (suc n) w = elim (pick-cases n w) [
    | inl (e, _) ↦ rw e
    | inr (vm, f, e) ↦
        rw e (try_vm-db (pick o cfg n) vm (next w) (λ v. pick-db n v) (here_of_chosen w vm f))
  ]

  pick-Picked :
      (n : ℕ) (vm : VmInstance) (w : World)
      → (pick o cfg n w).0 ≡ ok vm
      → Picked o cfg vm (pick o cfg n w).1
  pick-Picked zero vm w r = absurd (unfold pick in ground arith)
  pick-Picked (suc n) vm w r = elim (pick-cases n w) [
    | inl (_, e) ↦ absurd (e vm r)
    | inr (v, f, e) ↦
        rw e (try_vm-Picked (pick o cfg n) v vm (next w) f (λ u. pick-Picked n vm u) (rw e at r))
  ]

  -- A VM that pickHealthyAvailableVM returns is, in the database as it leaves it, running with
  -- fewer containers than the maximum, none that qualifies has more, and the container-manager at
  -- its address answered during the call.
  pub pick_healthy_available_vm-Picked :
      (vm : VmInstance) (w : World)
      → (pick_healthy_available_vm o cfg w).0 ≡ ok vm
      → Picked o cfg vm (pick_healthy_available_vm o cfg w).1
  unfolding pick_healthy_available_vm
  pick_healthy_available_vm-Picked vm w r = pick-Picked 5 vm w r

  -- Whatever its calls answer, pickHealthyAvailableVM leaves both tables as they were: the CHECK
  -- constraint refuses each of its writes of `unhealthy`, so a VM that does not answer stays the
  -- choice of the next call.
  pub db-pick_healthy_available_vm : (w : World) → (pick_healthy_available_vm o cfg w).1.db ≡ w.db
  unfolding pick_healthy_available_vm
  db-pick_healthy_available_vm w = pick-db 5 w
