-- ===== src/Gce/Endpoint/Room.antt =====
-- The VM that a new endpoint is put on has room for it.
use mathlib.Core.List.{Memᴰ}
use mathlib.Core.List.Memᴰ.{cases_cons, not-nil}
use mathlib.Core.Bool.{true≢false}
use cc_tunnel.Common.{
  ℕ, ◌<◌, ◌≡◌, refl, sym, ap, ◌∙◌, Bool, true, false, not, ◌&&◌, List, [], ◌∷◌, arith, ==_iff, any,
  any-mem, All, All-append, All-update_where, Bool-cases, inl, inr, Text, same_text, Ends,
}
use cc_tunnel.Db.{Db, VmInstance, VmStatus}
use cc_tunnel.Db.Vms
use cc_tunnel.Db.Vms.{has_id, is_available}
use cc_tunnel.Db.Constraints.{DistinctVms}
use cc_tunnel.Db.Invariant.{
  Statement, exec, create_vm, set_status, set_ip, increment, decrement, set_zero_agents, delete_vm,
  create_endpoint, set_endpoint_status, touch_endpoint, delete_endpoint,
}
use cc_tunnel.Db.Counts.{Counted, nothing_owed}
use cc_tunnel.Db.Counts.Writes.{is_quiet, exec-Counted, HasRoom, Room}
use cc_tunnel.Gce.Keeps.{is_vm_write}

pub is_vm_write-is_quiet : (s : Statement) → is_vm_write s ≡ true → is_quiet s ≡ true
is_vm_write-is_quiet (create_vm i now name zone ip) h = refl
is_vm_write-is_quiet (set_status i s) h = refl
is_vm_write-is_quiet (set_ip i ip) h = refl
is_vm_write-is_quiet (increment i) h = cc
is_vm_write-is_quiet (decrement now i) h = cc
is_vm_write-is_quiet (set_zero_agents i t) h = refl
is_vm_write-is_quiet (delete_vm i) h = refl
is_vm_write-is_quiet (create_endpoint i now c vm_id name port) h = cc
is_vm_write-is_quiet (set_endpoint_status i s) h = refl
is_vm_write-is_quiet (touch_endpoint now c) h = refl
is_vm_write-is_quiet (delete_endpoint i) h = cc

absent-Room :
    (max i : ℕ) (vms : List VmInstance) → any (has_id i) vms ≡ false → All (HasRoom max i) vms
absent-Room max i [] h = tt
absent-Room max i (vm ∷ vms) h =
    ((λ e. ground (arith, e, h)), absent-Room max i vms (ground (arith, h)))

-- A row that is the only one with its id.
pub mem-Room :
    (max : ℕ) (vm : VmInstance) (vms : List VmInstance)
    → DistinctVms vms
    → Memᴰ vm vms
    → vm.active_containers < max
    → All (HasRoom max vm.id) vms
mem-Room max vm [] d m h = absurd (not-nil m)
mem-Room max vm (x ∷ vms) d m h = elim (cases_cons m) [
  | inl here ↦ (
    (λ _. rw (← here) h),
    absent-Room max vm.id vms (ap (λ (y : VmInstance). any (has_id y.id) vms) here ∙ d.0),
  )
  | inr there ↦ (
    (λ e. absurd (
        true≢false (
          sym (any-mem (has_id x.id) there ((==_iff vm.id x.id).1 (sym ((==_iff x.id vm.id).0 e))))
          ∙ d.0))),
    mem-Room max vm vms d.1 there h,
  )
]

module _ (max : ℕ) (some_room : 0 < max) where
  Room-create :
      (i k now : ℕ) (name zone ip : Text) (d : Db)
      → Room max i d
      → Room max i (Vms.create_vm_instance k now name zone ip d).1
  unfolding Vms.create_vm_instance
  Room-create i k now name zone ip d r = elim (Bool-cases (any named d.vms)) [
    | inl e ↦ rw e r
    | inr e ↦ rw e (elim (Bool-cases (any (has_id k) d.vms)) [
      | inl f ↦ rw f r
      | inr f ↦ rw f (All-append (HasRoom max i) d.vms _ r ((λ _. some_room), tt))
    ])
  ]
    where
      named : VmInstance → Bool
      named vm = same_text vm.gce_instance_name name

  Room-set_status :
      (i k : ℕ) (t : VmStatus) (d : Db)
      → Room max i d
      → Room max i (Vms.update_vm_instance_status k t d).1
  unfolding Vms.update_vm_instance_status
  Room-set_status i k t d r =
      elim (Bool-cases (any (has_id k) d.vms && not (Vms.status_allowed t))) [
        | inl e ↦ rw e r
        | inr e ↦ rw e (
            All-update_where (HasRoom max i) (has_id k) (λ vm. record vm { status = t }) (λ vm h. h)
              d.vms r)
      ]

  Room-exec :
      (i : ℕ) (s : Statement)
      → is_vm_write s ≡ true
      → (d : Db) → Room max i d
      → Room max i (exec s d)
  unfolding exec Vms.update_vm_instance_ip
  Room-exec i (create_vm k now name zone ip) h d r = Room-create i k now name zone ip d r
  Room-exec i (set_status k t) h d r = Room-set_status i k t d r
  Room-exec i (set_ip k ip) h d r =
      All-update_where (HasRoom max i) (has_id k) (λ vm. record vm { internal_ip = ip }) (λ vm h. h)
        d.vms r
  Room-exec i (increment k) h d r = cc
  Room-exec i (decrement now k) h d r = cc
  Room-exec i (set_zero_agents k t) h d r = cc
  Room-exec i (delete_vm k) h d r = cc
  Room-exec i (create_endpoint k now c vm_id name port) h d r = cc
  Room-exec i (set_endpoint_status k s) h d r = cc
  Room-exec i (touch_endpoint now c) h d r = cc
  Room-exec i (delete_endpoint k) h d r = cc

  -- The counters are right, and VM `i` has room.
  abbrev pub Before : ℕ → Db → Type 0
  Before i d = Counted max nothing_owed d × Room max i d

  pub vm_write-Counted :
      (s : Statement)
      → is_vm_write s ≡ true
      → (d : Db) → Counted max nothing_owed d
      → Counted max nothing_owed (exec s d)
  vm_write-Counted s h = exec-Counted max s (is_vm_write-is_quiet s h)

  pub vm_write-Before :
      (i : ℕ) (s : Statement) → is_vm_write s ≡ true → (d : Db) → Before i d → Before i (exec s d)
  vm_write-Before i s h d (c, r) = (vm_write-Counted s h d c, Room-exec i s h d r)

  -- A new row has room.
  pub create-Before :
      (k now : ℕ) (name zone ip : Text) (d : Db)
      → Counted max nothing_owed d
      → Ends
          (λ vm. Before vm.id)
          (Counted max nothing_owed)
          (Vms.create_vm_instance k now name zone ip d)
  unfolding Vms.create_vm_instance exec
  create-Before k now name zone ip d c = elim (Bool-cases (any named d.vms)) [
    | inl e ↦ rw e c
    | inr e ↦ elim (Bool-cases (any (has_id k) d.vms)) [
      | inl f ↦ rw (e, f) c
      | inr f ↦
          rw (e, f)
            (
              rw (e, f) at after,
              All-append (HasRoom max k) d.vms _ (absent-Room max k d.vms f) ((λ _. some_room), tt),
            )
    ]
  ]
    where
      named : VmInstance → Bool
      named vm = same_text vm.gce_instance_name name

      after : Counted max nothing_owed (Vms.create_vm_instance k now name zone ip d).1
      after = exec-Counted max (create_vm k now name zone ip) refl d c
