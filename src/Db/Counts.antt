-- ===== src/Db/Counts.antt =====
-- The counter active_containers of vm_instances against the rows of session_endpoints.
pub mod Writes
use mathlib.Core.List.{Memᴰ}
use mathlib.Core.List.Memᴰ.{cases_cons, not-nil}
use mathlib.Core.Bool.{true≢false}
use cc_tunnel.Common.{
  ℕ, zero, suc, ◌+◌, ◌-◌, ◌≤◌, ◌≡◌, refl, sym, ap, ◌∙◌, Bool, true, false, not, ◌&&◌, ◌||◌, List,
  [], ◌∷◌, ◌++◌, arith, Text, ◌==◌, ==_iff, select, update_where, any, any-mem, All, All-map,
  All-append, All-select, All-update_where, Bool-cases, inl, inr, ◌⊎◌, if◌then◌else◌, ok, err,
  same_text,
}
use cc_tunnel.Db.{VmStatus, VmInstance, SessionEndpoint, Db}
use cc_tunnel.Db.Vms
use cc_tunnel.Db.Vms.{has_id}
use cc_tunnel.Db.Endpoints
use cc_tunnel.Db.Endpoints.{conflicts, of_conversation}
use cc_tunnel.Db.Constraints.{IsValid, Bound, Apart}
use cc_tunnel.Db.Invariant.{
  Statement, exec, exec-IsValid, create_vm, set_status, set_ip, increment, decrement,
  create_endpoint, delete_endpoint, set_zero_agents, touch_endpoint, delete_vm, any-nowhere,
}

-- The number of endpoints on VM `i`.
abbrev pub endpoints_on : ℕ → List SessionEndpoint → ℕ
endpoints_on i [] = 0
endpoints_on i (ep ∷ eps) = (if ep.vm_instance_id == i then 1 else 0) + endpoints_on i eps

-- One endpoint on VM `i` is not counted yet.
abbrev pub owed_to : ℕ → ℕ → ℕ
owed_to i j = if j == i then 1 else 0

abbrev pub nothing_owed : ℕ → ℕ
nothing_owed j = 0

abbrev pub Fits : ℕ → (ℕ → ℕ) → List SessionEndpoint → VmInstance → Type 0
Fits max owed eps vm =
    (vm.active_containers + owed vm.id ≡ endpoints_on vm.id eps) × (vm.active_containers ≤ max)

-- The constraints hold, and each VM's counter is the number of its endpoints, less what is owed, and
-- at most `max`.
pub record Counted (max : ℕ) (owed : ℕ → ℕ) (d : Db) : Type 0 where
  pub valid : IsValid d
  pub fits : All (Fits max owed d.endpoints) d.vms

-- Rows of VMs change, but neither their ids nor their counters.
pub Fits-update :
    (max : ℕ) (owed : ℕ → ℕ) (eps : List SessionEndpoint) (q : VmInstance → Bool)
    (f : VmInstance → VmInstance)
    → ((vm : VmInstance) → ((f vm).id ≡ vm.id) × ((f vm).active_containers ≡ vm.active_containers))
    → (vms : List VmInstance) → All (Fits max owed eps) vms
    → All (Fits max owed eps) (update_where q f vms)
Fits-update max owed eps q f same =
    All-update_where (Fits max owed eps) q f (λ vm h. rw ((same vm).0, (same vm).1) h)

pub endpoints_on-append :
    (i : ℕ) (eps : List SessionEndpoint) (ep : SessionEndpoint)
    → endpoints_on i (eps ++ ep ∷ [])
      ≡ endpoints_on i eps + (if ep.vm_instance_id == i then 1 else 0)
endpoints_on-append i [] ep = omega arith
endpoints_on-append i (x ∷ eps) ep = omega (arith, endpoints_on-append i eps ep)

pub endpoints_on-update :
    (i : ℕ) (q : SessionEndpoint → Bool) (f : SessionEndpoint → SessionEndpoint)
    → ((ep : SessionEndpoint) → (f ep).vm_instance_id ≡ ep.vm_instance_id)
    → (eps : List SessionEndpoint) → endpoints_on i (update_where q f eps) ≡ endpoints_on i eps
endpoints_on-update i q f same [] = refl
endpoints_on-update i q f same (x ∷ eps) = elim (Bool-cases (q x)) [
  | inl e ↦ rw (e, same x, endpoints_on-update i q f same eps) refl
  | inr e ↦ rw (e, endpoints_on-update i q f same eps) refl
]

pub endpoints_on-none :
    (i : ℕ) (eps : List SessionEndpoint)
    → any (λ ep. ep.vm_instance_id == i) eps ≡ false
    → endpoints_on i eps ≡ 0
endpoints_on-none i [] h = refl
endpoints_on-none i (x ∷ eps) h = ground (arith, endpoints_on-none i eps)

pub endpoints_on-some :
    (i : ℕ) (eps : List SessionEndpoint) (ep : SessionEndpoint)
    → Memᴰ ep eps
    → ep.vm_instance_id ≡ i
    → 1 ≤ endpoints_on i eps
endpoints_on-some i [] ep m e = absurd (not-nil m)
endpoints_on-some i (x ∷ eps) ep m e = elim (cases_cons m) [
  | inl here ↦ rw (← here, e) (ground arith)
  | inr there ↦ ground (arith, endpoints_on-some i eps ep there e)
]

-- A row's deletion by its id takes one endpoint from its VM.
endpoints_on-absent :
    (i k : ℕ) (eps : List SessionEndpoint)
    → any (λ ep. ep.id == k) eps ≡ false
    → endpoints_on i (select (λ ep. not (ep.id == k)) eps) ≡ endpoints_on i eps
endpoints_on-absent i k [] h = refl
endpoints_on-absent i k (x ∷ eps) h = ground (arith, endpoints_on-absent i k eps)

pub any-conflicts-id :
    (x : SessionEndpoint) (eps : List SessionEndpoint)
    → any (conflicts x.id x.conversation_id x.vm_instance_id x.port) eps ≡ false
    → any (λ ep. ep.id == x.id) eps ≡ false
any-conflicts-id x [] h = refl
any-conflicts-id x (y ∷ eps) h = ground (arith, any-conflicts-id x eps)

pub endpoints_on-delete :
    (i k v : ℕ) (eps : List SessionEndpoint) (ep : SessionEndpoint)
    → Apart eps
    → Memᴰ ep eps
    → ep.id ≡ k
    → ep.vm_instance_id ≡ v
    → endpoints_on i (select (λ x. not (x.id == k)) eps) + owed_to v i ≡ endpoints_on i eps
endpoints_on-delete i k v [] ep a m e f = absurd (not-nil m)
endpoints_on-delete i k v (x ∷ eps) ep a m e f = elim (cases_cons m) [
  | inl here ↦ first (ap (λ y. y.id) (sym here) ∙ e) (ap (λ y. y.vm_instance_id) (sym here) ∙ f)
  | inr there ↦
      further (any-mem (λ y. y.id == k) there ((==_iff ep.id k).1 e))
        (endpoints_on-delete i k v eps ep a.1 there e f)
]
  where
    others : any (λ y. y.id == x.id) eps ≡ false
    others = any-conflicts-id x eps a.0

    first :
        x.id ≡ k
        → x.vm_instance_id ≡ v
        → endpoints_on i (select (λ x. not (x.id == k)) (x ∷ eps)) + owed_to v i
          ≡ endpoints_on i (x ∷ eps)
    first g h =
        rw ((==_iff x.id k).1 g, endpoints_on-absent i k eps (rw (← g) others), h) (ground arith)

    further :
        any (λ y. y.id == k) eps ≡ true
        → endpoints_on i (select (λ x. not (x.id == k)) eps) + owed_to v i ≡ endpoints_on i eps
        → endpoints_on i (select (λ x. not (x.id == k)) (x ∷ eps)) + owed_to v i
          ≡ endpoints_on i (x ∷ eps)
    further has ih = elim (Bool-cases (x.id == k)) [
      | inl g ↦ absurd (true≢false (sym (rw (← (==_iff x.id k).0 g) at has) ∙ others))
      | inr g ↦ rw g (omega (arith, ih))
    ]
