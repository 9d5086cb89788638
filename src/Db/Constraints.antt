-- ===== src/Db/Constraints.antt =====
-- The constraints that migrations/ put on the two tables, and how rows come and go under them.
use cc_tunnel.Common.{
  ◌≡◌, refl, Bool, true, false, inl, inr, List, [], ◌∷◌, ◌++◌, arith, select, update_where, any,
  All, any-append, any-select, any-update_where, Bool-cases,
}
use cc_tunnel.Db.{VmInstance, SessionEndpoint, Db}
use cc_tunnel.Db.Vms.{has_id}
use cc_tunnel.Db.Endpoints.{conflicts}

-- No two endpoints share an id, a conversation, or a port of one VM.
abbrev pub Apart : List SessionEndpoint → Type 0
Apart [] = Unit
Apart (ep ∷ eps) =
    (any (conflicts ep.id ep.conversation_id ep.vm_instance_id ep.port) eps ≡ false) × Apart eps

-- No two VMs share an id.
abbrev pub DistinctVms : List VmInstance → Type 0
DistinctVms [] = Unit
DistinctVms (vm ∷ vms) = (any (has_id vm.id) vms ≡ false) × DistinctVms vms

abbrev pub Bound : List VmInstance → SessionEndpoint → Type 0
Bound vms ep = any (has_id ep.vm_instance_id) vms ≡ true

pub record IsValid (d : Db) : Type 0 where
  pub apart : Apart d.endpoints
  pub distinct : DistinctVms d.vms
  pub bound : All (Bound d.vms) d.endpoints

pub Apart-snoc :
    (eps : List SessionEndpoint) (ep : SessionEndpoint)
    → any (conflicts ep.id ep.conversation_id ep.vm_instance_id ep.port) eps ≡ false
    → Apart eps
    → Apart (eps ++ ep ∷ [])
Apart-snoc [] ep h a = (refl, tt)
Apart-snoc (x ∷ eps) ep h a = ground (
  arith,
  any-append (conflicts x.id x.conversation_id x.vm_instance_id x.port) eps (ep ∷ []),
  Apart-snoc eps ep,
)

pub Apart-select :
    (p : SessionEndpoint → Bool) (eps : List SessionEndpoint) → Apart eps → Apart (select p eps)
Apart-select p [] a = tt
Apart-select p (x ∷ eps) a = elim (Bool-cases (p x)) [
  | inl e ↦ rw e (
    any-select (conflicts x.id x.conversation_id x.vm_instance_id x.port) p eps a.0,
    Apart-select p eps a.1,
  )
  | inr e ↦ rw e (Apart-select p eps a.1)
]

pub DistinctVms-snoc :
    (vms : List VmInstance) (vm : VmInstance)
    → any (has_id vm.id) vms ≡ false
    → DistinctVms vms
    → DistinctVms (vms ++ vm ∷ [])
DistinctVms-snoc [] vm h a = (refl, tt)
DistinctVms-snoc (x ∷ vms) vm h a =
    ground (arith, any-append (has_id x.id) vms (vm ∷ []), DistinctVms-snoc vms vm)

pub DistinctVms-select :
    (p : VmInstance → Bool) (vms : List VmInstance) → DistinctVms vms → DistinctVms (select p vms)
DistinctVms-select p [] a = tt
DistinctVms-select p (x ∷ vms) a = elim (Bool-cases (p x)) [
  | inl e ↦ rw e (any-select (has_id x.id) p vms a.0, DistinctVms-select p vms a.1)
  | inr e ↦ rw e (DistinctVms-select p vms a.1)
]

abbrev pub SameKeys : (SessionEndpoint → SessionEndpoint) → Type 0
SameKeys f =
    (ep : SessionEndpoint)
    → ((f ep).id ≡ ep.id)
      × ((f ep).conversation_id ≡ ep.conversation_id)
      × ((f ep).vm_instance_id ≡ ep.vm_instance_id)
      × ((f ep).port ≡ ep.port)

pub Apart-update_where :
    (q : SessionEndpoint → Bool) (f : SessionEndpoint → SessionEndpoint)
    → SameKeys f
    → (eps : List SessionEndpoint) → Apart eps
    → Apart (update_where q f eps)
Apart-update_where q f same [] a = tt
Apart-update_where q f same (x ∷ eps) a = elim (Bool-cases (q x)) [
  | inl e ↦ rw e (
    rw ((same x).0, (same x).1, (same x).2, (same x).3, still) a.0,
    Apart-update_where q f same eps a.1,
  )
  | inr e ↦ rw e (rw still a.0, Apart-update_where q f same eps a.1)
]
  where
    test : SessionEndpoint → Bool
    test = conflicts x.id x.conversation_id x.vm_instance_id x.port

    still : any test (update_where q f eps) ≡ any test eps
    still = any-update_where test q f (λ a. ground (arith, same a)) eps

pub DistinctVms-update_where :
    (q : VmInstance → Bool) (f : VmInstance → VmInstance)
    → ((vm : VmInstance) → (f vm).id ≡ vm.id)
    → (vms : List VmInstance) → DistinctVms vms
    → DistinctVms (update_where q f vms)
DistinctVms-update_where q f same [] a = tt
DistinctVms-update_where q f same (x ∷ vms) a = elim (Bool-cases (q x)) [
  | inl e ↦ rw e (rw (same x, still) a.0, DistinctVms-update_where q f same vms a.1)
  | inr e ↦ rw e (rw still a.0, DistinctVms-update_where q f same vms a.1)
]
  where
    still : any (has_id x.id) (update_where q f vms) ≡ any (has_id x.id) vms
    still = any-update_where (has_id x.id) q f (λ a. ground (arith, same a)) vms
