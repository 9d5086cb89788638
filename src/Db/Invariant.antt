-- ===== src/Db/Invariant.antt =====
-- Every statement of the repository keeps the constraints.
use cc_tunnel.Common.{
  same_text, ℕ, ◌≡◌, refl, ◌∙◌, Bool, false, not, ◌&&◌, inl, inr, Option, List, [], ◌∷◌, ◌++◌,
  arith, Text, ◌==◌, select, update_where, any, All, All-map, All-append, All-update_where,
  All-select, any-append, any-select_kept, any-update_where, Bool-cases,
}
use cc_tunnel.Db.{VmStatus, VmInstance, EndpointStatus, SessionEndpoint, Db}
use cc_tunnel.Db.Vms
use cc_tunnel.Db.Vms.{has_id}
use cc_tunnel.Db.Endpoints
use cc_tunnel.Db.Endpoints.{conflicts}
use cc_tunnel.Db.Constraints.{
  Bound, IsValid, SameKeys, Apart-snoc, Apart-select, Apart-update_where, DistinctVms-snoc,
  DistinctVms-select, DistinctVms-update_where,
}

-- The statements that write the two tables, with what NOW() and gen_random_uuid() give.
pub data Statement : Type 0 where
  create_vm : ℕ → ℕ → Text → Text → Text → Statement
  set_status : ℕ → VmStatus → Statement
  set_ip : ℕ → Text → Statement
  increment : ℕ → Statement
  decrement : ℕ → ℕ → Statement
  set_zero_agents : ℕ → Option ℕ → Statement
  delete_vm : ℕ → Statement
  create_endpoint : ℕ → ℕ → ℕ → ℕ → Text → ℕ → Statement
  set_endpoint_status : ℕ → EndpointStatus → Statement
  touch_endpoint : ℕ → ℕ → Statement
  delete_endpoint : ℕ → Statement

unfoldable pub exec : Statement → Db → Db
exec (create_vm i now name zone ip) d = (Vms.create_vm_instance i now name zone ip d).1
exec (set_status i s) d = (Vms.update_vm_instance_status i s d).1
exec (set_ip i ip) d = (Vms.update_vm_instance_ip i ip d).1
exec (increment i) d = (Vms.increment_vm_active_containers i d).1
exec (decrement now i) d = (Vms.decrement_vm_active_containers now i d).1
exec (set_zero_agents i t) d = (Vms.set_vm_zero_agents_since i t d).1
exec (delete_vm i) d = (Vms.delete_vm_instance i d).1
exec (create_endpoint i now c v name port) d =
    (Endpoints.create_session_endpoint i now c v name port d).1
exec (set_endpoint_status i s) d = (Endpoints.update_session_endpoint_status i s d).1
exec (touch_endpoint now c) d = (Endpoints.update_session_endpoint_last_activity now c d).1
exec (delete_endpoint i) d = (Endpoints.delete_session_endpoint i d).1

unfoldable exec_all : List Statement → Db → Db
unfolding exec
exec_all [] d = d
exec_all (s ∷ ss) d = exec_all ss (exec s d)

IsValid-update_vms :
    (q : VmInstance → Bool) (f : VmInstance → VmInstance) (d : Db)
    → ((vm : VmInstance) → (f vm).id ≡ vm.id)
    → IsValid d
    → IsValid (record d { vms = update_where q f d.vms })
IsValid-update_vms q f d same v = record {
  apart = v.apart;
  distinct = DistinctVms-update_where q f same d.vms v.distinct;
  bound =
      All-map (Bound d.vms)
        (λ ep b.
          any-update_where (has_id ep.vm_instance_id) q f (λ a. ground (arith, same a)) d.vms ∙ b)
        d.endpoints v.bound;
}

IsValid-update_endpoints :
    (q : SessionEndpoint → Bool) (f : SessionEndpoint → SessionEndpoint) (d : Db)
    → SameKeys f
    → IsValid d
    → IsValid (record d { endpoints = update_where q f d.endpoints })
IsValid-update_endpoints q f d same v = record {
  apart = Apart-update_where q f same d.endpoints v.apart;
  distinct = v.distinct;
  bound = All-update_where (Bound d.vms) q f (λ ep b. rw ((same ep).2) b) d.endpoints v.bound;
}

IsValid-add_endpoint :
    (ep : SessionEndpoint) (d : Db)
    → any (conflicts ep.id ep.conversation_id ep.vm_instance_id ep.port) d.endpoints ≡ false
    → Bound d.vms ep
    → IsValid d
    → IsValid (record d { endpoints = d.endpoints ++ ep ∷ [] })
IsValid-add_endpoint ep d free b v = record {
  apart = Apart-snoc d.endpoints ep free v.apart;
  distinct = v.distinct;
  bound = All-append (Bound d.vms) d.endpoints (ep ∷ []) v.bound (b, tt);
}

IsValid-add_vm :
    (vm : VmInstance) (d : Db)
    → any (has_id vm.id) d.vms ≡ false
    → IsValid d
    → IsValid (record d { vms = d.vms ++ vm ∷ [] })
IsValid-add_vm vm d fresh v = record {
  apart = v.apart;
  distinct = DistinctVms-snoc d.vms vm fresh v.distinct;
  bound =
      All-map (Bound d.vms)
        (λ ep b. ground (arith, any-append (has_id ep.vm_instance_id) d.vms (vm ∷ []))) d.endpoints
        v.bound;
}

-- Without an endpoint on VM `i`, the others find their VMs as before.
unused-Bound :
    (i : ℕ) (vms : List VmInstance) (eps : List SessionEndpoint)
    → any (λ ep. ep.vm_instance_id == i) eps ≡ false
    → All (Bound vms) eps
    → All (Bound (select (λ vm. not (has_id i vm)) vms)) eps
unused-Bound i vms [] h b = tt
unused-Bound i vms (ep ∷ eps) h b = (
  any-select_kept (has_id ep.vm_instance_id) (λ vm. not (has_id i vm)) (λ a. ground arith) vms
      ∙ b.0,
  unused-Bound i vms eps (ground arith) b.1,
)

pub any-nowhere :
    (i : ℕ) (vms : List VmInstance) (eps : List SessionEndpoint)
    → any (has_id i) vms ≡ false
    → All (Bound vms) eps
    → any (λ ep. ep.vm_instance_id == i) eps ≡ false
any-nowhere i vms [] h b = refl
any-nowhere i vms (ep ∷ eps) h b = ground (arith, any-nowhere i vms eps h b.1)

delete_vm-IsValid : (i : ℕ) (d : Db) → IsValid d → IsValid (Vms.delete_vm_instance i d).1
unfolding Vms.delete_vm_instance
delete_vm-IsValid i d v = elim (Bool-cases (any (has_id i) d.vms && used)) [
  | inl e ↦ rw e v
  | inr e ↦ rw e (record {
    apart = v.apart;
    distinct = DistinctVms-select (λ vm. not (has_id i vm)) d.vms v.distinct;
    bound = unused-Bound i d.vms d.endpoints (unused e) v.bound;
  })
]
  where
    used : Bool
    used = any (λ ep. ep.vm_instance_id == i) d.endpoints

    unused : (any (has_id i) d.vms && used) ≡ false → used ≡ false
    unused e = elim (Bool-cases (any (has_id i) d.vms)) [
      | inl here ↦ ground arith
      | inr gone ↦ any-nowhere i d.vms d.endpoints gone v.bound
    ]

create_vm-IsValid :
    (i now : ℕ) (name zone ip : Text) (d : Db)
    → IsValid d
    → IsValid (Vms.create_vm_instance i now name zone ip d).1
unfolding Vms.create_vm_instance
create_vm-IsValid i now name zone ip d v = elim (Bool-cases (any named d.vms)) [
  | inl e ↦ rw e v
  | inr e ↦ rw e (elim (Bool-cases (any (has_id i) d.vms)) [
    | inl f ↦ rw f v
    | inr f ↦ rw f (IsValid-add_vm _ d f v)
  ])
]
  where
    named : VmInstance → Bool
    named vm = same_text vm.gce_instance_name name

create_endpoint-IsValid :
    (i now c vm_id : ℕ) (name : Text) (port : ℕ) (d : Db)
    → IsValid d
    → IsValid (Endpoints.create_session_endpoint i now c vm_id name port d).1
unfolding Endpoints.create_session_endpoint
create_endpoint-IsValid i now c vm_id name port d v =
    elim (Bool-cases (any (conflicts i c vm_id port) d.endpoints)) [
      | inl e ↦ rw e v
      | inr e ↦ rw e (elim (Bool-cases (any (has_id vm_id) d.vms)) [
        | inl f ↦ rw f (IsValid-add_endpoint _ d e f v)
        | inr f ↦ rw f v
      ])
    ]

delete_endpoint-IsValid :
    (i : ℕ) (d : Db) → IsValid d → IsValid (Endpoints.delete_session_endpoint i d).1
unfolding Endpoints.delete_session_endpoint
delete_endpoint-IsValid i d v = record {
  apart = Apart-select (λ ep. not (ep.id == i)) d.endpoints v.apart;
  distinct = v.distinct;
  bound = All-select (Bound d.vms) (λ ep. not (ep.id == i)) d.endpoints v.bound;
}

update_status-IsValid :
    (i : ℕ) (s : VmStatus) (d : Db) → IsValid d → IsValid (Vms.update_vm_instance_status i s d).1
unfolding Vms.update_vm_instance_status
update_status-IsValid i s d v =
    elim (Bool-cases (any (has_id i) d.vms && not (Vms.status_allowed s))) [
      | inl e ↦ rw e v
      | inr e ↦
          rw e (IsValid-update_vms (has_id i) (λ vm. record vm { status = s }) d (λ vm. refl) v)
    ]

pub exec-IsValid : (s : Statement) (d : Db) → IsValid d → IsValid (exec s d)
unfolding exec Vms.update_vm_instance_ip Vms.increment_vm_active_containers
    Vms.decrement_vm_active_containers Vms.set_vm_zero_agents_since
    Endpoints.update_session_endpoint_status Endpoints.update_session_endpoint_last_activity
exec-IsValid (create_vm i now name zone ip) d v = create_vm-IsValid i now name zone ip d v
exec-IsValid (set_status i s) d v = update_status-IsValid i s d v
exec-IsValid (set_ip i ip) d v = IsValid-update_vms (has_id i) _ d (λ vm. refl) v
exec-IsValid (increment i) d v = IsValid-update_vms (has_id i) _ d (λ vm. refl) v
exec-IsValid (decrement now i) d v = IsValid-update_vms (has_id i) _ d (λ vm. refl) v
exec-IsValid (set_zero_agents i t) d v = IsValid-update_vms (has_id i) _ d (λ vm. refl) v
exec-IsValid (delete_vm i) d v = delete_vm-IsValid i d v
exec-IsValid (create_endpoint i now c vm_id name port) d v =
    create_endpoint-IsValid i now c vm_id name port d v
exec-IsValid (set_endpoint_status i s) d v =
    IsValid-update_endpoints (λ ep. ep.id == i) _ d (λ ep. (refl, refl, refl, refl)) v
exec-IsValid (touch_endpoint now c) d v =
    IsValid-update_endpoints (Endpoints.of_conversation c) _ d (λ ep. (refl, refl, refl, refl)) v
exec-IsValid (delete_endpoint i) d v = delete_endpoint-IsValid i d v

-- From tables that meet the constraints (distinct VM ids; endpoints that share no id, no
-- conversation and no port of one VM; every endpoint on an existing VM), any sequence of the
-- repository's writes leads to tables that meet them.
exec_all-IsValid : (ss : List Statement) (d : Db) → IsValid d → IsValid (exec_all ss d)
unfolding exec_all
exec_all-IsValid [] d v = v
exec_all-IsValid (s ∷ ss) d v = exec_all-IsValid ss (exec s d) (exec-IsValid s d v)
