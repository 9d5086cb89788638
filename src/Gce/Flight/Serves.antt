-- ===== src/Gce/Flight/Serves.antt =====
-- A conversation's endpoint stays the one that is found, through every write on the way to others.
use cc_tunnel.Common.{
  ℕ, ◌≡◌, refl, ◌∙◌, ap, Bool, true, ◌==◌, ◌&&◌, not, some, List, [], ◌∷◌, ◌++◌, arith, Text,
  if◌then◌else◌, find_first, any, update_where, Bool-cases, inl, inr, if-either, same_text,
}
use cc_tunnel.Db.{SessionEndpoint, VmInstance, VmStatus, EndpointStatus, Db}
use cc_tunnel.Db.Vms
use cc_tunnel.Db.Vms.{has_id}
use cc_tunnel.Db.Endpoints
use cc_tunnel.Db.Endpoints.{is_running, of_conversation, conflicts}
use cc_tunnel.Db.Invariant.{
  Statement, exec, create_vm, set_status, set_ip, increment, decrement, set_zero_agents, delete_vm,
  create_endpoint, set_endpoint_status, touch_endpoint, delete_endpoint,
}
use cc_tunnel.Gce.Keeps.{is_start}
use cc_tunnel.Gce.Flight.{spares}

-- The same row, up to its status and the time of its last activity.
pub record SameRow (a b : SessionEndpoint) : Type 0 where
  pub id : a.id ≡ b.id
  pub vm : a.vm_instance_id ≡ b.vm_instance_id
  pub port : a.port ≡ b.port
  pub name : a.container_name ≡ b.container_name

-- The lookup of conversation `c` finds the row `ep`, and it is running.
pub record Serves (c : ℕ) (ep : SessionEndpoint) (d : Db) : Type 0 where
  pub row : SessionEndpoint
  pub found : find_first (of_conversation c) d.endpoints ≡ some row
  pub running : is_running row.status ≡ true
  pub same : SameRow row ep

find_first-append :
    (p : SessionEndpoint → Bool) (xs ys : List SessionEndpoint) (a : SessionEndpoint)
    → find_first p xs ≡ some a
    → find_first p (xs ++ ys) ≡ some a
find_first-append p [] ys a h = cc
find_first-append p (x ∷ xs) ys a h = elim (Bool-cases (p x)) [
  | inl e ↦ ground arith
  | inr e ↦ ground (arith, find_first-append p xs ys a)
]

find_first-update_where :
    (p q : SessionEndpoint → Bool) (f : SessionEndpoint → SessionEndpoint)
    → ((x : SessionEndpoint) → p (f x) ≡ p x)
    → (xs : List SessionEndpoint) (a : SessionEndpoint) → find_first p xs ≡ some a
    → find_first p (update_where q f xs) ≡ some (if q a then f a else a)
find_first-update_where p q f same [] a h = cc
find_first-update_where p q f same (x ∷ xs) a h = elim (Bool-cases (p x)) [
  | inl e ↦ elim (Bool-cases (q x)) [
    | inl g ↦ rw (g, same x, e) (ground (arith, h))
    | inr g ↦ rw (g, e) (ground (arith, h))
  ]
  | inr e ↦ elim (Bool-cases (q x)) [
    | inl g ↦ rw (g, same x, e) (find_first-update_where p q f same xs a (ground arith))
    | inr g ↦ rw (g, e) (find_first-update_where p q f same xs a (ground arith))
  ]
]

module _ (c : ℕ) (ep : SessionEndpoint) where
  Serves-endpoints : (d e : Db) → e.endpoints ≡ d.endpoints → Serves c ep d → Serves c ep e
  Serves-endpoints d e h s = record {
    row = s.row;
    found = ap (find_first (of_conversation c)) h ∙ s.found;
    running = s.running;
    same = s.same;
  }

  Serves-add :
      (d : Db) (x : SessionEndpoint)
      → Serves c ep d
      → Serves c ep (record d { endpoints = d.endpoints ++ x ∷ [] })
  Serves-add d x s = record {
    row = s.row;
    found = find_first-append (of_conversation c) d.endpoints (x ∷ []) s.row s.found;
    running = s.running;
    same = s.same;
  }

  Serves-create :
      (i now k vm_id port : ℕ) (name : Text) (d : Db)
      → Serves c ep d
      → Serves c ep (Endpoints.create_session_endpoint i now k vm_id name port d).1
  unfolding Endpoints.create_session_endpoint
  Serves-create i now k vm_id port name d s =
      elim (Bool-cases (any (conflicts i k vm_id port) d.endpoints)) [
        | inl e ↦ rw e s
        | inr e ↦ rw e (elim (Bool-cases (any (has_id vm_id) d.vms)) [
          | inl f ↦ rw f (Serves-add d _ s)
          | inr f ↦ rw f s
        ])
      ]

  Serves-touch :
      (now k : ℕ) (d : Db)
      → Serves c ep d
      → Serves c ep (Endpoints.update_session_endpoint_last_activity now k d).1
  unfolding Endpoints.update_session_endpoint_last_activity
  Serves-touch now k d s = record {
    row = if of_conversation k s.row then moved else s.row;
    found =
        find_first-update_where (of_conversation c) (of_conversation k)
          (λ x. record x { last_activity = now }) (λ x. refl) d.endpoints s.row s.found;
    running =
        if-either (λ (x : SessionEndpoint). is_running x.status ≡ true) (of_conversation k s.row)
          moved s.row s.running s.running;
    same =
        if-either (λ x. SameRow x ep) (of_conversation k s.row) moved s.row
          (record { id = s.same.id; vm = s.same.vm; port = s.same.port; name = s.same.name })
          s.same;
  }
    where
      moved : SessionEndpoint
      moved = record s.row { last_activity = now }

  Serves-create_vm :
      (i now : ℕ) (name zone ip : Text) (d : Db)
      → Serves c ep d
      → Serves c ep (Vms.create_vm_instance i now name zone ip d).1
  unfolding Vms.create_vm_instance
  Serves-create_vm i now name zone ip d s = elim (Bool-cases (any named d.vms)) [
    | inl e ↦ rw e s
    | inr e ↦ rw e (elim (Bool-cases (any (has_id i) d.vms)) [
      | inl f ↦ rw f s
      | inr f ↦ rw f (Serves-endpoints d _ refl s)
    ])
  ]
    where
      named : VmInstance → Bool
      named vm = same_text vm.gce_instance_name name

  Serves-set_status :
      (i : ℕ) (t : VmStatus) (d : Db)
      → Serves c ep d
      → Serves c ep (Vms.update_vm_instance_status i t d).1
  unfolding Vms.update_vm_instance_status
  Serves-set_status i t d s =
      elim (Bool-cases (any (has_id i) d.vms && not (Vms.status_allowed t))) [
        | inl e ↦ rw e s
        | inr e ↦ rw e (Serves-endpoints d _ refl s)
      ]

  Serves-set_endpoint_status :
      (i : ℕ) (t : EndpointStatus) (d : Db)
      → is_running t ≡ true
      → Serves c ep d
      → Serves c ep (Endpoints.update_session_endpoint_status i t d).1
  unfolding Endpoints.update_session_endpoint_status
  Serves-set_endpoint_status i t d h s = record {
    row = if s.row.id == i then moved else s.row;
    found =
        find_first-update_where (of_conversation c) (λ x. x.id == i) (λ x. record x { status = t })
          (λ x. refl) d.endpoints s.row s.found;
    running =
        if-either (λ (x : SessionEndpoint). is_running x.status ≡ true) (s.row.id == i) moved s.row
          h s.running;
    same =
        if-either (λ x. SameRow x ep) (s.row.id == i) moved s.row
          (record { id = s.same.id; vm = s.same.vm; port = s.same.port; name = s.same.name })
          s.same;
  }
    where
      moved : SessionEndpoint
      moved = record s.row { status = t }

  Serves-delete_vm : (i : ℕ) (d : Db) → Serves c ep d → Serves c ep (Vms.delete_vm_instance i d).1
  unfolding Vms.delete_vm_instance
  Serves-delete_vm i d s =
      elim (Bool-cases (any (has_id i) d.vms && any (λ x. x.vm_instance_id == i) d.endpoints)) [
        | inl e ↦ rw e s
        | inr e ↦ rw e (Serves-endpoints d _ refl s)
      ]

  pub Serves-exec :
      (q : Statement) → spares q ≡ true → (d : Db) → Serves c ep d → Serves c ep (exec q d)
  unfolding exec Vms.update_vm_instance_ip Vms.increment_vm_active_containers
      Vms.decrement_vm_active_containers Vms.set_vm_zero_agents_since
  Serves-exec (create_vm i now name zone ip) h d s = Serves-create_vm i now name zone ip d s
  Serves-exec (set_status i t) h d s = Serves-set_status i t d s
  Serves-exec (set_ip i ip) h d s = Serves-endpoints d _ refl s
  Serves-exec (increment i) h d s = Serves-endpoints d _ refl s
  Serves-exec (create_endpoint i now k vm_id name port) h d s =
      Serves-create i now k vm_id port name d s
  Serves-exec (touch_endpoint now k) h d s = Serves-touch now k d s
  Serves-exec (decrement now i) h d s = Serves-endpoints d _ refl s
  Serves-exec (set_zero_agents i t) h d s = Serves-endpoints d _ refl s
  Serves-exec (delete_vm i) h d s = Serves-delete_vm i d s
  Serves-exec (set_endpoint_status i t) h d s = Serves-set_endpoint_status i t d h s
  Serves-exec (delete_endpoint i) h d s = cc

-- The writes on the way to an endpoint are of that kind.
pub is_start-spares : (q : Statement) → is_start q ≡ true → spares q ≡ true
is_start-spares (create_vm i now name zone ip) h = refl
is_start-spares (set_status i t) h = refl
is_start-spares (set_ip i ip) h = refl
is_start-spares (increment i) h = refl
is_start-spares (create_endpoint i now k vm_id port name) h = refl
is_start-spares (touch_endpoint now k) h = refl
is_start-spares (decrement now i) h = refl
is_start-spares (set_zero_agents i t) h = refl
is_start-spares (delete_vm i) h = refl
is_start-spares (set_endpoint_status i t) h = cc
is_start-spares (delete_endpoint i) h = cc
