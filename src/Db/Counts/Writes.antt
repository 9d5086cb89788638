-- ===== src/Db/Counts/Writes.antt =====
-- What each write does to the counters.
use mathlib.Core.List.{Memᴰ}
use cc_tunnel.Common.{
  ℕ, ◌+◌, ◌-◌, ◌≤◌, ◌<◌, ◌≡◌, refl, sym, ◌∙◌, Bool, true, false, not, ◌&&◌, List, [], ◌∷◌, ◌++◌,
  arith, Text, ◌==◌, leb, none, some, update_where, any, All, All-map, All-append, All-select,
  Bool-cases, inl, inr, if◌then◌else◌, same_text, Ends,
}
use cc_tunnel.Db.{VmStatus, VmInstance, SessionEndpoint, Db}
use cc_tunnel.Db.Vms
use cc_tunnel.Db.Vms.{has_id}
use cc_tunnel.Db.Endpoints
use cc_tunnel.Db.Endpoints.{conflicts, of_conversation}
use cc_tunnel.Db.Constraints.{IsValid}
use cc_tunnel.Db.Invariant.{
  Statement, exec, exec-IsValid, create_vm, set_status, set_ip, increment, decrement,
  create_endpoint, delete_endpoint, set_zero_agents, touch_endpoint, delete_vm, set_endpoint_status,
  any-nowhere,
}
use cc_tunnel.Db.Counts.{
  endpoints_on, owed_to, nothing_owed, Fits, Counted, Fits-update, endpoints_on-append,
  endpoints_on-update, endpoints_on-none, endpoints_on-delete,
}

-- The statements that leave the counters, and the endpoints of each VM, alone.
abbrev pub is_quiet : Statement → Bool
is_quiet (increment i) = false
is_quiet (decrement now i) = false
is_quiet (create_endpoint i now c vm_id name port) = false
is_quiet (delete_endpoint i) = false
is_quiet _ = true

-- Every row of VM `i` has room for one more container.
abbrev pub HasRoom : ℕ → ℕ → VmInstance → Type 0
HasRoom max i vm = has_id i vm ≡ true → vm.active_containers < max

abbrev pub Room : ℕ → ℕ → Db → Type 0
Room max i d = All (HasRoom max i) d.vms

module _ (max : ℕ) where
  Fits-create_vm :
      (i now : ℕ) (name zone ip : Text) (d : Db)
      → Counted max nothing_owed d
      → All
          (Fits max nothing_owed (Vms.create_vm_instance i now name zone ip d).1.endpoints)
          (Vms.create_vm_instance i now name zone ip d).1.vms
  unfolding Vms.create_vm_instance
  Fits-create_vm i now name zone ip d c = elim (Bool-cases (any named d.vms)) [
    | inl e ↦ rw e c.fits
    | inr e ↦ rw e (elim (Bool-cases (any (has_id i) d.vms)) [
      | inl f ↦ rw f c.fits
      | inr f ↦ rw f (
          All-append (Fits max nothing_owed d.endpoints) d.vms _ c.fits (
            (
              sym (
                  endpoints_on-none i d.endpoints
                    (any-nowhere i d.vms d.endpoints f c.valid.bound)),
              omega arith,
            ),
            tt,
          ))
    ])
  ]
    where
      named : VmInstance → Bool
      named vm = same_text vm.gce_instance_name name

  Fits-set_status :
      (i : ℕ) (t : VmStatus) (d : Db)
      → Counted max nothing_owed d
      → All
          (Fits max nothing_owed (Vms.update_vm_instance_status i t d).1.endpoints)
          (Vms.update_vm_instance_status i t d).1.vms
  unfolding Vms.update_vm_instance_status
  Fits-set_status i t d c = elim (Bool-cases (any (has_id i) d.vms && not (Vms.status_allowed t))) [
    | inl e ↦ rw e c.fits
    | inr e ↦
        rw e
          (Fits-update max nothing_owed d.endpoints (has_id i) _ (λ vm. (refl, refl)) d.vms c.fits)
  ]

  Fits-delete_vm :
      (i : ℕ) (d : Db)
      → Counted max nothing_owed d
      → All
          (Fits max nothing_owed (Vms.delete_vm_instance i d).1.endpoints)
          (Vms.delete_vm_instance i d).1.vms
  unfolding Vms.delete_vm_instance
  Fits-delete_vm i d c =
      elim (Bool-cases (any (has_id i) d.vms && any (λ ep. ep.vm_instance_id == i) d.endpoints)) [
        | inl e ↦ rw e c.fits
        | inr e ↦ rw e (All-select (Fits max nothing_owed d.endpoints) _ d.vms c.fits)
      ]

  -- The endpoints change, and the VMs keep how many they have.
  Fits-same :
      (owed : ℕ → ℕ) (old new : List SessionEndpoint) (vms : List VmInstance)
      → ((i : ℕ) → endpoints_on i new ≡ endpoints_on i old)
      → All (Fits max owed old) vms
      → All (Fits max owed new) vms
  Fits-same owed old new vms same =
      All-map (Fits max owed old) (λ vm h. (h.0 ∙ sym (same vm.id), h.1)) vms

  Fits-exec :
      (s : Statement)
      → is_quiet s ≡ true
      → (d : Db) → Counted max nothing_owed d
      → All (Fits max nothing_owed (exec s d).endpoints) (exec s d).vms
  unfolding exec Vms.update_vm_instance_ip Vms.set_vm_zero_agents_since
      Endpoints.update_session_endpoint_status Endpoints.update_session_endpoint_last_activity
  Fits-exec (create_vm i now name zone ip) h d c = Fits-create_vm i now name zone ip d c
  Fits-exec (set_status i t) h d c = Fits-set_status i t d c
  Fits-exec (set_ip i ip) h d c =
      Fits-update max nothing_owed d.endpoints (has_id i) _ (λ vm. (refl, refl)) d.vms c.fits
  Fits-exec (set_zero_agents i t) h d c =
      Fits-update max nothing_owed d.endpoints (has_id i) _ (λ vm. (refl, refl)) d.vms c.fits
  Fits-exec (delete_vm i) h d c = Fits-delete_vm i d c
  Fits-exec (set_endpoint_status i s) h d c =
      Fits-same nothing_owed d.endpoints _ d.vms
        (λ j.
          endpoints_on-update j (λ ep. ep.id == i) (λ ep. record ep { status = s }) (λ ep. refl)
            d.endpoints)
        c.fits
  Fits-exec (touch_endpoint now k) h d c =
      Fits-same nothing_owed d.endpoints _ d.vms
        (λ j.
          endpoints_on-update j (of_conversation k) (λ ep. record ep { last_activity = now })
            (λ ep. refl) d.endpoints)
        c.fits
  Fits-exec (increment i) h d c = cc
  Fits-exec (decrement now i) h d c = cc
  Fits-exec (create_endpoint i now k vm_id name port) h d c = cc
  Fits-exec (delete_endpoint i) h d c = cc

  pub exec-Counted :
      (s : Statement)
      → is_quiet s ≡ true
      → (d : Db) → Counted max nothing_owed d
      → Counted max nothing_owed (exec s d)
  exec-Counted s h d c = record { valid = exec-IsValid s d c.valid; fits = Fits-exec s h d c }

  Fits-increment :
      (i : ℕ) (eps : List SessionEndpoint) (vms : List VmInstance)
      → All (HasRoom max i) vms
      → All (Fits max (owed_to i) eps) vms
      → All (Fits max nothing_owed eps) (
          update_where
            (has_id i)
            (λ (vm : VmInstance). record vm {
              active_containers = vm.active_containers + 1;
              idle_since = none;
            })
            vms)
  Fits-increment i eps [] room h = tt
  Fits-increment i eps (vm ∷ vms) room h = elim (Bool-cases (has_id i vm)) [
    | inl e ↦ rw e (ground (arith, e, h.0, room.0 e), Fits-increment i eps vms room.1 h.1)
    | inr e ↦ rw e (ground (arith, e, h.0), Fits-increment i eps vms room.1 h.1)
  ]

  pub increment-Counted :
      (i : ℕ) (d : Db)
      → Room max i d
      → Counted max (owed_to i) d
      → Counted max nothing_owed (exec (increment i) d)
  unfolding exec Vms.increment_vm_active_containers
  increment-Counted i d room c = record {
    valid = exec-IsValid (increment i) d c.valid;
    fits = Fits-increment i d.endpoints d.vms room c.fits;
  }

  Fits-decrement :
      (now i : ℕ) (eps : List SessionEndpoint) (vms : List VmInstance)
      → 1 ≤ endpoints_on i eps
      → All (Fits max nothing_owed eps) vms
      → All (Fits max (owed_to i) eps) (
          update_where
            (has_id i)
            (λ (vm : VmInstance). record vm {
              active_containers = vm.active_containers - 1;
              idle_since = if leb vm.active_containers 1 then some now else vm.idle_since;
            })
            vms)
  Fits-decrement now i eps [] some_there h = tt
  Fits-decrement now i eps (vm ∷ vms) some_there h = elim (Bool-cases (has_id i vm)) [
    | inl e ↦ rw e (ground (arith, e, h.0, some_there), Fits-decrement now i eps vms some_there h.1)
    | inr e ↦ rw e (ground (arith, e, h.0), Fits-decrement now i eps vms some_there h.1)
  ]

  pub decrement-Counted :
      (now i : ℕ) (d : Db)
      → 1 ≤ endpoints_on i d.endpoints
      → Counted max nothing_owed d
      → Counted max (owed_to i) (exec (decrement now i) d)
  unfolding exec Vms.decrement_vm_active_containers
  decrement-Counted now i d h c = record {
    valid = exec-IsValid (decrement now i) d c.valid;
    fits = Fits-decrement now i d.endpoints d.vms h c.fits;
  }

  pub delete-Counted :
      (ep : SessionEndpoint) (d : Db)
      → Memᴰ ep d.endpoints
      → Counted max (owed_to ep.vm_instance_id) d
      → Counted max nothing_owed (exec (delete_endpoint ep.id) d)
  unfolding exec Endpoints.delete_session_endpoint
  delete-Counted ep d m c = record {
    valid = exec-IsValid (delete_endpoint ep.id) d c.valid;
    fits =
        All-map (Fits max (owed_to ep.vm_instance_id) d.endpoints)
          (λ vm h. omega (
            arith,
            h,
            endpoints_on-delete vm.id ep.id ep.vm_instance_id d.endpoints ep c.valid.apart m refl
                refl,
          ))
          d.vms c.fits;
  }

  Fits-add :
      (eps : List SessionEndpoint) (ep : SessionEndpoint) (vms : List VmInstance)
      → All (Fits max nothing_owed eps) vms
      → All (Fits max (owed_to ep.vm_instance_id) (eps ++ ep ∷ [])) vms
  Fits-add eps ep vms =
      All-map (Fits max nothing_owed eps)
        (λ vm h. ground (arith, h, endpoints_on-append vm.id eps ep)) vms

  pub create-Counted :
      (i now k vm_id : ℕ) (name : Text) (port : ℕ) (d : Db)
      → Counted max nothing_owed d
      → Ends
          (λ ep. Counted max (owed_to vm_id))
          (Counted max nothing_owed)
          (Endpoints.create_session_endpoint i now k vm_id name port d)
  unfolding Endpoints.create_session_endpoint exec
  create-Counted i now k vm_id name port d c =
      elim (Bool-cases (any (conflicts i k vm_id port) d.endpoints)) [
        | inl e ↦ rw e c
        | inr e ↦ elim (Bool-cases (any (has_id vm_id) d.vms)) [
          | inl f ↦
              rw (e, f)
                (record { valid = rw (e, f) at valid; fits = Fits-add d.endpoints _ d.vms c.fits })
          | inr f ↦ rw (e, f) c
        ]
      ]
    where
      valid : IsValid (Endpoints.create_session_endpoint i now k vm_id name port d).1
      valid = exec-IsValid (create_endpoint i now k vm_id name port) d c.valid

-- An insert of an endpoint leaves the VMs alone.
pub create-Room :
    (i now k vm_id : ℕ) (name : Text) (port max j : ℕ) (d : Db)
    → Room max j d
    → Room max j (Endpoints.create_session_endpoint i now k vm_id name port d).1
unfolding Endpoints.create_session_endpoint
create-Room i now k vm_id name port max j d r =
    elim (Bool-cases (any (conflicts i k vm_id port) d.endpoints)) [
      | inl e ↦ rw e r
      | inr e ↦
          rw e (elim (Bool-cases (any (has_id vm_id) d.vms)) [ inl f ↦ rw f r | inr f ↦ rw f r ])
    ]
