-- ===== src/Gce/Cleanup/Spares.antt =====
-- Which GCE instances CleanupOrphans deletes.
use cc_tunnel.Common.{
  ℕ, ◌+◌, ◌==◌, ◌≡◌, refl, ap, ◌∙◌, ◌⊎◌, inl, inr, Bool, true, false, List, [], ◌∷◌, Text, Result,
  ok, err, Action, ◌>>=◌, arith, any, select, same_text, All, All-update_where, Bool-cases, Keeps,
  Keeps-bind, Keeps-unless_ok,
}
use cc_tunnel.Db.{VmInstance, SessionEndpoint, Db}
use cc_tunnel.Db.Vms.{
  has_id, is_idle_vm, get_vm_instance, decrement_vm_active_containers, list_idle_vm_instances,
}
use cc_tunnel.Db.Endpoints.{list_idle_session_endpoints, delete_session_endpoint}
use cc_tunnel.Db.Counts.{Counted, Fits, nothing_owed, endpoints_on}
use cc_tunnel.Gce.{Config, Outside, World, Request, delete_instance, query}
use cc_tunnel.Gce.Endpoint.{discard}
use cc_tunnel.Gce.Cleanup.{
  nothing, stop_on, stop_agent, clean_endpoint, clean_endpoints, clean_vm, clean_vms,
  clean_idle_endpoints, clean_idle_vms, cleanup_orphans,
}
use cc_tunnel.Gce.Cleanup.Kept.{Kept-clean_idle_endpoints}
use cc_tunnel.Gce.Cleanup.Rows.{endpoints-clean_idle_vms}
use cc_tunnel.Gce.Cleanup.Counters.{clean_idle_endpoints-Counted}

-- A request to delete the instance, accepted or not.
abbrev pub asks_deletion : Text → Request × Bool → Bool
asks_deletion name (delete_instance n, accepted) = same_text n name
asks_deletion name _ = false

abbrev pub is_on : ℕ → SessionEndpoint → Bool
is_on i ep = ep.vm_instance_id == i

-- The instance's name is that of the VM `i` alone.
abbrev pub OwnName : ℕ → Text → VmInstance → Type 0
OwnName i name vm = same_text vm.gce_instance_name name ≡ true → vm.id ≡ i

-- The instance is not asked to be deleted, or no endpoint is on its VM.
pub record Spares (i : ℕ) (name : Text) (w : World) : Type 0 where
  pub spared : (any (asks_deletion name) w.sent ≡ false) ⊎ (any (is_on i) w.db.endpoints ≡ false)

endpoints_on-zero :
    (i : ℕ) (eps : List SessionEndpoint) → endpoints_on i eps ≡ 0 → any (is_on i) eps ≡ false
endpoints_on-zero i [] h = refl
endpoints_on-zero i (x ∷ eps) h = ground (arith, endpoints_on-zero i eps)

-- An idle VM of the name has no endpoint.
idle-empty :
    (max now threshold i : ℕ) (name : Text) (eps : List SessionEndpoint) (vms : List VmInstance)
    → All (Fits max nothing_owed eps) vms
    → All (OwnName i name) vms
    → any (λ vm. same_text vm.gce_instance_name name) (select (is_idle_vm now threshold) vms) ≡ true
    → endpoints_on i eps ≡ 0
idle-empty max now threshold i name eps [] fits own h = cc
idle-empty max now threshold i name eps (vm ∷ vms) fits own h =
    elim (Bool-cases (is_idle_vm now threshold vm)) [
      | inr e ↦ idle-empty max now threshold i name eps vms fits.1 own.1 (rw e at h)
      | inl e ↦ elim (Bool-cases (same_text vm.gce_instance_name name)) [
        | inr n ↦ idle-empty max now threshold i name eps vms fits.1 own.1 (rw (e, n) at h)
        | inl s ↦ rw (← own.0 s) (ground (arith, fits.0.0))
      ]
    ]

module _ (o : Outside) (cfg : Config) (i : ℕ) (name : Text) where
  abbrev Unasked : World → Type 0
  Unasked w = any (asks_deletion name) w.sent ≡ false

  Unasked-query : {A : Type 0} (q : ℕ → ℕ → Action Db A) → Keeps Unasked (query o q)
  Unasked-query q w h = elim (Bool-cases (o.db_answers w.calls)) [ inl e ↦ rw e h | inr e ↦ rw e h ]

  Unasked-stop_on : (ep : SessionEndpoint) (vm : VmInstance) → Keeps Unasked (stop_on o cfg ep vm)
  unfolding stop_on nothing discard
  Unasked-stop_on ep vm w h = ground arith

  Unasked-stop_agent : (ep : SessionEndpoint) → Keeps Unasked (stop_agent o cfg ep)
  unfolding stop_agent nothing
  Unasked-stop_agent ep =
      Keeps-unless_ok Unasked (query o (λ now id. get_vm_instance ep.vm_instance_id))
        (nothing o cfg) (stop_on o cfg ep)
        (Unasked-query (λ now id. get_vm_instance ep.vm_instance_id)) (λ w h. h)
        (Unasked-stop_on ep)

  Unasked-clean_endpoint : (ep : SessionEndpoint) → Keeps Unasked (clean_endpoint o cfg ep)
  unfolding clean_endpoint
  Unasked-clean_endpoint ep w h =
      Unasked-query (λ now id. delete_session_endpoint ep.id) _
        (Unasked-query (λ now id. decrement_vm_active_containers now ep.vm_instance_id) _
          (Unasked-stop_agent ep w h))

  Unasked-clean_endpoints : (eps : List SessionEndpoint) → Keeps Unasked (clean_endpoints o cfg eps)
  unfolding clean_endpoints
  Unasked-clean_endpoints [] w h = h
  Unasked-clean_endpoints (ep ∷ eps) w h =
      Keeps-bind Unasked (clean_endpoint o cfg ep) (λ _. clean_endpoints o cfg eps)
        (Unasked-clean_endpoint ep) (λ _. Unasked-clean_endpoints eps) w h

  Unasked-clean_idle_endpoints : Keeps Unasked (clean_idle_endpoints o cfg)
  unfolding clean_idle_endpoints list_idle_session_endpoints
  Unasked-clean_idle_endpoints =
      Keeps-bind Unasked (query o (λ now id. list_idle_session_endpoints now cfg.idle_timeout))
        (clean_endpoints o cfg) (λ w h. ground arith) Unasked-clean_endpoints

  Unasked-clean_vm :
      (vm : VmInstance)
      → same_text vm.gce_instance_name name ≡ false
      → Keeps Unasked (clean_vm o cfg vm)
  unfolding clean_vm
  Unasked-clean_vm vm n w h = ground arith

  Unasked-clean_vms :
      (vms : List VmInstance)
      → any (λ vm. same_text vm.gce_instance_name name) vms ≡ false
      → Keeps Unasked (clean_vms o cfg vms)
  unfolding clean_vms
  Unasked-clean_vms [] n w h = h
  Unasked-clean_vms (vm ∷ vms) n w h =
      Keeps-bind Unasked (clean_vm o cfg vm) (λ _. clean_vms o cfg vms)
        (Unasked-clean_vm vm (ground arith)) (λ _. Unasked-clean_vms vms (ground arith)) w h

  module _ (answers : (n : ℕ) → o.db_answers n ≡ true) where
    clean_idle_vms-Spares :
        (w : World)
        → Counted cfg.max_containers nothing_owed w.db
        → All (OwnName i name) w.db.vms
        → Unasked w
        → Spares i name (clean_idle_vms o cfg w).1
    clean_idle_vms-Spares w c own h =
        elim (Bool-cases (any (λ vm. same_text vm.gce_instance_name name) idle)) [
          | inl e ↦ record {
            spared = inr (
                ap (any (is_on i)) (endpoints-clean_idle_vms o cfg w)
                ∙ endpoints_on-zero i w.db.endpoints (
                    idle-empty cfg.max_containers (o.now w.calls) cfg.idle_timeout i name
                      w.db.endpoints w.db.vms c.fits own e));
          }
          | inr e ↦ record { spared = inl (unasked e) }
        ]
      where
        idle : List VmInstance
        idle = select (is_idle_vm (o.now w.calls) cfg.idle_timeout) w.db.vms

        unasked :
            any (λ vm. same_text vm.gce_instance_name name) idle ≡ false
            → Unasked (clean_idle_vms o cfg w).1
        unasked e =
            unfold clean_idle_vms list_idle_vm_instances in
            rw (answers w.calls) (Unasked-clean_vms idle e (record w { calls = w.calls + 1 }) h)

    bind-Spares :
        (p : Result (Unit {0}) × World)
        → Counted cfg.max_containers nothing_owed p.1.db
        → All (OwnName i name) p.1.db.vms
        → Unasked p.1
        → Spares i name (((λ _. p) >>= λ _. clean_idle_vms o cfg) p.1).1
    bind-Spares (err e, w) c own h = record { spared = inl h }
    bind-Spares (ok a, w) c own h = clean_idle_vms-Spares w c own h

    OwnName-decrement :
        (now j : ℕ) (d : Db)
        → All (OwnName i name) d.vms
        → All (OwnName i name) (decrement_vm_active_containers now j d).1.vms
    unfolding decrement_vm_active_containers
    OwnName-decrement now j d own =
        All-update_where (OwnName i name) (has_id j) _ (λ vm h. h) d.vms own

    OwnName-delete :
        (j : ℕ) (d : Db)
        → All (OwnName i name) d.vms
        → All (OwnName i name) (delete_session_endpoint j d).1.vms
    unfolding delete_session_endpoint
    OwnName-delete j d own = own

    -- While the database answers, and from tables that meet the constraints, in which every VM's
    -- active_containers is the number of session endpoints on it and at most the configured maximum,
    -- and only VM `i` has the instance's name: whatever the rest answers, CleanupOrphans does not ask
    -- GCE to delete that instance, if that was not asked before, or else no session endpoint is on
    -- its VM when it ends.
    pub cleanup_orphans-Spares :
        (w : World)
        → Counted cfg.max_containers nothing_owed w.db
        → All (OwnName i name) w.db.vms
        → any (asks_deletion name) w.sent ≡ false
        → Spares i name (cleanup_orphans o cfg w).1
    unfolding cleanup_orphans
    cleanup_orphans-Spares w c own h =
        bind-Spares (clean_idle_endpoints o cfg w) (clean_idle_endpoints-Counted o cfg answers w c)
          (Kept-clean_idle_endpoints o cfg (λ d. All (OwnName i name) d.vms) OwnName-decrement
            OwnName-delete w own)
          (Unasked-clean_idle_endpoints w h)
