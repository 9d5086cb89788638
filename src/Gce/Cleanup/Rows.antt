-- ===== src/Gce/Cleanup/Rows.antt =====
-- What the steps of CleanupOrphans do to the table of endpoints.
use native.Mathlib.Decide.{ℕ_discrete}
use mathlib.Core.Bool.{true≢false}
use cc_tunnel.Common.{
  Result, Action, ◌&&◌, resume, ℕ, ◌+◌, ◌≡◌, ◌≢◌, refl, sym, ap, ◌∙◌, ◌⊎◌, inl, inr, Bool, true,
  false, not, ◌==◌, List, [], ◌∷◌, is_empty, arith, any, select, any-select_kept, Bool-cases, ok,
  err,
}
use cc_tunnel.Db.{SessionEndpoint, VmInstance, Db}
use cc_tunnel.Db.Vms.{
  has_id, get_vm_instance, decrement_vm_active_containers, list_idle_vm_instances,
  delete_vm_instance,
}
use cc_tunnel.Db.Endpoints.{delete_session_endpoint}
use cc_tunnel.Gce.{Config, Outside, World, query}
use cc_tunnel.Gce.Endpoint.{discard}
use cc_tunnel.Gce.Cleanup.{
  nothing, stop_on, stop_agent, clean_endpoint, clean_vm, clean_vms, clean_idle_vms,
}

abbrev pub has_endpoint : ℕ → World → Bool
has_endpoint i w = any (λ ep. ep.id == i) w.db.endpoints

module _ (o : Outside) (cfg : Config) where
  db-stop_on :
      (ep : SessionEndpoint) (vm : VmInstance) (w : World) → (stop_on o cfg ep vm w).1.db ≡ w.db
  unfolding stop_on discard nothing
  db-stop_on ep vm w = elim (Bool-cases (is_empty vm.internal_ip)) [
    | inl e ↦ rw e refl
    | inr e ↦ rw e (elim (Bool-cases (o.client_ok w.calls vm.internal_ip)) [
      | inl y ↦ rw y refl
      | inr y ↦ rw y refl
    ])
  ]

  db-looked_up : (i : ℕ) (w : World) → (query o (λ now id. get_vm_instance i) w).1.db ≡ w.db
  unfolding get_vm_instance
  db-looked_up i w = elim (Bool-cases (o.db_answers w.calls)) [
    | inl e ↦ rw e refl
    | inr e ↦ rw e refl
  ]

  db-stop_agent : (ep : SessionEndpoint) (w : World) → (stop_agent o cfg ep w).1.db ≡ w.db
  unfolding stop_agent nothing
  db-stop_agent ep w =
      after (query o (λ now id. get_vm_instance ep.vm_instance_id) w)
        (db-looked_up ep.vm_instance_id w)
    where
      after :
          (p : Result VmInstance × World)
          → p.1.db ≡ w.db
          → ((elim p.0 as (λ _. Action World (Unit {0})) [
            | ok vm ↦ stop_on o cfg ep vm
            | err e ↦ nothing o cfg
          ])
              p.1).1.db
            ≡ w.db
      after (ok vm, v) e = db-stop_on ep vm v ∙ e
      after (err x, v) e = e

  abbrev without : ℕ → List SessionEndpoint → List SessionEndpoint
  without i = select (λ x. not (x.id == i))

  endpoints-decrement :
      (i : ℕ) (w : World)
      → (query o (λ now id. decrement_vm_active_containers now i) w).1.db.endpoints ≡ w.db.endpoints
  unfolding decrement_vm_active_containers
  endpoints-decrement i w = elim (Bool-cases (o.db_answers w.calls)) [
    | inl e ↦ rw e refl
    | inr e ↦ rw e refl
  ]

  endpoints-delete :
      (i : ℕ) (w : World)
      → ((query o (λ now id. delete_session_endpoint i) w).1.db.endpoints ≡ w.db.endpoints)
        ⊎ ((query o (λ now id. delete_session_endpoint i) w).1.db.endpoints
            ≡ without i w.db.endpoints)
  unfolding delete_session_endpoint
  endpoints-delete i w = elim (Bool-cases (o.db_answers w.calls)) [
    | inl e ↦ rw e (inr refl)
    | inr e ↦ rw e (inl refl)
  ]

  clean_endpoint-Cleaned :
      (ep : SessionEndpoint) (w : World)
      → ((clean_endpoint o cfg ep w).1.db.endpoints ≡ w.db.endpoints)
        ⊎ ((clean_endpoint o cfg ep w).1.db.endpoints ≡ without ep.id w.db.endpoints)
  unfolding clean_endpoint
  clean_endpoint-Cleaned ep w = elim (endpoints-delete ep.id u) [
    | inl e ↦ inl (e ∙ kept)
    | inr e ↦ inr (e ∙ ap (without ep.id) kept)
  ]
    where
      u : World
      u =
          (query o (λ now id. decrement_vm_active_containers now ep.vm_instance_id)
            (stop_agent o cfg ep w).1).1

      kept : u.db.endpoints ≡ w.db.endpoints
      kept =
          endpoints-decrement ep.vm_instance_id (stop_agent o cfg ep w).1
          ∙ ap (λ (d : Db). d.endpoints) (db-stop_agent ep w)

  pub clean_endpoint-gone :
      (ep : SessionEndpoint) (i : ℕ) (w : World)
      → has_endpoint i w ≡ true
      → has_endpoint i (clean_endpoint o cfg ep w).1 ≡ false
      → ep.id ≡ i
  clean_endpoint-gone ep i w here gone = elim (ℕ_discrete ep.id i) [
    | yes e ↦ e
    | no n ↦ absurd (elim (clean_endpoint-Cleaned ep w) [
      | inl e ↦ true≢false (sym here ∙ ap found (sym e) ∙ gone)
      | inr e ↦ true≢false (
          sym here
          ∙ sym
              (any-select_kept (λ x. x.id == i) (λ x. not (x.id == ep.id)) (kept n) w.db.endpoints)
          ∙ ap found (sym e)
          ∙ gone)
    ])
  ]
    where
      found : List SessionEndpoint → Bool
      found = any (λ ep. ep.id == i)

      kept : ep.id ≢ i → (a : SessionEndpoint) → (a.id == i) ≡ true → not (a.id == ep.id) ≡ true
      kept n a h = ground arith

  endpoints-delete_vm : (i : ℕ) (d : Db) → (delete_vm_instance i d).1.endpoints ≡ d.endpoints
  unfolding delete_vm_instance
  endpoints-delete_vm i d =
      elim (Bool-cases (any (has_id i) d.vms && any (λ ep. ep.vm_instance_id == i) d.endpoints)) [
        | inl e ↦ rw e refl
        | inr e ↦ rw e refl
      ]

  endpoints-clean_vm :
      (vm : VmInstance) (w : World) → (clean_vm o cfg vm w).1.db.endpoints ≡ w.db.endpoints
  unfolding clean_vm
  endpoints-clean_vm vm w = elim (Bool-cases (o.db_answers (w.calls + 1))) [
    | inl e ↦ rw e (endpoints-delete_vm vm.id w.db)
    | inr e ↦ rw e refl
  ]

  endpoints-clean_vms :
      (vms : List VmInstance) (w : World) → (clean_vms o cfg vms w).1.db.endpoints ≡ w.db.endpoints
  unfolding clean_vms
  endpoints-clean_vms [] w = refl
  endpoints-clean_vms (vm ∷ vms) w =
      go (clean_vm o cfg vm w) (endpoints-clean_vm vm w) (λ v. endpoints-clean_vms vms v)
    where
      go :
          (p : Result (Unit {0}) × World)
          → p.1.db.endpoints ≡ w.db.endpoints
          → ((v : World) → (clean_vms o cfg vms v).1.db.endpoints ≡ v.db.endpoints)
          → (resume (λ _. clean_vms o cfg vms) p).1.db.endpoints ≡ w.db.endpoints
      go (ok a, v) e rest = rest v ∙ e
      go (err x, v) e rest = e

  pub endpoints-clean_idle_vms :
      (w : World) → (clean_idle_vms o cfg w).1.db.endpoints ≡ w.db.endpoints
  unfolding clean_idle_vms list_idle_vm_instances
  endpoints-clean_idle_vms w = elim (Bool-cases (o.db_answers w.calls)) [
    | inr e ↦ rw e refl
    | inl e ↦ rw e (endpoints-clean_vms _ (record w { calls = w.calls + 1 }))
  ]
