-- ===== src/Gce/Cleanup/Kept.antt =====
-- CleanupOrphans keeps what the repository's writes keep.
use cc_tunnel.Common.{
  ℕ, ◌≡◌, refl, true, ◌+◌, List, [], ◌∷◌, is_empty, if◌then◌else◌, Action, ◌>>=◌, Keeps-if,
  Keeps-bind, Keeps-unless_ok,
}
use cc_tunnel.Db.{Db, SessionEndpoint, VmInstance}
use cc_tunnel.Db.Vms.{
  get_vm_instance, decrement_vm_active_containers, list_idle_vm_instances, delete_vm_instance,
}
use cc_tunnel.Db.Endpoints.{list_idle_session_endpoints, delete_session_endpoint}
use cc_tunnel.Db.Invariant.{Statement, exec, delete_vm}
use cc_tunnel.Db.Counts.Writes.{is_quiet}
use cc_tunnel.Gce.{Config, Outside, World, query, ask}
use cc_tunnel.Gce.Keeps.{OfDb, Kept, Kept-query}
use cc_tunnel.Gce.Endpoint.{discard}
use cc_tunnel.Gce.Cleanup.{
  nothing, stop_on, stop_agent, clean_endpoint, clean_endpoints, clean_vm, clean_vms,
  clean_idle_endpoints, clean_idle_vms,
}

module _ (o : Outside) (cfg : Config) (I : Db → Type 0) where
  abbrev K : {A : Type 0} → Action World A → Type 0
  K m = Kept o I m

  Kept-stop_on : (ep : SessionEndpoint) (vm : VmInstance) → K (stop_on o cfg ep vm)
  unfolding stop_on nothing discard
  Kept-stop_on ep vm =
      Keeps-if (OfDb o I) (is_empty vm.internal_ip) (nothing o cfg) made (λ v j. j)
        λ v j.
          Keeps-if (OfDb o I) (o.client_ok v.calls vm.internal_ip)
            (discard o cfg vm.internal_ip ep.container_name (nothing o cfg)) (nothing o cfg)
            (λ u k. k) (λ u k. k) (record v { calls = v.calls + 1 }) j
    where
      made : Action World (Unit {0})
      made = do
        made ← ask o (λ k. o.client_ok k vm.internal_ip)
        if made
            then discard o cfg vm.internal_ip ep.container_name (nothing o cfg)
            else nothing o cfg

  pub Kept-stop_agent : (ep : SessionEndpoint) → K (stop_agent o cfg ep)
  unfolding stop_agent nothing get_vm_instance
  Kept-stop_agent ep =
      Keeps-unless_ok (OfDb o I) (query o (λ now id. get_vm_instance ep.vm_instance_id))
        (nothing o cfg) (stop_on o cfg ep)
        (Kept-query o I (λ now id. get_vm_instance ep.vm_instance_id) (λ now id d j. j)) (λ v j. j)
        (Kept-stop_on ep)

  module _ (kept : (s : Statement) → is_quiet s ≡ true → (d : Db) → I d → I (exec s d)) where
    Kept-clean_vm : (vm : VmInstance) → K (clean_vm o cfg vm)
    unfolding clean_vm exec
    Kept-clean_vm vm w i =
        Kept-query o I (λ now id. delete_vm_instance vm.id)
          (λ now id d j. kept (delete_vm vm.id) refl d j) _ i

    Kept-clean_vms : (vms : List VmInstance) → K (clean_vms o cfg vms)
    unfolding clean_vms
    Kept-clean_vms [] w i = i
    Kept-clean_vms (vm ∷ vms) w i =
        Keeps-bind (OfDb o I) (clean_vm o cfg vm) (λ _. clean_vms o cfg vms) (Kept-clean_vm vm)
          (λ _. Kept-clean_vms vms) w i

    pub Kept-clean_idle_vms : K (clean_idle_vms o cfg)
    unfolding clean_idle_vms list_idle_vm_instances
    Kept-clean_idle_vms =
        Keeps-bind (OfDb o I) (query o (λ now id. list_idle_vm_instances now cfg.idle_timeout))
          (clean_vms o cfg)
          (Kept-query o I (λ now id. list_idle_vm_instances now cfg.idle_timeout) (λ now id d j. j))
          Kept-clean_vms

  module _
      (on_decrement : (now i : ℕ) (d : Db) → I d → I (decrement_vm_active_containers now i d).1)
      (on_delete : (i : ℕ) (d : Db) → I d → I (delete_session_endpoint i d).1) where
    Kept-clean_endpoint : (ep : SessionEndpoint) → K (clean_endpoint o cfg ep)
    unfolding clean_endpoint
    Kept-clean_endpoint ep w i =
        Kept-query o I (λ now id. delete_session_endpoint ep.id) (λ now id d j. on_delete ep.id d j)
          _
          (Kept-query o I (λ now id. decrement_vm_active_containers now ep.vm_instance_id)
            (λ now id d j. on_decrement now ep.vm_instance_id d j) _ (Kept-stop_agent ep w i))

    Kept-clean_endpoints : (eps : List SessionEndpoint) → K (clean_endpoints o cfg eps)
    unfolding clean_endpoints
    Kept-clean_endpoints [] w i = i
    Kept-clean_endpoints (ep ∷ eps) w i =
        Keeps-bind (OfDb o I) (clean_endpoint o cfg ep) (λ _. clean_endpoints o cfg eps)
          (Kept-clean_endpoint ep) (λ _. Kept-clean_endpoints eps) w i

    pub Kept-clean_idle_endpoints : K (clean_idle_endpoints o cfg)
    unfolding clean_idle_endpoints list_idle_session_endpoints
    Kept-clean_idle_endpoints =
        Keeps-bind (OfDb o I) (query o (λ now id. list_idle_session_endpoints now cfg.idle_timeout))
          (clean_endpoints o cfg)
          (Kept-query o I (λ now id. list_idle_session_endpoints now cfg.idle_timeout)
            (λ now id d j. j))
          Kept-clean_endpoints
