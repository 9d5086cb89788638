-- ===== src/Gce/Endpoint/Kept.antt =====
-- The start of an endpoint keeps what the statements on its way keep.
use cc_tunnel.Common.{
  ℕ, zero, suc, ◌+◌, ◌==◌, ◌≡◌, refl, true, Text, unavailable, exhausted, timeout, Action, pure,
  fail, ◌>>=◌, Keeps-if, Keeps-bind, Keeps-unless_ok,
}
use cc_tunnel.Db.{Db, VmInstance, SessionEndpoint}
use cc_tunnel.Db.Vms.{increment_vm_active_containers}
use cc_tunnel.Db.Endpoints.{create_session_endpoint, get_smallest_available_port_on_vm}
use cc_tunnel.Db.Invariant.{Statement, exec, increment, create_endpoint}
use cc_tunnel.Gce.{Config, Outside, World, query, send, run_agent}
use cc_tunnel.Gce.Keeps.{is_start, is_vm_write, is_vm_write-is_start, OfDb, Kept, Kept-query}
use cc_tunnel.Gce.Wait.{wait_for_agent_ready}
use cc_tunnel.Gce.Wait.Kept.{Kept-wait_for_agent_ready}
use cc_tunnel.Gce.Endpoint.{
  discard, start_on, on_port, place, obtain_vm, new_endpoint, container_name, pause,
  record_endpoint, await_agent, launch, counted, free_port,
}
use cc_tunnel.Gce.Endpoint.Reuse.{Kept-obtain_vm}

module _ (o : Outside) (cfg : Config) (I : Db → Type 0)
    (kept : (s : Statement) → is_start s ≡ true → (d : Db) → I d → I (exec s d)) where
  vm_kept : (s : Statement) → is_vm_write s ≡ true → (d : Db) → I d → I (exec s d)
  vm_kept s h = kept s (is_vm_write-is_start s h)

  abbrev K : {A : Type 0} → Action World A → Type 0
  K m = Kept o I m

  Kept-discard :
      (ip name : Text) (next : Action World SessionEndpoint)
      → K next
      → K (discard o cfg ip name next)
  unfolding discard
  Kept-discard ip name next h w i = h _ i

  module _ (c : ℕ) (vm : VmInstance) where
    Kept-record_endpoint :
        (retry : Action World SessionEndpoint) (port : ℕ)
        → K retry
        → K (record_endpoint o cfg c vm retry port)
    unfolding record_endpoint exec
    Kept-record_endpoint retry port h =
        Keeps-unless_ok (OfDb o I)
          (query o (λ now id. create_session_endpoint id now c vm.id (container_name o cfg c) port))
          (discard o cfg vm.internal_ip (container_name o cfg c) retry) pure
          (Kept-query o I
            (λ now id. create_session_endpoint id now c vm.id (container_name o cfg c) port)
            (λ now id d i.
              kept (create_endpoint id now c vm.id (container_name o cfg c) port) refl d i))
          (Kept-discard vm.internal_ip (container_name o cfg c) retry h) (λ ep v j. j)

    Kept-await_agent :
        (retry : Action World SessionEndpoint) (port : ℕ)
        → K retry
        → K (await_agent o cfg c vm retry port)
    unfolding await_agent
    Kept-await_agent retry port h =
        Keeps-unless_ok (OfDb o I) (wait_for_agent_ready o cfg vm.internal_ip port)
          (discard o cfg vm.internal_ip (container_name o cfg c) (fail timeout))
          (λ _. record_endpoint o cfg c vm retry port)
          (Kept-wait_for_agent_ready o cfg I vm_kept vm.internal_ip port)
          (Kept-discard vm.internal_ip (container_name o cfg c) (fail timeout) (λ v j. j))
          (λ _. Kept-record_endpoint retry port h)

    Kept-on_port :
        (retry : Action World SessionEndpoint) (port : ℕ)
        → K retry
        → K (on_port o cfg c vm retry port)
    unfolding on_port start_on launch
    Kept-on_port retry port h =
        Keeps-if (OfDb o I) (port == 0) (fail exhausted) (start_on o cfg c vm retry port) (λ v j. j)
          λ v j.
            Keeps-if (OfDb o I) (o.client_ok v.calls vm.internal_ip) (launch o cfg c vm retry port)
              (fail unavailable)
              (Keeps-bind (OfDb o I)
                (send o (run_agent vm.internal_ip (container_name o cfg c) port))
                (λ _. await_agent o cfg c vm retry port) (λ u k. k)
                (λ _. Kept-await_agent retry port h))
              (λ u k. k) (record v { calls = v.calls + 1 }) j

    Kept-pause : (again : Action World SessionEndpoint) → K again → K (pause o cfg again)
    Kept-pause again h v j =
        Keeps-if (OfDb o I) (o.cancelled v.calls) (fail unavailable) again (λ u k. k) h
          (record v { calls = v.calls + 1 }) j

    Kept-attempt :
        (retry : Action World SessionEndpoint)
        → K retry
        → K (λ w. (free_port o cfg vm >>= on_port o cfg c vm retry) w)
    unfolding get_smallest_available_port_on_vm
    Kept-attempt retry h =
        Keeps-bind (OfDb o I) (free_port o cfg vm) (on_port o cfg c vm retry)
          (Kept-query o I
            (λ now id.
              get_smallest_available_port_on_vm vm.id cfg.port_range_start cfg.port_range_end)
            (λ now id d j. j))
          (λ port. Kept-on_port retry port h)

    Kept-place : (n : ℕ) → K (place o cfg c vm n)
    unfolding place
    Kept-place zero = Kept-attempt (fail unavailable) λ v j. j
    Kept-place (suc n) =
        Kept-attempt (pause o cfg (place o cfg c vm n))
          (Kept-pause (place o cfg c vm n) (Kept-place n))

    Kept-counted : (ep : SessionEndpoint) → K (counted o cfg vm ep)
    unfolding counted exec
    Kept-counted ep =
        Keeps-bind (OfDb o I) (query o (λ now id. increment_vm_active_containers vm.id))
          (λ _. pure ep)
          (Kept-query o I (λ now id. increment_vm_active_containers vm.id)
            (λ now id d j. kept (increment vm.id) refl d j))
          (λ _ v j. j)

  pub Kept-new_endpoint : (c : ℕ) → K (new_endpoint o cfg c)
  unfolding new_endpoint
  Kept-new_endpoint c =
      Keeps-bind (OfDb o I) (obtain_vm o cfg) (λ vm. place o cfg c vm 2 >>= counted o cfg vm)
        (Kept-obtain_vm o cfg I vm_kept)
        (λ vm.
          Keeps-bind (OfDb o I) (place o cfg c vm 2) (counted o cfg vm) (Kept-place c vm 2)
            (Kept-counted c vm))
