-- ===== src/Gce/Endpoint.antt =====
-- getOrCreateEndpoint and Execute of provider.go.
pub mod Found
pub mod Kept
pub mod Reuse
pub mod Room
pub mod Obtained
pub mod Counters
pub mod Lookup
use cc_tunnel.Common.{
  ℕ, zero, suc, Bool, true, false, Option, none, some, ◌++◌, Text, ◌==◌, if◌then◌else◌, is_empty,
  Result, ok, err, Error, unavailable, exhausted, timeout, ◌∷◌, Action, pure, fail, ignoring,
  unless_ok, attempt, ◌>>=◌, ◌>>◌, resume,
}
use cc_tunnel.Db.{EndpointStatus, SessionEndpoint, VmInstance}
use cc_tunnel.Db.Vms.{get_vm_instance, increment_vm_active_containers}
use cc_tunnel.Db.Endpoints.{
  is_running, create_session_endpoint, get_session_endpoint_by_conversation_id,
  get_smallest_available_port_on_vm, update_session_endpoint_last_activity,
}
use cc_tunnel.Gce.{
  Config, Outside, World, query, ask, send, run_agent, stop_container, remove_container,
}
use cc_tunnel.Gce.Pick.{pick_healthy_available_vm}
use cc_tunnel.Gce.Wait.{create_gce_vm, wait_for_vm_ready, wait_for_agent_ready}

module _ (o : Outside) (cfg : Config) where
  -- The two calls that undo a start, whose errors are dropped, and then `next`.
  unfoldable pub discard : {A : Type 0} → Text → Text → Action World A → Action World A
  discard ip name next =
      ignoring (send o (stop_container ip name)) (ignoring (send o (remove_container ip name)) next)

  -- "<prefix>-<conversation id>".
  abbrev pub container_name : ℕ → Text
  container_name c = cfg.container_name_prefix ++ (b'-' ∷ o.uuid_text c)

  -- Between two attempts the context may end.
  abbrev pause : Action World SessionEndpoint → Action World SessionEndpoint
  pause again = do ended ← ask o o.cancelled; if ended then fail unavailable else again

  -- The row of the new endpoint; `retry` is what follows a refused insert.
  unfoldable pub record_endpoint :
      ℕ → VmInstance → Action World SessionEndpoint → ℕ → Action World SessionEndpoint
  unfolding discard
  record_endpoint c vm retry port =
      unless_ok (query o (λ now id. create_session_endpoint id now c vm.id (container_name c) port))
        (discard vm.internal_ip (container_name c) retry) pure

  unfoldable pub await_agent :
      ℕ → VmInstance → Action World SessionEndpoint → ℕ → Action World SessionEndpoint
  unfolding record_endpoint discard
  await_agent c vm retry port =
      unless_ok (wait_for_agent_ready o cfg vm.internal_ip port)
        (discard vm.internal_ip (container_name c) (fail timeout))
        (λ _. record_endpoint c vm retry port)

  unfoldable pub launch :
      ℕ → VmInstance → Action World SessionEndpoint → ℕ → Action World SessionEndpoint
  unfolding await_agent
  launch c vm retry port =
      send o (run_agent vm.internal_ip (container_name c) port) >> await_agent c vm retry port

  -- One attempt with a free port.
  unfoldable pub start_on :
      ℕ → VmInstance → Action World SessionEndpoint → ℕ → Action World SessionEndpoint
  unfolding launch
  start_on c vm retry port =
      ask o (λ k. o.client_ok k vm.internal_ip)
      >>= (λ made. if made then launch c vm retry port else fail unavailable)

  on_port : ℕ → VmInstance → Action World SessionEndpoint → ℕ → Action World SessionEndpoint
  unfolding start_on
  on_port c vm retry port = if port == 0 then fail exhausted else start_on c vm retry port

  abbrev free_port : VmInstance → Action World ℕ
  free_port vm =
      query o
        (λ now id. get_smallest_available_port_on_vm vm.id cfg.port_range_start cfg.port_range_end)

  -- The retry loop, by the attempts that are left after this one.
  unfoldable pub place : ℕ → VmInstance → ℕ → Action World SessionEndpoint
  unfolding on_port
  place c vm zero = free_port vm >>= on_port c vm (fail unavailable)
  place c vm (suc n) = free_port vm >>= on_port c vm (pause (place c vm n))

  -- A VM that answers, or a new one once it is ready.
  unfoldable pub obtain_vm : Action World VmInstance
  obtain_vm = unless_ok (pick_healthy_available_vm o cfg) fresh pure
    where
      fresh : Action World VmInstance
      fresh = do
        vm ← create_gce_vm o cfg
        ip ← wait_for_vm_ready o cfg vm
        pure (record vm { internal_ip = ip })

  -- The VM's counter is increased last.
  unfoldable pub counted : VmInstance → SessionEndpoint → Action World SessionEndpoint
  counted vm ep = query o (λ now id. increment_vm_active_containers vm.id) >> pure ep

  unfoldable pub new_endpoint : ℕ → Action World SessionEndpoint
  unfolding obtain_vm place counted
  new_endpoint c = obtain_vm >>= (λ vm. place c vm 2 >>= counted vm)

  -- The endpoint of the conversation if there is one that runs, else `otherwise`.
  unfoldable pub if_running : ℕ → Action World SessionEndpoint → Action World SessionEndpoint
  if_running c otherwise =
      unless_ok (query o (λ now id. get_session_endpoint_by_conversation_id c)) otherwise
        λ ep. if is_running ep.status then pure ep else otherwise

  -- singleflight runs the second part once for concurrent calls of one conversation.
  unfoldable pub get_or_create_endpoint : ℕ → Action World SessionEndpoint
  unfolding if_running new_endpoint
  get_or_create_endpoint c = if_running c (if_running c (new_endpoint c))

  -- The agent's answer to a request sent to an address and port.
  abbrev run_on : Text → ℕ → Action World Text
  run_on ip port = do
    answer ← ask o (λ k. o.executes k ip port)
    elim answer [ none ↦ fail unavailable | some session ↦ pure session ]

  unfoldable pub execute : ℕ → Action World Text
  unfolding get_or_create_endpoint
  execute c = do
    ep ← get_or_create_endpoint c
    vm ← query o (λ now id. get_vm_instance ep.vm_instance_id)
    session ← run_on vm.internal_ip ep.port
    ignoring (query o (λ now id. update_session_endpoint_last_activity now c)) (pure session)
