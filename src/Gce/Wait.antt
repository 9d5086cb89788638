-- ===== src/Gce/Wait.antt =====
-- createGCEVM, waitForVMReady and waitForAgentReady of provider.go. A wait polls until its answer
-- or its deadline: the number of polls after the first is an answer from outside.
pub mod Kept
use cc_tunnel.Common.{
  ℕ, zero, suc, true, false, Option, none, some, ◌++◌, Text, if◌then◌else◌, is_empty, codes,
  timeout, unavailable, Action, pure, fail, ignoring, ◌>>=◌, ◌>>◌,
}
use cc_tunnel.Db.{VmStatus, VmInstance}
use cc_tunnel.Db.Vms.{create_vm_instance, update_vm_instance_ip, update_vm_instance_status}
use cc_tunnel.Gce.{Config, Instance, Outside, World, query, ask, send, create_instance}

module _ (o : Outside) (cfg : Config) where
  unfoldable pub create_gce_vm : Action World VmInstance
  create_gce_vm = do
    prefix ← ask o o.uuid_prefix
    ip ← ask o o.created_ip
    send o (create_instance (codes "cc-tunnel-" ++ prefix))
    query o (λ now id. create_vm_instance id now (codes "cc-tunnel-" ++ prefix) cfg.zone ip)

  -- RUNNING with an address.
  abbrev usable_ip : Option Instance → Text
  usable_ip none = codes ""
  usable_ip (some i) = if i.is_running then i.network_ip else codes ""

  -- Stage 1: the address, or a timeout.
  unfoldable pub poll_instance : ℕ → Action World Text
  poll_instance zero = do
    found ← ask o o.get_instance
    if is_empty (usable_ip found) then fail timeout else pure (usable_ip found)
  poll_instance (suc n) = do
    found ← ask o o.get_instance
    elim (is_empty (usable_ip found)) [ true ↦ poll_instance n | false ↦ pure (usable_ip found) ]

  -- Stage 2: the container-manager at the address answers, or a timeout.
  unfoldable pub poll_manager : Text → ℕ → Action World (Unit {0})
  poll_manager ip zero = do
    ready ← ask o (λ k. o.is_ready k ip)
    if ready then pure tt else fail timeout
  poll_manager ip (suc n) = do
    ready ← ask o (λ k. o.is_ready k ip)
    elim ready [ true ↦ pure tt | false ↦ poll_manager ip n ]

  manager_ready : Text → Action World Text
  unfolding poll_manager
  manager_ready ip = do
    made ← ask o (λ k. o.client_ok k ip)
    if made then (do n ← ask o o.polls; poll_manager ip n; pure ip) else fail unavailable

  unfoldable pub wait_for_vm_ready : VmInstance → Action World Text
  unfolding poll_instance manager_ready
  wait_for_vm_ready vm = do
    n ← ask o o.polls
    ip ← poll_instance n
    ignoring (query o (λ now id. update_vm_instance_ip vm.id ip)) (
        ignoring (query o (λ now id. update_vm_instance_status vm.id VmStatus.running))
          (manager_ready ip))

  unfoldable pub poll_agent : Text → ℕ → ℕ → Action World (Unit {0})
  poll_agent ip port zero = do
    ready ← ask o (λ k. o.agent_ready k ip port)
    if ready then pure tt else fail timeout
  poll_agent ip port (suc n) = do
    ready ← ask o (λ k. o.agent_ready k ip port)
    elim ready [ true ↦ pure tt | false ↦ poll_agent ip port n ]

  unfoldable pub wait_for_agent_ready : Text → ℕ → Action World (Unit {0})
  unfolding poll_agent
  wait_for_agent_ready ip port = do n ← ask o o.polls; poll_agent ip port n
