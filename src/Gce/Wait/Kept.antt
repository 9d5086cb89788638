-- ===== src/Gce/Wait/Kept.antt =====
-- The creation of a VM and the waits keep what their statements keep.
use cc_tunnel.Common.{
  ℕ, zero, suc, ◌+◌, ◌≡◌, refl, true, is_empty, ◌++◌, Text, codes, timeout, pure, fail, ignoring,
  Keeps-if, Keeps-elim, Keeps-bind, Bool-cases, inl, inr,
}
use cc_tunnel.Db.{Db, VmInstance, VmStatus}
use cc_tunnel.Db.Vms.{create_vm_instance, update_vm_instance_ip, update_vm_instance_status}
use cc_tunnel.Db.Invariant.{Statement, exec, create_vm, set_status, set_ip}
use cc_tunnel.Gce.{Config, Outside, query, send, create_instance}
use cc_tunnel.Gce.Keeps.{is_vm_write, OfDb, Kept, Kept-query}
use cc_tunnel.Gce.Wait.{
  create_gce_vm, usable_ip, poll_instance, poll_manager, manager_ready, wait_for_vm_ready,
  poll_agent, wait_for_agent_ready,
}

module _ (o : Outside) (cfg : Config) (I : Db → Type 0)
    (kept : (s : Statement) → is_vm_write s ≡ true → (d : Db) → I d → I (exec s d)) where
  pub Kept-create_gce_vm : Kept o I (create_gce_vm o cfg)
  unfolding create_gce_vm exec
  Kept-create_gce_vm w i =
      Keeps-bind (OfDb o I) (send o (create_instance (codes "cc-tunnel-" ++ o.uuid_prefix w.calls)))
        (λ _. query o (λ now id.
          create_vm_instance id now (codes "cc-tunnel-" ++ o.uuid_prefix w.calls) cfg.zone
            (o.created_ip (w.calls + 1))))
        (λ v j. j)
        (λ _.
          Kept-query o I
            (λ now id.
              create_vm_instance id now (codes "cc-tunnel-" ++ o.uuid_prefix w.calls) cfg.zone
                (o.created_ip (w.calls + 1)))
            (λ now id d j. kept (create_vm id now _ cfg.zone _) refl d j))
        (record w { calls = w.calls + 1 + 1 }) i

  Kept-poll_instance : (n : ℕ) → Kept o I (poll_instance o cfg n)
  unfolding poll_instance
  Kept-poll_instance zero w i =
      Keeps-if (OfDb o I) (is_empty (usable_ip o cfg (o.get_instance w.calls))) (fail timeout)
        (pure (usable_ip o cfg (o.get_instance w.calls))) (λ v j. j) (λ v j. j) _ i
  Kept-poll_instance (suc n) w i =
      Keeps-elim (OfDb o I) (is_empty (usable_ip o cfg (o.get_instance w.calls)))
        (poll_instance o cfg n) (pure (usable_ip o cfg (o.get_instance w.calls)))
        (Kept-poll_instance n) (λ v j. j) (record w { calls = w.calls + 1 }) i

  Kept-poll_manager : (ip : Text) (n : ℕ) → Kept o I (poll_manager o cfg ip n)
  unfolding poll_manager
  Kept-poll_manager ip zero w i =
      Keeps-if (OfDb o I) (o.is_ready w.calls ip) (pure tt) (fail timeout) (λ v j. j) (λ v j. j) _ i
  Kept-poll_manager ip (suc n) w i = elim (Bool-cases (o.is_ready w.calls ip)) [
    | inl e ↦ rw e i
    | inr e ↦ rw e (Kept-poll_manager ip n _ i)
  ]

  Kept-manager_ready : (ip : Text) → Kept o I (manager_ready o cfg ip)
  unfolding manager_ready
  Kept-manager_ready ip w i = elim (Bool-cases (o.client_ok w.calls ip)) [
    | inl e ↦ rw e (
        Keeps-bind (OfDb o I) (poll_manager o cfg ip (o.polls _)) (λ _. pure ip)
          (Kept-poll_manager ip _) (λ _ v j. j) _ i)
    | inr e ↦ rw e i
  ]

  pub Kept-wait_for_vm_ready : (vm : VmInstance) → Kept o I (wait_for_vm_ready o cfg vm)
  unfolding wait_for_vm_ready exec
  Kept-wait_for_vm_ready vm w i =
      Keeps-bind (OfDb o I) (poll_instance o cfg (o.polls w.calls))
        (λ ip. ignoring (query o (λ now id. update_vm_instance_ip vm.id ip)) (
          ignoring (query o (λ now id. update_vm_instance_status vm.id VmStatus.running))
            (manager_ready o cfg ip)))
        (Kept-poll_instance _)
        (λ ip v j. Kept-manager_ready ip _ (
          Kept-query o I (λ now id. update_vm_instance_status vm.id VmStatus.running)
            (λ now id d k. kept (set_status vm.id VmStatus.running) refl d k) _
            (Kept-query o I (λ now id. update_vm_instance_ip vm.id ip)
              (λ now id d k. kept (set_ip vm.id ip) refl d k) v j)))
        (record w { calls = w.calls + 1 }) i

  Kept-poll_agent : (ip : Text) (port n : ℕ) → Kept o I (poll_agent o cfg ip port n)
  unfolding poll_agent
  Kept-poll_agent ip port zero w i =
      Keeps-if (OfDb o I) (o.agent_ready w.calls ip port) (pure tt) (fail timeout) (λ v j. j)
        (λ v j. j) _ i
  Kept-poll_agent ip port (suc n) w i = elim (Bool-cases (o.agent_ready w.calls ip port)) [
    | inl e ↦ rw e i
    | inr e ↦ rw e (Kept-poll_agent ip port n _ i)
  ]

  pub Kept-wait_for_agent_ready :
      (ip : Text) (port : ℕ) → Kept o I (wait_for_agent_ready o cfg ip port)
  unfolding wait_for_agent_ready
  Kept-wait_for_agent_ready ip port w i = Kept-poll_agent ip port _ _ i
