-- ===== src/Gce/Pick/Kept.antt =====
-- The search for a VM keeps what its statements keep.
use cc_tunnel.Common.{
  ℕ, zero, suc, ◌≡◌, refl, true, Action, pure, if◌then◌else◌, ignoring, ◌>>=◌, ◌>>◌, Keeps-if,
  Keeps-bind,
}
use cc_tunnel.Db.{Db, VmInstance, VmStatus}
use cc_tunnel.Db.Vms.{get_available_vm_instance, update_vm_instance_status}
use cc_tunnel.Db.Invariant.{Statement, exec, set_status}
use cc_tunnel.Gce.{Config, Outside, World, query, ask}
use cc_tunnel.Gce.Keeps.{is_vm_write, OfDb, Kept, Kept-query}
use cc_tunnel.Gce.Pick.{mark_unhealthy, try_vm, pick, pick_healthy_available_vm}

module _ (o : Outside) (cfg : Config) (I : Db → Type 0)
    (kept : (s : Statement) → is_vm_write s ≡ true → (d : Db) → I d → I (exec s d)) where
  Kept-mark_unhealthy : (vm : VmInstance) → Kept o I (mark_unhealthy o cfg vm)
  unfolding mark_unhealthy exec
  Kept-mark_unhealthy vm =
      Kept-query o I (λ now id. update_vm_instance_status vm.id VmStatus.unhealthy)
        λ now id d i. kept (set_status vm.id VmStatus.unhealthy) refl d i

  Kept-try_vm :
      (again : Action World VmInstance) (vm : VmInstance)
      → Kept o I again
      → Kept o I (try_vm o cfg again vm)
  unfolding try_vm
  Kept-try_vm again vm h w i =
      Keeps-if (OfDb o I) (o.client_ok w.calls vm.internal_ip)
        (ask o (λ n. o.is_ready n vm.internal_ip)
          >>= (λ ready. if ready then pure vm else (mark_unhealthy o cfg vm >> again)))
        (ignoring (mark_unhealthy o cfg vm) again)
        (λ v j.
          Keeps-if (OfDb o I) (o.is_ready v.calls vm.internal_ip) (pure vm)
            (mark_unhealthy o cfg vm >> again) (λ u k. k)
            (Keeps-bind (OfDb o I) (mark_unhealthy o cfg vm) (λ _. again) (Kept-mark_unhealthy vm)
              (λ _. h))
            _ j)
        (λ v j. h _ (Kept-mark_unhealthy vm v j)) _ i

  Kept-pick : (n : ℕ) → Kept o I (pick o cfg n)
  unfolding pick get_available_vm_instance
  Kept-pick zero w i = i
  Kept-pick (suc n) w i =
      Keeps-bind (OfDb o I) (query o (λ now id. get_available_vm_instance cfg.max_containers))
        (try_vm o cfg (pick o cfg n))
        (Kept-query o I (λ now id. get_available_vm_instance cfg.max_containers) (λ now id d i. i))
        (λ vm. Kept-try_vm (pick o cfg n) vm (Kept-pick n)) w i

  pub Kept-pick_healthy_available_vm : Kept o I (pick_healthy_available_vm o cfg)
  unfolding pick_healthy_available_vm
  Kept-pick_healthy_available_vm = Kept-pick 5
