-- ===== src/Gce/Cleanup/Forgets.antt =====
-- A VM that CleanupOrphans forgets.
use cc_tunnel.Common.{
  ◌+◌, ◌≡◌, refl, inl, inr, true, false, not, ◌==◌, List, [], ◌∷◌, arith, any, select, Bool-cases,
}
use cc_tunnel.Db.{VmInstance}
use cc_tunnel.Db.Vms.{has_id, delete_vm_instance}
use cc_tunnel.Gce.{Config, Outside, World, delete_instance}
use cc_tunnel.Gce.Cleanup.{clean_vm}

module _ (o : Outside) (cfg : Config) where
  -- When no endpoint refers to a VM and the database answers, cleaning the VM removes its row,
  -- whether GCE accepts the deletion of the instance or refuses it.
  clean_vm-forgets :
      (vm : VmInstance) (w : World)
      → any (λ ep. ep.vm_instance_id == vm.id) w.db.endpoints ≡ false
      → o.db_answers (w.calls + 1) ≡ true
      → (any (has_id vm.id) (clean_vm o cfg vm w).1.db.vms ≡ false)
        × ((clean_vm o cfg vm w).1.sent
            ≡ (delete_instance vm.gce_instance_name, o.accepts w.calls) ∷ w.sent)
  unfolding clean_vm delete_vm_instance
  clean_vm-forgets vm w free answers =
      rw (answers, free)
        (elim (Bool-cases (any (has_id vm.id) w.db.vms)) [
          | inl e ↦ rw e (any-removed w.db.vms, refl)
          | inr e ↦ rw e (any-removed w.db.vms, refl)
        ])
    where
      any-removed :
          (vms : List VmInstance)
          → any (has_id vm.id) (select (λ x. not (has_id vm.id x)) vms) ≡ false
      any-removed [] = refl
      any-removed (x ∷ vms) = ground (arith, any-removed vms)
