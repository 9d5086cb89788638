-- ===== src/Gce/Endpoint/Obtained.antt =====
-- The VM that obtain_vm gives, picked or new, has room.
use cc_tunnel.Common.{
  ℕ, ◌+◌, ◌<◌, ◌≡◌, true, ◌++◌, arith, Memᴰ-select, codes, Result, ok, err, Action, pure, ◌>>=◌,
  Ends, Ends-weaken, Ends-result, Holds-result, Ends-bind, Ends-unless_ok, Keeps-Ends,
}
use cc_tunnel.Db.{Db, VmInstance}
use cc_tunnel.Db.Vms.{is_available, create_vm_instance}
use cc_tunnel.Db.Counts.{Counted, nothing_owed}
use cc_tunnel.Gce.{Config, Outside, World, query, send, create_instance}
use cc_tunnel.Gce.Pick.{pick_healthy_available_vm}
use cc_tunnel.Gce.Pick.Laws.{Picked, pick_healthy_available_vm-Picked}
use cc_tunnel.Gce.Pick.Kept.{Kept-pick_healthy_available_vm}
use cc_tunnel.Gce.Wait.{create_gce_vm, wait_for_vm_ready}
use cc_tunnel.Gce.Wait.Kept.{Kept-wait_for_vm_ready}
use cc_tunnel.Gce.Endpoint.{obtain_vm}
use cc_tunnel.Gce.Endpoint.Room.{mem-Room, Before, vm_write-Counted, vm_write-Before, create-Before}

module _ (o : Outside) (cfg : Config) (answers : (n : ℕ) → o.db_answers n ≡ true)
    (some_room : 0 < cfg.max_containers) where
  abbrev C : World → Type 0
  C w = Counted cfg.max_containers nothing_owed w.db

  abbrev B : VmInstance → World → Type 0
  B vm w = Before cfg.max_containers some_room vm.id w.db

  Picked-Before : (vm : VmInstance) (w : World) → C w × Picked o cfg vm w → B vm w
  Picked-Before vm w (c, p) =
      let (m, free) = Memᴰ-select (is_available cfg.max_containers) w.db.vms p.available in
      (c, mem-Room cfg.max_containers vm w.db.vms c.valid.distinct m (ground (arith, free)))

  pick-Before : (w : World) → C w → Ends B C (pick_healthy_available_vm o cfg w)
  pick-Before w c =
      Ends-weaken Picked-Before (λ v d. d) (pick_healthy_available_vm o cfg w)
        (Ends-result C (Picked o cfg) (pick_healthy_available_vm o cfg w)
          (Kept-pick_healthy_available_vm o cfg (Counted cfg.max_containers nothing_owed)
            (vm_write-Counted cfg.max_containers some_room) w c)
          (Holds-result (Picked o cfg) (pick_healthy_available_vm o cfg w)
            (λ vm e. pick_healthy_available_vm-Picked o cfg vm w e)))

  create_gce_vm-Before : (w : World) → C w → Ends B C (create_gce_vm o cfg w)
  unfolding create_gce_vm
  create_gce_vm-Before w c =
      Ends-bind (λ _. C) C B
        (send o (create_instance (codes "cc-tunnel-" ++ o.uuid_prefix w.calls)))
        (λ _. query o insert) (record w { calls = w.calls + 1 + 1 })
        (Keeps-Ends C
          (send o (create_instance (codes "cc-tunnel-" ++ o.uuid_prefix w.calls))
            (record w { calls = w.calls + 1 + 1 }))
          c)
        (λ _. insert_done)
    where
      insert : ℕ → ℕ → Action Db VmInstance
      insert now id =
          create_vm_instance id now (codes "cc-tunnel-" ++ o.uuid_prefix w.calls) cfg.zone
            (o.created_ip (w.calls + 1))

      go :
          (v : World) (p : Result VmInstance × Db)
          → Ends
              (λ vm. Before cfg.max_containers some_room vm.id)
              (Counted cfg.max_containers nothing_owed)
              p
          → Ends B C (p.0, record v { db = p.1; calls = v.calls + 1 })
      go v (ok a, d) e = e
      go v (err x, d) e = e

      insert_done : (v : World) → C v → Ends B C (query o insert v)
      insert_done v d = rw (answers v.calls) (
          go v (insert (o.now v.calls) (o.new_id v.calls) v.db) (
            create-Before cfg.max_containers some_room (o.new_id v.calls) (o.now v.calls)
              (codes "cc-tunnel-" ++ o.uuid_prefix w.calls) cfg.zone (o.created_ip (w.calls + 1))
              v.db d))

  ready : VmInstance → Action World VmInstance
  ready vm = wait_for_vm_ready o cfg vm >>= (λ ip. pure (record vm { internal_ip = ip }))

  ready-Before : (vm : VmInstance) (w : World) → B vm w → Ends B C (ready vm w)
  unfolding ready
  ready-Before vm w b =
      Ends-weaken (λ x v h. h) (λ v h. h.0) (ready vm w)
        (Ends-bind (λ _. B vm) (B vm) B (wait_for_vm_ready o cfg vm)
          (λ ip. pure (record vm { internal_ip = ip })) w
          (Keeps-Ends (B vm) (wait_for_vm_ready o cfg vm w) (
            Kept-wait_for_vm_ready o cfg (Before cfg.max_containers some_room vm.id)
              (vm_write-Before cfg.max_containers some_room vm.id) vm w b))
          (λ ip v d. d))

  pub obtain_vm-Before : (w : World) → C w → Ends B C (obtain_vm o cfg w)
  unfolding obtain_vm ready
  obtain_vm-Before w c =
      Ends-unless_ok B C B (pick_healthy_available_vm o cfg) (create_gce_vm o cfg >>= ready) pure w
        (pick-Before w c) (λ vm v d. d)
        λ v d. Ends-bind B C B (create_gce_vm o cfg) ready v (create_gce_vm-Before v d) ready-Before
