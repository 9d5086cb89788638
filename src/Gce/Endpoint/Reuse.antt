-- ===== src/Gce/Endpoint/Reuse.antt =====
-- getOrCreateEndpoint and Execute keep what the start of an endpoint keeps.
use cc_tunnel.Common.{
  ℕ, ◌+◌, ◌≡◌, true, Option, none, some, Text, unavailable, Action, pure, fail, if◌then◌else◌,
  ignoring, ◌>>=◌, Keeps-if, Keeps-bind, Keeps-unless_ok,
}
use cc_tunnel.Db.{Db, VmInstance, SessionEndpoint}
use cc_tunnel.Db.Vms.{get_vm_instance}
use cc_tunnel.Db.Endpoints.{
  is_running, get_session_endpoint_by_conversation_id, update_session_endpoint_last_activity,
}
use cc_tunnel.Db.Invariant.{Statement, exec, touch_endpoint}
use cc_tunnel.Gce.{Config, Outside, World, query}
use cc_tunnel.Gce.Keeps.{is_vm_write, OfDb, Kept, Kept-query}
use cc_tunnel.Gce.Pick.{pick_healthy_available_vm}
use cc_tunnel.Gce.Pick.Kept.{Kept-pick_healthy_available_vm}
use cc_tunnel.Gce.Wait.{create_gce_vm, wait_for_vm_ready}
use cc_tunnel.Gce.Wait.Kept.{Kept-create_gce_vm, Kept-wait_for_vm_ready}
use cc_tunnel.Gce.Endpoint.{
  obtain_vm, new_endpoint, if_running, get_or_create_endpoint, execute, run_on,
}

module _ (o : Outside) (cfg : Config) (I : Db → Type 0) where
  abbrev K : {A : Type 0} → Action World A → Type 0
  K m = Kept o I m

  module _ (vm_kept : (s : Statement) → is_vm_write s ≡ true → (d : Db) → I d → I (exec s d)) where
    pub Kept-obtain_vm : K (obtain_vm o cfg)
    unfolding obtain_vm
    Kept-obtain_vm =
        Keeps-unless_ok (OfDb o I) (pick_healthy_available_vm o cfg) fresh pure
          (Kept-pick_healthy_available_vm o cfg I vm_kept)
          (Keeps-bind (OfDb o I) (create_gce_vm o cfg) ready (Kept-create_gce_vm o cfg I vm_kept)
            (λ vm.
              Keeps-bind (OfDb o I) (wait_for_vm_ready o cfg vm)
                (λ ip. pure (record vm { internal_ip = ip }))
                (Kept-wait_for_vm_ready o cfg I vm_kept vm) (λ ip v j. j)))
          (λ vm v j. j)
      where
        ready : VmInstance → Action World VmInstance
        ready vm = wait_for_vm_ready o cfg vm >>= (λ ip. pure (record vm { internal_ip = ip }))

        fresh : Action World VmInstance
        fresh = create_gce_vm o cfg >>= ready

  Kept-if_running :
      (c : ℕ) (otherwise : Action World SessionEndpoint)
      → K otherwise
      → K (if_running o cfg c otherwise)
  unfolding if_running get_session_endpoint_by_conversation_id
  Kept-if_running c otherwise h =
      Keeps-unless_ok (OfDb o I) (query o (λ now id. get_session_endpoint_by_conversation_id c))
        otherwise (λ ep. if is_running ep.status then pure ep else otherwise)
        (Kept-query o I (λ now id. get_session_endpoint_by_conversation_id c) (λ now id d j. j)) h
        (λ ep. Keeps-if (OfDb o I) (is_running ep.status) (pure ep) otherwise (λ v j. j) h)

  module _ (fresh : (c : ℕ) → K (new_endpoint o cfg c)) where
    pub Kept-body : (c : ℕ) → K (if_running o cfg c (new_endpoint o cfg c))
    Kept-body c = Kept-if_running c (new_endpoint o cfg c) (fresh c)

    pub Kept-get_or_create_endpoint : (c : ℕ) → K (get_or_create_endpoint o cfg c)
    unfolding get_or_create_endpoint
    Kept-get_or_create_endpoint c =
        Kept-if_running c (if_running o cfg c (new_endpoint o cfg c)) (Kept-body c)

    module _ (touches : (now c : ℕ) (d : Db) → I d → I (exec (touch_endpoint now c) d)) where
      pub Kept-execute : (c : ℕ) → K (execute o cfg c)
      unfolding execute get_vm_instance exec
      Kept-execute c =
          Keeps-bind (OfDb o I) (get_or_create_endpoint o cfg c) on_endpoint
            (Kept-get_or_create_endpoint c)
            λ ep.
              Keeps-bind (OfDb o I) (query o (λ now id. get_vm_instance ep.vm_instance_id))
                (on_vm ep)
                (Kept-query o I (λ now id. get_vm_instance ep.vm_instance_id) (λ now id d j. j))
                λ vm.
                  Keeps-bind (OfDb o I) (run_on o cfg vm.internal_ip ep.port) kept_session
                    (λ v j.
                      answered vm.internal_ip ep.port v j
                        (o.executes v.calls vm.internal_ip ep.port))
                    λ session.
                      Kept-query o I (λ now id. update_session_endpoint_last_activity now c)
                        (λ now id d j. touches now c d j)
        where
          kept_session : Text → Action World Text
          kept_session session =
              ignoring (query o (λ now id. update_session_endpoint_last_activity now c))
                (pure session)

          on_vm : SessionEndpoint → VmInstance → Action World Text
          on_vm ep vm = run_on o cfg vm.internal_ip ep.port >>= kept_session

          on_endpoint : SessionEndpoint → Action World Text
          on_endpoint ep = query o (λ now id. get_vm_instance ep.vm_instance_id) >>= on_vm ep

          answered :
              (ip : Text) (port : ℕ) (v : World)
              → I v.db
              → (a : Option Text)
              → I
                  ((elim a as (λ _. Action World Text) [
                    | none ↦ fail unavailable
                    | some session ↦ pure session
                  ])
                    (record v { calls = v.calls + 1 })).1.db
          answered ip port v j none = j
          answered ip port v j (some session) = j
