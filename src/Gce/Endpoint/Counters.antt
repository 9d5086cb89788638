-- ===== src/Gce/Endpoint/Counters.antt =====
-- The start of an endpoint keeps the VMs' counters right, while the database answers.
use cc_tunnel.Common.{
  ℕ, zero, suc, ◌+◌, ◌==◌, ◌≡◌, ◌<◌, true, unavailable, exhausted, timeout, Result, ok, err, Action,
  pure, fail, ◌>>=◌, Ends, Keeps-Ends, Ends-either, Ends-if, Ends-with, Ends-weaken, Ends-bind,
  Ends-unless_ok,
}
use cc_tunnel.Db.{Db, VmInstance, SessionEndpoint}
use cc_tunnel.Db.Vms.{increment_vm_active_containers}
use cc_tunnel.Db.Endpoints.{create_session_endpoint, get_smallest_available_port_on_vm}
use cc_tunnel.Db.Invariant.{exec}
use cc_tunnel.Db.Counts.{Counted, nothing_owed, owed_to}
use cc_tunnel.Db.Counts.Writes.{increment-Counted, create-Counted, create-Room, Room}
use cc_tunnel.Gce.{Config, Outside, World, query, send, run_agent}
use cc_tunnel.Gce.Keeps.{OfDb, Kept}
use cc_tunnel.Gce.Wait.{wait_for_agent_ready}
use cc_tunnel.Gce.Wait.Kept.{Kept-wait_for_agent_ready}
use cc_tunnel.Gce.Endpoint.{
  discard, start_on, on_port, place, obtain_vm, new_endpoint, container_name, pause,
  record_endpoint, await_agent, launch, counted, free_port,
}
use cc_tunnel.Gce.Endpoint.Room.{Before, vm_write-Before}
use cc_tunnel.Gce.Endpoint.Obtained.{obtain_vm-Before}

module _ (o : Outside) (cfg : Config) (answers : (n : ℕ) → o.db_answers n ≡ true)
    (some_room : 0 < cfg.max_containers) where
  abbrev pub AllCounted : Db → Type 0
  AllCounted d = Counted cfg.max_containers nothing_owed d

  abbrev BeforeOn : VmInstance → Db → Type 0
  BeforeOn vm d = Before cfg.max_containers some_room vm.id d

  abbrev AfterOn : VmInstance → Db → Type 0
  AfterOn vm d = Counted cfg.max_containers (owed_to vm.id) d × Room cfg.max_containers vm.id d

  -- With an endpoint of the VM its counter is one behind; with an error nothing is.
  abbrev Places : VmInstance → Action World SessionEndpoint → Type 0
  Places vm m =
      (w : World) → BeforeOn vm w.db → Ends (λ ep. OfDb o (AfterOn vm)) (OfDb o (BeforeOn vm)) (m w)

  Ends-query :
      {A : Type 0} (P : A → Db → Type 0) (Q : Db → Type 0) (q : ℕ → ℕ → Action Db A) (w : World)
      → ((now id : ℕ) → Ends P Q (q now id w.db))
      → Ends (λ a. OfDb o (P a)) (OfDb o Q) (query o q w)
  Ends-query {A} P Q q w h =
      rw (answers w.calls) (go (q (o.now w.calls) (o.new_id w.calls) w.db) (h _ _))
    where
      go :
          (p : Result A × Db)
          → Ends P Q p
          → Ends (λ a. OfDb o (P a)) (OfDb o Q) (p.0, record w { db = p.1; calls = w.calls + 1 })
      go (ok a, d) e = e
      go (err x, d) e = e

  module _ (c : ℕ) (vm : VmInstance) where
    abbrev Behind : SessionEndpoint → World → Type 0
    Behind ep = OfDb o (AfterOn vm)

    abbrev Right : {A : Type 0} → A → World → Type 0
    Right a = OfDb o (BeforeOn vm)

    creates :
        (id now port : ℕ) (d : Db)
        → BeforeOn vm d
        → Ends
            (λ ep. AfterOn vm)
            (BeforeOn vm)
            (create_session_endpoint id now c vm.id (container_name o cfg c) port d)
    creates id now port d (i, r) =
        Ends-with (λ ep. Counted cfg.max_containers (owed_to vm.id)) AllCounted
          (Room cfg.max_containers vm.id)
          (create_session_endpoint id now c vm.id (container_name o cfg c) port d)
          (create-Counted cfg.max_containers id now c vm.id (container_name o cfg c) port d i)
          (create-Room id now c vm.id (container_name o cfg c) port cfg.max_containers vm.id d r)

    Places-record_endpoint :
        (retry : Action World SessionEndpoint) (port : ℕ)
        → Places vm retry
        → Places vm (record_endpoint o cfg c vm retry port)
    unfolding record_endpoint discard
    Places-record_endpoint retry port h w i =
        Ends-unless_ok Behind (OfDb o (BeforeOn vm)) Behind
          (query o (λ now id. create_session_endpoint id now c vm.id (container_name o cfg c) port))
          (discard o cfg vm.internal_ip (container_name o cfg c) retry) pure w
          (Ends-query (λ ep. AfterOn vm) (BeforeOn vm)
            (λ now id. create_session_endpoint id now c vm.id (container_name o cfg c) port) w
            (λ now id. creates id now port w.db i))
          (λ ep v j. j) (λ v j. h _ j)

    Places-await_agent :
        (retry : Action World SessionEndpoint) (port : ℕ)
        → Places vm retry
        → Places vm (await_agent o cfg c vm retry port)
    unfolding await_agent discard
    Places-await_agent retry port h w i =
        Ends-unless_ok Right (OfDb o (BeforeOn vm)) Behind
          (wait_for_agent_ready o cfg vm.internal_ip port)
          (discard o cfg vm.internal_ip (container_name o cfg c) (fail timeout))
          (λ _. record_endpoint o cfg c vm retry port) w
          (Keeps-Ends (OfDb o (BeforeOn vm)) (wait_for_agent_ready o cfg vm.internal_ip port w) (
            Kept-wait_for_agent_ready o cfg (BeforeOn vm)
              (vm_write-Before cfg.max_containers some_room vm.id) vm.internal_ip port w i))
          (λ _. Places-record_endpoint retry port h) (λ v j. j)

    Places-on_port :
        (retry : Action World SessionEndpoint) (port : ℕ)
        → Places vm retry
        → Places vm (on_port o cfg c vm retry port)
    unfolding on_port start_on launch
    Places-on_port retry port h w i =
        Ends-if Behind (OfDb o (BeforeOn vm)) (port == 0) (fail exhausted)
          (start_on o cfg c vm retry port) w i
          (Ends-if Behind (OfDb o (BeforeOn vm)) (o.client_ok w.calls vm.internal_ip)
            (launch o cfg c vm retry port) (fail unavailable) (record w { calls = w.calls + 1 })
            (Ends-bind Right (OfDb o (BeforeOn vm)) Behind
              (send o (run_agent vm.internal_ip (container_name o cfg c) port))
              (λ _. await_agent o cfg c vm retry port) (record w { calls = w.calls + 1 })
              (Keeps-Ends (OfDb o (BeforeOn vm))
                (send o (run_agent vm.internal_ip (container_name o cfg c) port)
                  (record w { calls = w.calls + 1 }))
                i)
              (λ _. Places-await_agent retry port h))
            i)

    Places-pause :
        (again : Action World SessionEndpoint) → Places vm again → Places vm (pause o cfg again)
    Places-pause again h w i =
        Ends-if Behind (OfDb o (BeforeOn vm)) (o.cancelled w.calls) (fail unavailable) again
          (record w { calls = w.calls + 1 }) i (h _ i)

    Places-attempt :
        (retry : Action World SessionEndpoint)
        → Places vm retry
        → Places vm (λ w. (free_port o cfg vm >>= on_port o cfg c vm retry) w)
    unfolding get_smallest_available_port_on_vm
    Places-attempt retry h w i =
        Ends-bind Right (OfDb o (BeforeOn vm)) Behind (free_port o cfg vm)
          (on_port o cfg c vm retry) w
          (Ends-query (λ port. BeforeOn vm) (BeforeOn vm)
            (λ now id.
              get_smallest_available_port_on_vm vm.id cfg.port_range_start cfg.port_range_end)
            w (λ now id. i))
          (λ port. Places-on_port retry port h)

    Places-place : (n : ℕ) → Places vm (place o cfg c vm n)
    unfolding place
    Places-place zero = Places-attempt (fail unavailable) λ v j. j
    Places-place (suc n) =
        Places-attempt (pause o cfg (place o cfg c vm n))
          (Places-pause (place o cfg c vm n) (Places-place n))

    counted-Counted :
        (ep : SessionEndpoint) (w : World)
        → AfterOn vm w.db
        → Ends (λ _. OfDb o AllCounted) (OfDb o AllCounted) (counted o cfg vm ep w)
    unfolding counted exec increment_vm_active_containers
    counted-Counted ep w (i, r) =
        rw (answers w.calls) (increment-Counted cfg.max_containers vm.id w.db r i)

  pub Kept-new_endpoint : (c : ℕ) → Kept o AllCounted (new_endpoint o cfg c)
  unfolding new_endpoint
  Kept-new_endpoint c w i =
      Ends-either (OfDb o AllCounted)
        ((obtain_vm o cfg >>= (λ vm. place o cfg c vm 2 >>= counted o cfg vm)) w)
        (Ends-bind (λ vm. OfDb o (BeforeOn vm)) (OfDb o AllCounted) (λ _. OfDb o AllCounted)
          (obtain_vm o cfg) (λ vm. place o cfg c vm 2 >>= counted o cfg vm) w
          (obtain_vm-Before o cfg answers some_room w i)
          λ vm v j.
            Ends-bind (λ _. OfDb o (AfterOn vm)) (OfDb o AllCounted) (λ _. OfDb o AllCounted)
              (place o cfg c vm 2) (counted o cfg vm) v
              (Ends-weaken (λ ep u k. k) (λ u k. k.0) (place o cfg c vm 2 v)
                (Places-place c vm 2 v j))
              (counted-Counted c vm))
