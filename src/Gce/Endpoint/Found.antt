-- ===== src/Gce/Endpoint/Found.antt =====
-- The endpoint that getOrCreateEndpoint gives.
use cc_tunnel.Common.{
  ℕ, zero, suc, ◌+◌, ◌≡◌, refl, true, false, ◌==◌, some, List, [], ◌∷◌, ◌++◌, Text, Result, ok, err,
  unavailable, exhausted, timeout, Action, pure, fail, arith, any, find_first, Bool-cases,
  Option-cases, ◌⊎◌, inl, inr, if◌then◌else◌, ◌>>=◌, Holds, Holds-all, Holds-bind, Holds-unless_ok,
  Holds-if,
}
use cc_tunnel.Db.{SessionEndpoint, VmInstance, Db}
use cc_tunnel.Db.Vms.{increment_vm_active_containers}
use cc_tunnel.Db.Endpoints.{
  conflicts, is_running, of_conversation, create_session_endpoint,
  get_session_endpoint_by_conversation_id,
}
use cc_tunnel.Gce.{Config, Outside, World, query, send, run_agent}
use cc_tunnel.Gce.Wait.{wait_for_agent_ready}
use cc_tunnel.Gce.Endpoint.{
  discard, start_on, on_port, place, obtain_vm, new_endpoint, if_running, get_or_create_endpoint,
  container_name, pause, record_endpoint, await_agent, launch, counted, free_port,
}

-- The row that the lookup of conversation `c` finds, which is running.
abbrev pub FoundIn : ℕ → SessionEndpoint → Db → Type 0
FoundIn c ep d =
    (find_first (of_conversation c) d.endpoints ≡ some ep) × (is_running ep.status ≡ true)

-- A new row of a conversation that no row is of is the one found.
find_first-last :
    (c new_id vm_id port : ℕ) (xs : List SessionEndpoint) (a : SessionEndpoint)
    → any (conflicts new_id c vm_id port) xs ≡ false
    → of_conversation c a ≡ true
    → find_first (of_conversation c) (xs ++ a ∷ []) ≡ some a
find_first-last c new_id vm_id port [] a h e = rw e refl
find_first-last c new_id vm_id port (x ∷ xs) a h e =
    ground (arith, find_first-last c new_id vm_id port xs a)

module _ (o : Outside) (cfg : Config) (c : ℕ) where
  abbrev Found : SessionEndpoint → World → Type 0
  Found ep w = FoundIn c ep w.db

  abbrev Finds : Action World SessionEndpoint → Type 0
  Finds m = (w : World) → Holds Found (m w)

  Finds-discard :
      (ip name : Text) (next : Action World SessionEndpoint)
      → Finds next
      → Finds (discard o cfg ip name next)
  unfolding discard
  Finds-discard ip name next h w = h _

  -- A statement whose row fits.
  Finds-query :
      (q : ℕ → ℕ → Action Db SessionEndpoint)
      → ((now id : ℕ) (d : Db) → Holds (FoundIn c) (q now id d))
      → Finds (query o q)
  Finds-query q h w = elim (Bool-cases (o.db_answers w.calls)) [
    | inr e ↦ rw e tt
    | inl e ↦ rw e (go (q (o.now w.calls) (o.new_id w.calls) w.db) (h _ _ w.db))
  ]
    where
      go :
          (p : Result SessionEndpoint × Db)
          → Holds (FoundIn c) p
          → Holds Found (p.0, record w { db = p.1; calls = w.calls + 1 })
      go (ok ep, d) h = h
      go (err e, d) h = tt

  Finds-create :
      (vm_id port : ℕ) (name : Text)
      → Finds (query o (λ now id. create_session_endpoint id now c vm_id name port))
  unfolding create_session_endpoint
  Finds-create vm_id port name =
      Finds-query (λ now id. create_session_endpoint id now c vm_id name port)
        λ now id d. elim (Bool-cases (any (conflicts id c vm_id port) d.endpoints)) [
          | inl e ↦ rw e tt
          | inr e ↦ rw e (elim (Bool-cases (any (λ (vm : VmInstance). vm.id == vm_id) d.vms)) [
            | inl y ↦ rw y (find_first-last c id vm_id port d.endpoints _ e (ground arith), refl)
            | inr y ↦ rw y tt
          ])
        ]

  module _ (vm : VmInstance) where
    abbrev name : Text
    name = container_name o cfg c

    Finds-record_endpoint :
        (retry : Action World SessionEndpoint) (port : ℕ)
        → Finds retry
        → Finds (record_endpoint o cfg c vm retry port)
    unfolding record_endpoint
    Finds-record_endpoint retry port h w =
        Holds-unless_ok Found Found
          (query o (λ now id. create_session_endpoint id now c vm.id name port))
          (discard o cfg vm.internal_ip name retry) pure w (Finds-create vm.id port name w)
          (λ ep s found. found) (Finds-discard vm.internal_ip name retry h)

    Finds-await_agent :
        (retry : Action World SessionEndpoint) (port : ℕ)
        → Finds retry
        → Finds (await_agent o cfg c vm retry port)
    unfolding await_agent
    Finds-await_agent retry port h w =
        Holds-unless_ok (λ _ _. Unit {0}) Found (wait_for_agent_ready o cfg vm.internal_ip port)
          (discard o cfg vm.internal_ip name (fail timeout))
          (λ _. record_endpoint o cfg c vm retry port) w
          (Holds-all (wait_for_agent_ready o cfg vm.internal_ip port w))
          (λ _ s _. Finds-record_endpoint retry port h s)
          (Finds-discard vm.internal_ip name (fail timeout) λ s. tt)

    Finds-launch :
        (retry : Action World SessionEndpoint) (port : ℕ)
        → Finds retry
        → Finds (launch o cfg c vm retry port)
    unfolding launch
    Finds-launch retry port h w =
        Holds-bind (λ _ _. Unit {0}) Found (send o (run_agent vm.internal_ip name port))
          (λ _. await_agent o cfg c vm retry port) w
          (Holds-all (send o (run_agent vm.internal_ip name port) w))
          (λ _ s _. Finds-await_agent retry port h s)

    Finds-on_port :
        (retry : Action World SessionEndpoint) (port : ℕ)
        → Finds retry
        → Finds (on_port o cfg c vm retry port)
    unfolding on_port start_on
    Finds-on_port retry port h w =
        Holds-if Found (port == 0) (fail exhausted) (start_on o cfg c vm retry port) w tt (
          Holds-if Found (o.client_ok w.calls vm.internal_ip) (launch o cfg c vm retry port)
            (fail unavailable) (record w { calls = w.calls + 1 }) (Finds-launch retry port h _) tt)

    Finds-pause : (again : Action World SessionEndpoint) → Finds again → Finds (pause o cfg again)
    Finds-pause again h w =
        Holds-if Found (o.cancelled w.calls) (fail unavailable) again
          (record w { calls = w.calls + 1 }) tt (h _)

    Finds-attempt :
        (retry : Action World SessionEndpoint)
        → Finds retry
        → Finds (λ w. (free_port o cfg vm >>= on_port o cfg c vm retry) w)
    Finds-attempt retry h w =
        Holds-bind (λ _ _. Unit {0}) Found (free_port o cfg vm) (on_port o cfg c vm retry) w
          (Holds-all (free_port o cfg vm w)) (λ port s _. Finds-on_port retry port h s)

    Finds-place : (n : ℕ) → Finds (place o cfg c vm n)
    unfolding place
    Finds-place zero = Finds-attempt (fail unavailable) λ s. tt
    Finds-place (suc n) =
        Finds-attempt (pause o cfg (place o cfg c vm n))
          (Finds-pause (place o cfg c vm n) (Finds-place n))

    Finds-counted :
        (ep : SessionEndpoint) (w : World) → Found ep w → Holds Found (counted o cfg vm ep w)
    unfolding counted increment_vm_active_containers
    Finds-counted ep w found = elim (Bool-cases (o.db_answers w.calls)) [
      | inl e ↦ rw e found
      | inr e ↦ rw e tt
    ]

  Finds-new_endpoint : Finds (new_endpoint o cfg c)
  unfolding new_endpoint
  Finds-new_endpoint w =
      Holds-bind (λ _ _. Unit {0}) Found (obtain_vm o cfg)
        (λ vm. place o cfg c vm 2 >>= counted o cfg vm) w (Holds-all (obtain_vm o cfg w))
        λ vm s _.
          Holds-bind Found Found (place o cfg c vm 2) (counted o cfg vm) s (Finds-place vm 2 s)
            (Finds-counted vm)

  Finds-if_running :
      (otherwise : Action World SessionEndpoint)
      → Finds otherwise
      → Finds (if_running o cfg c otherwise)
  unfolding if_running get_session_endpoint_by_conversation_id
  Finds-if_running otherwise h w =
      Holds-unless_ok Row Found (query o (λ now id. get_session_endpoint_by_conversation_id c))
        otherwise (λ ep. if is_running ep.status then pure ep else otherwise) w (looked_up w)
        (λ ep v found. running ep v found (Bool-cases (is_running ep.status))) h
    where
      Row : SessionEndpoint → World → Type 0
      Row ep v = find_first (of_conversation c) v.db.endpoints ≡ some ep

      looked_up :
          (w : World) → Holds Row (query o (λ now id. get_session_endpoint_by_conversation_id c) w)
      looked_up w = elim (Bool-cases (o.db_answers w.calls)) [
        | inr e ↦ rw e tt
        | inl e ↦ rw e (elim (Option-cases (find_first (of_conversation c) w.db.endpoints)) [
          | inl n ↦ rw n tt
          | inr (ep, y) ↦ rw y y
        ])
      ]

      running :
          (ep : SessionEndpoint) (v : World)
          → Row ep v
          → (is_running ep.status ≡ true) ⊎ (is_running ep.status ≡ false)
          → Holds Found ((if is_running ep.status then pure ep else otherwise) v)
      running ep v found (inl e) = rw e (found, e)
      running ep v found (inr e) = rw e (h v)

  pub Finds-body : Finds (if_running o cfg c (new_endpoint o cfg c))
  Finds-body = Finds-if_running (new_endpoint o cfg c) Finds-new_endpoint

  -- Whatever the database, GCE, container-manager and the agent answer, an endpoint that
  -- getOrCreateEndpoint gives for a conversation is running and is the row that a lookup of the
  -- conversation finds when it returns.
  pub get_or_create_endpoint-Found : (w : World) → Holds Found (get_or_create_endpoint o cfg c w)
  unfolding get_or_create_endpoint
  get_or_create_endpoint-Found =
      Finds-if_running (if_running o cfg c (new_endpoint o cfg c)) Finds-body
