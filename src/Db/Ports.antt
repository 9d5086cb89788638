-- ===== src/Db/Ports.antt =====
-- The search for a host port: what it finds, and that the insert it is paired with succeeds.
use cc_tunnel.Common.{
  ℕ, zero, suc, ◌+◌, ◌-◌, ◌≤◌, ◌<◌, ◌≡◌, refl, ap, ◌≢◌, ◌&&◌, true, false, inl, inr, List, [], ◌∷◌,
  arith, Text, ◌==◌, any, All, Bool-cases, ok, err, constraint,
}
use native.Mathlib.Decide.{ℕ_discrete}
use mathlib.Core.Path.{subst}
use cc_tunnel.Db.{EndpointStatus, SessionEndpoint, Db}
use cc_tunnel.Db.Vms.{has_id}
use cc_tunnel.Db.Endpoints.{
  conflicts, of_conversation, holds_port, first_free, get_smallest_available_port_on_vm,
  create_session_endpoint,
}

-- What the search over `count` ports from `p` answers.
pub record Finds (eps : List SessionEndpoint) (vm_id p count r : ℕ) : Type 0 where
  pub none_free : r ≡ 0 → (q : ℕ) → p ≤ q → q < p + count → any (holds_port vm_id q) eps ≡ true
  pub in_range : r ≢ 0 → (p ≤ r) × (r < p + count)
  pub free : r ≢ 0 → any (holds_port vm_id r) eps ≡ false
  pub smallest : r ≢ 0 → (q : ℕ) → p ≤ q → q < r → any (holds_port vm_id q) eps ≡ true

-- A port that is `p` is in use, and so is any beyond it.
taken_from :
    (eps : List SessionEndpoint) (vm_id p q : ℕ)
    → any (holds_port vm_id p) eps ≡ true
    → (p + 1 ≤ q → any (holds_port vm_id q) eps ≡ true)
    → p ≤ q
    → any (holds_port vm_id q) eps ≡ true
taken_from eps vm_id p q here beyond h = elim (ℕ_discrete p q) [
  | yes e ↦ subst (λ k. any (holds_port vm_id k) eps ≡ true) e here
  | no n ↦ beyond (omega arith)
]

first_free-Finds :
    (eps : List SessionEndpoint) (vm_id p count : ℕ)
    → 0 < p
    → Finds eps vm_id p count (first_free eps vm_id p count)
unfolding first_free
first_free-Finds eps vm_id p zero h = record {
  none_free = λ _ q a b. absurd (omega arith);
  in_range = λ n. absurd (n refl);
  free = λ n. absurd (n refl);
  smallest = λ n. absurd (n refl);
}
first_free-Finds eps vm_id p (suc count) h =
    let ih : Finds eps vm_id (p + 1) count (first_free eps vm_id (p + 1) count) =
      first_free-Finds eps vm_id (p + 1) count (omega arith) in
    elim (Bool-cases (any (holds_port vm_id p) eps)) [
      | inl e ↦ rw e (record {
        none_free = λ z q a b. taken_from eps vm_id p q e (λ c. ih.none_free z q c (omega arith)) a;
        in_range = λ n. omega (arith, ih.in_range n);
        free = ih.free;
        smallest = λ n q a b. taken_from eps vm_id p q e (λ c. ih.smallest n q c b) a;
      })
      | inr e ↦ rw e (record {
        none_free = λ z. absurd (omega arith);
        in_range = λ _. omega arith;
        free = λ _. e;
        smallest = λ _ q a b. absurd (omega arith);
      })
    ]

-- For a range that starts above 0, the query answers a port, 0 if and only if every port of
-- [start, end] is in use by a running endpoint of the VM; any other answer lies in the range, is
-- in use by none, and every smaller port of the range is in use.
pub get_smallest_available_port_on_vm-Finds :
    (vm_id start end : ℕ) (d : Db)
    → 0 < start
    → (r : ℕ) × (get_smallest_available_port_on_vm vm_id start end d ≡ (ok r, d))
      × Finds d.endpoints vm_id start (end + 1 - start) r
unfolding get_smallest_available_port_on_vm
get_smallest_available_port_on_vm-Finds vm_id start end d h = (
  first_free d.endpoints vm_id start (end + 1 - start),
  refl,
  first_free-Finds d.endpoints vm_id start (end + 1 - start) h,
)

-- No row has the id, the conversation or the port, given that a running one would hold the port.
no-conflicts :
    (i c vm_id port : ℕ) (eps : List SessionEndpoint)
    → any (λ ep. ep.id == i) eps ≡ false
    → any (of_conversation c) eps ≡ false
    → any (holds_port vm_id port) eps ≡ false
    → All (λ ep. ep.vm_instance_id ≡ vm_id → ep.status ≡ EndpointStatus.running) eps
    → any (conflicts i c vm_id port) eps ≡ false
no-conflicts i c vm_id port [] fresh new free up = refl
no-conflicts i c vm_id port (ep ∷ eps) fresh new free up =
    ground (arith, up.0, no-conflicts i c vm_id port eps)

-- A port that the search answers, other than 0, is taken by the insert that follows on the same
-- tables: for an existing VM whose endpoints are all running, a new id and a conversation without an
-- endpoint, the insert succeeds with a running endpoint of the given VM, conversation and port.
create-get_smallest :
    (vm_id start end i now c : ℕ) (name : Text) (port : ℕ) (d : Db)
    → 0 < start
    → get_smallest_available_port_on_vm vm_id start end d ≡ (ok port, d)
    → port ≢ 0
    → any (has_id vm_id) d.vms ≡ true
    → any (λ ep. ep.id == i) d.endpoints ≡ false
    → any (of_conversation c) d.endpoints ≡ false
    → All (λ ep. ep.vm_instance_id ≡ vm_id → ep.status ≡ EndpointStatus.running) d.endpoints
    → (ep : SessionEndpoint) × ((create_session_endpoint i now c vm_id name port d).0 ≡ ok ep)
      × (ep.vm_instance_id ≡ vm_id)
      × (ep.conversation_id ≡ c)
      × (ep.port ≡ port)
      × (ep.status ≡ EndpointStatus.running)
unfolding get_smallest_available_port_on_vm create_session_endpoint
create-get_smallest vm_id start end i now c name port d pos found n here fresh new up =
    rw (no-conflicts i c vm_id port d.endpoints fresh new held up, here)
      (_, refl, refl, refl, refl, refl)
  where
    answer : first_free d.endpoints vm_id start (end + 1 - start) ≡ port
    answer = cc

    finds : Finds d.endpoints vm_id start (end + 1 - start) port
    finds =
        subst (Finds d.endpoints vm_id start (end + 1 - start)) answer
          (first_free-Finds d.endpoints vm_id start (end + 1 - start) pos)

    held : any (holds_port vm_id port) d.endpoints ≡ false
    held = finds.free n

any-terminated :
    (i c vm_id port : ℕ) (eps : List SessionEndpoint)
    → any (λ ep. ep.vm_instance_id == vm_id && ep.port == port) eps ≡ true
    → any (conflicts i c vm_id port) eps ≡ true
any-terminated i c vm_id port [] h = cc
any-terminated i c vm_id port (ep ∷ eps) h = ground (arith, any-terminated i c vm_id port eps)

-- The search and the UNIQUE constraint disagree on endpoints that do not run: when the first port
-- of a range that starts above 0 is held on the VM by endpoints none of which runs, the search
-- answers that port, and the insert that follows is refused and changes nothing.
create-get_smallest_blocked :
    (vm_id start end i now c : ℕ) (name : Text) (d : Db)
    → 0 < start
    → start ≤ end
    → any (holds_port vm_id start) d.endpoints ≡ false
    → any (λ ep. ep.vm_instance_id == vm_id && ep.port == start) d.endpoints ≡ true
    → (get_smallest_available_port_on_vm vm_id start end d ≡ (ok start, d))
      × (create_session_endpoint i now c vm_id name start d ≡ (err constraint, d))
unfolding get_smallest_available_port_on_vm create_session_endpoint
create-get_smallest_blocked vm_id start end i now c name d pos le idle taken = (
  ap (λ p. (ok p, d)) (answer (end + 1 - start) (omega arith)),
  rw (any-terminated i c vm_id start d.endpoints taken),
)
  where
    answer : (count : ℕ) → 0 < count → first_free d.endpoints vm_id start count ≡ start
    answer zero h = absurd (omega arith)
    answer (suc count) h = rw (first_free, idle)
