-- ===== src/Agents/Limits.antt =====
-- The limits that docker gets for the numbers of a request (handler.go, manager.go).
use cc_tunnel.Common.{
  ℕ, zero, suc, ℤ, pos, negsuc, int64, ◌*◌, ◌-◌, ◌≤◌, ◌≡◌, refl, ◌⊎◌, inl, inr, Option, none, some,
  Text, ltb, Bool-cases, arith,
}
use cc_tunnel.Agents.{create_options}
use cc_tunnel.Agents.Api.{CreateAgentRequest, agent_request}

-- The limit for a requested number of units, by the default: from `bound` units on, nothing is said.
abbrev pub IsLimit : (default unit bound : ℕ) → Option ℤ → ℤ → Type 0
IsLimit default unit bound none limit = limit ≡ pos default
IsLimit default unit bound (some (pos zero)) limit = limit ≡ pos default
IsLimit default unit bound (some (pos (suc n))) limit =
    (bound ≤ suc n) ⊎ (limit ≡ pos (suc n * unit))
IsLimit default unit bound (some (negsuc n)) limit =
    (bound ≤ n) ⊎ (limit ≡ negsuc (suc n * unit - 1))

IsLimit-memory :
    (net : Text) (req : CreateAgentRequest) (port : ℕ) (mib : Option ℤ)
    → req.memory_mib ≡ mib
    → IsLimit 536870912 1048576 8796093022208 mib
        (create_options net (agent_request req) port).memory
unfolding create_options agent_request int64
IsLimit-memory net req port none e = rw e refl
IsLimit-memory net req port (some (pos zero)) e = rw e refl
IsLimit-memory net req port (some (pos (suc n))) e = elim (Bool-cases (ltb (suc n) 8796093022208)) [
  | inl small ↦ inr (rw e (ground arith))
  | inr large ↦ inl (ground arith)
]
IsLimit-memory net req port (some (negsuc n)) e = elim (Bool-cases (ltb n 8796093022208)) [
  | inl small ↦ inr (rw e (ground arith))
  | inr large ↦ inl (ground arith)
]

IsLimit-cpus :
    (net : Text) (req : CreateAgentRequest) (port : ℕ) (cpus : Option ℤ)
    → req.nano_cpus ≡ cpus
    → IsLimit 500000000 1 9223372036854775808 cpus
        (create_options net (agent_request req) port).nano_cpus
unfolding create_options agent_request
IsLimit-cpus net req port none e = rw e refl
IsLimit-cpus net req port (some (pos zero)) e = rw e refl
IsLimit-cpus net req port (some (pos (suc n))) e = inr (rw e (ground arith))
IsLimit-cpus net req port (some (negsuc n)) e = inr (rw e (ground arith))

-- Docker gets 512 MiB and half a CPU where the request has no number or 0, and else the requested
-- number of MiB and of CPU units, as long as the number of MiB is less than 2^43 away from 0 and
-- the other one less than 2^63; a negative number is passed on as a negative limit.
pub create_options-IsLimit :
    (net : Text) (req : CreateAgentRequest) (port : ℕ)
    → IsLimit 536870912 1048576 8796093022208 req.memory_mib
        (create_options net (agent_request req) port).memory
      × IsLimit 500000000 1 9223372036854775808 req.nano_cpus
          (create_options net (agent_request req) port).nano_cpus
create_options-IsLimit net req port =
    (IsLimit-memory net req port req.memory_mib refl, IsLimit-cpus net req port req.nano_cpus refl)
