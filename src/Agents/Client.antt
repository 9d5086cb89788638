-- ===== src/Agents/Client.antt =====
-- apps/cc-tunnel/internal/cmclient/client.go: the requests that it makes of container-manager, and
-- what it makes of the responses; none is a request that fails.
use Prim.Native.Nat.{◌/◌}
use cc_tunnel.Common.{
  ℤ, is_zero, int32, Bool, false, Option, none, some, List, [], ◌∷◌, ◌++◌, Text, codes,
  if◌then◌else◌, ◌==◌,
}
use cc_tunnel.Agents.{Labels}
use cc_tunnel.Agents.Api.{CreateAgentRequest, Response, agents, status_of}

-- RunAgentRequest of the package.
pub record ClientRequest : Type 0 where
  pub image : Text
  pub name : Text
  pub host_port : ℤ
  pub container_port : ℤ
  pub network : Text
  pub env : List Text
  pub labels : Labels

abbrev unless_nil {ℓ} : {A : Type ℓ} → List A → Option (List A)
unless_nil [] = none
unless_nil (x ∷ xs) = some (x ∷ xs)

unfoldable pub request_body : ClientRequest → CreateAgentRequest
unfolding int32
request_body req = record {
  image = req.image;
  name = req.name;
  container_port = int32 req.container_port;
  host_port = if is_zero req.host_port then none else some (int32 req.host_port);
  memory_mib = none;
  nano_cpus = none;
  network = unless_nil req.network;
  env = unless_nil req.env;
  labels = unless_nil req.labels;
}

-- `decimal` is %d of a number.
unfoldable pub agent_container_request : (ℤ → Text) → Text → Text → ℤ → ℤ → ClientRequest
agent_container_request decimal image name host_port container_port = record {
  image = image;
  name = name;
  host_port = host_port;
  container_port = container_port;
  network = [];
  env = (codes "PORT=" ++ decimal container_port) ∷ [];
  labels = [];
}

-- The outcome of RunAgent, StopContainer and RemoveContainer: whether there is no error.
unfoldable pub succeeded : Option Response → Bool
succeeded none = false
succeeded (some r) = (status_of r / 100) == 2

unfoldable pub listed_agents : Option Response → Option (List Text)
listed_agents (some (agents count names)) = some names
listed_agents _ = none

unfoldable pub is_ready : Option Response → Bool
is_ready none = false
is_ready (some r) = status_of r == 200
