-- ===== src/Gce.antt =====
-- apps/cc-tunnel/internal/provider/dockergce/provider.go: what DockerGCEProvider holds and calls.
-- The database, the GCE API and the container-manager of each VM answer through `Outside`, a
-- function of the number of calls made before, so that any call may fail at any time.
pub mod Reconcile
pub mod Pick
pub mod Wait
pub mod Endpoint
pub mod Cleanup
pub mod Clients
pub mod Loops
pub mod Keeps
pub mod Flight
pub mod Operations
use cc_tunnel.Common.{
  ℕ, ◌+◌, ◌==◌, is_empty, codes, Bool, true, false, Option, List, ◌∷◌, Text, if◌then◌else◌, Result,
  ok, err, unavailable, Action,
}
use cc_tunnel.Db.{Db}

-- DockerGCEConfig, the fields that decide what the provider does. Durations are numbers.
pub record Config : Type 0 where
  pub zone : Text
  pub idle_timeout : ℕ
  pub max_containers : ℕ
  pub zero_agents_timeout : ℕ
  pub container_name_prefix : Text
  pub port_range_start : ℕ
  pub port_range_end : ℕ

-- NewDockerGCEProviderWithClientFactory: a zero value means the default (times in seconds).
unfoldable pub with_defaults : Config → Config
with_defaults c = record {
  zone = c.zone;
  idle_timeout = or_default c.idle_timeout 900;
  max_containers = or_default c.max_containers 10;
  zero_agents_timeout = or_default c.zero_agents_timeout 600;
  container_name_prefix = prefix c.container_name_prefix;
  port_range_start = or_default c.port_range_start 61000;
  port_range_end = or_default c.port_range_end 61999;
}
  where
    or_default : ℕ → ℕ → ℕ
    or_default n d = if n == 0 then d else n

    prefix : Text → Text
    prefix t = if is_empty t then codes "session" else t

-- gce.Instance: whether its status is RUNNING, and its address.
pub record Instance : Type 0 where
  pub is_running : Bool
  pub network_ip : Text

-- The answers to the n-th outward call.
pub record Outside : Type 0 where
  pub db_answers : ℕ → Bool  -- the connection works
  pub now : ℕ → ℕ  -- NOW() and time.Now()
  pub new_id : ℕ → ℕ  -- gen_random_uuid() and uuid.New()
  pub client_ok : ℕ → Text → Bool  -- newDockerClient for an address
  pub is_ready : ℕ → Text → Bool  -- IsReady of the container-manager at an address
  pub list_agents : ℕ → Text → Option ℕ  -- the number of agents, if ListAgents succeeds
  pub accepts : ℕ → Bool  -- a request of `Request`
  pub get_instance : ℕ → Option Instance
  pub uuid_text : ℕ → Text  -- the text of a UUID
  pub created_ip : ℕ → Text  -- the address in the answer to a creation
  pub uuid_prefix : ℕ → Text  -- uuid.New().String()[:8]
  pub agent_ready : ℕ → Text → ℕ → Bool  -- GetAuthStatus of the agent at an address and port
  pub executes : ℕ → Text → ℕ → Option Text  -- the agent's Execute, with the session id
  pub cancelled : ℕ → Bool  -- ctx is done
  pub polls : ℕ → ℕ  -- how many polls fit before the deadline of a wait, after the first

-- The requests that change something outside. A container is named with the address of its VM.
pub data Request : Type 0 where
  create_instance : Text → Request
  delete_instance : Text → Request
  run_agent : Text → Text → ℕ → Request
  stop_container : Text → Text → Request
  remove_container : Text → Text → Request

-- The database, the number of calls made, and the requests sent, the last one first, with whether
-- they were accepted.
pub record World : Type 0 where
  pub db : Db
  pub calls : ℕ
  pub sent : List (Request × Bool)

module _ (o : Outside) where
  -- One statement; without a connection it changes nothing.
  abbrev pub query : {A : Type 0} → (ℕ → ℕ → Action Db A) → World → Result A × World
  query q w =
      if o.db_answers w.calls
      then (let (r, d) = q (o.now w.calls) (o.new_id w.calls) w.db in
          (r, record w { db = d; calls = w.calls + 1 }))
      else (err unavailable, record w { calls = w.calls + 1 })

  -- A call that only looks.
  abbrev pub ask : {A : Type 0} → (ℕ → A) → Action World A
  ask f w = (ok (f w.calls), record w { calls = w.calls + 1 })

  abbrev pub send : Request → Action World (Unit {0})
  send r w = (
    if o.accepts w.calls then ok tt else err unavailable,
    record w { calls = w.calls + 1; sent = (r, o.accepts w.calls) ∷ w.sent },
  )
