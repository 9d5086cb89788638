-- ===== src/Agents/Api.antt =====
-- apps/container-manager/internal/api/handler.go. The numbers of a request are signed, of 32 bits
-- (ports) and of 64.
use cc_tunnel.Common.{
  ℕ, ℤ, pos, is_zero, times, int64, Bool, true, false, ◌&&◌, ◌||◌, Option, none, some, List, [],
  ◌∷◌, ◌++◌, Text, codes, if◌then◌else◌, ◌==◌, ltb, length, take, is_empty, same_text, any,
}
use cc_tunnel.Agents.{
  Labels, RunAgentRequest, Call, ping, Outcome, done, failed, Daemon, ask, run_agent, list_agents,
  stop_agent, remove_agent,
}

pub data Response : Type 0 where
  status_ok : Response
  agents : (count : ℕ) (names : List Text) → Response
  created : (id : Text) → Response
  no_content : Response
  error_response : (status : ℕ) (text : Text) → Response

abbrev pub status_of : Response → ℕ
status_of status_ok = 200
status_of (agents count names) = 200
status_of (created id) = 201
status_of no_content = 204
status_of (error_response status text) = status

abbrev pub allowed_label_keys : List Text
allowed_label_keys = codes "conversation_id" ∷ codes "vm_instance_id" ∷ codes "component" ∷ []

abbrev pub is_allowed : Text → Bool
is_allowed key = any (same_text key) allowed_label_keys

abbrev pub capped : Text → Text
capped v = if ltb 256 (length v) then take 256 v else v

-- A nil map is one without entries.
unfoldable pub filter_labels : Labels → Labels
filter_labels [] = []
filter_labels ((k, v) ∷ rest) =
    let out = filter_labels rest in if is_allowed k then (k, capped v) ∷ out else out

pub record CreateAgentRequest : Type 0 where
  pub image : Text
  pub name : Text
  pub container_port : ℤ
  pub host_port : Option ℤ
  pub memory_mib : Option ℤ
  pub nano_cpus : Option ℤ
  pub network : Option Text
  pub env : Option (List Text)
  pub labels : Option Labels

abbrev pub zero_or : Option ℤ → ℤ
zero_or none = pos 0
zero_or (some n) = n

-- The derefs of a text, a slice and a map.
abbrev pub empty_or {ℓ} : {A : Type ℓ} → Option (List A) → List A
empty_or none = []
empty_or (some xs) = xs

-- strings.ContainsAny(name, "/ \t\n")
abbrev pub has_separator : Text → Bool
has_separator = any (λ c. (c == 47) || (c == 32) || (c == 9) || (c == 10))

abbrev pub lacks_field : CreateAgentRequest → Bool
lacks_field req = is_empty req.image || is_empty req.name || is_zero req.container_port

unfoldable pub agent_request : CreateAgentRequest → RunAgentRequest
unfolding filter_labels int64
agent_request req = record {
  image = req.image;
  name = req.name;
  host_port = zero_or req.host_port;
  container_port = req.container_port;
  memory_bytes = int64 (times (zero_or req.memory_mib) 1048576);
  nano_cpus = zero_or req.nano_cpus;
  network = empty_or req.network;
  env = empty_or req.env;
  labels = filter_labels (empty_or req.labels);
}

-- strings.Contains
abbrev starts_text : Text → Text → Bool
starts_text [] s = true
starts_text (a ∷ p) [] = false
starts_text (a ∷ p) (c ∷ s) = a == c && starts_text p s

abbrev contains_text : Text → Text → Bool
contains_text [] part = is_empty part
contains_text (c ∷ s) part = starts_text part (c ∷ s) || contains_text s part

-- No error of the manager wraps errNotFound.
unfoldable pub is_not_found : Text → Bool
is_not_found e = contains_text e (codes "No such container")

module _ (d : Daemon) (quoted : Text → Text) (default_network : Text) where
  abbrev health : Outcome (Unit {0}) → Response
  health (done tt) = status_ok
  health (failed e) = error_response 503 (codes "docker daemon unreachable: " ++ e)

  unfoldable pub get_healthz : List Call → Response × List Call
  get_healthz calls = let (o, calls') = ask d.pings ping calls in (health o, calls')

  abbrev listed : Outcome (List Text) → Response
  listed (done names) = agents (length names) names
  listed (failed e) = error_response 500 e

  unfoldable pub handle_list_agents : List Call → Response × List Call
  unfolding list_agents
  handle_list_agents calls = let (o, calls') = list_agents d quoted calls in (listed o, calls')

  abbrev pub ran : Outcome Text → Response
  ran (done id) = created id
  ran (failed e) = error_response 500 e

  abbrev pub run_for : CreateAgentRequest → List Call → Response × List Call
  run_for req calls =
      let (o, calls') = run_agent d quoted default_network (agent_request req) calls in
      (ran o, calls')

  unfoldable pub create_agent : Option CreateAgentRequest → List Call → Response × List Call
  unfolding run_agent agent_request
  create_agent none calls = (error_response 400 (codes "missing request body"), calls)
  create_agent (some req) calls =
      if lacks_field req
      then (error_response 400 (codes "image, name, container_port are required"), calls)
      else if has_separator req.name
      then (error_response 400 (codes "invalid container name"), calls)
      else run_for req calls

  abbrev removed : Outcome (Unit {0}) → Response
  removed (done tt) = no_content
  removed (failed e) = if is_not_found e then error_response 404 e else error_response 500 e

  unfoldable pub handle_stop_agent : Text → List Call → Response × List Call
  unfolding stop_agent is_not_found
  handle_stop_agent name calls =
      let (o, calls') = stop_agent d quoted name calls in (removed o, calls')

  unfoldable pub handle_remove_agent : Text → List Call → Response × List Call
  unfolding remove_agent is_not_found
  handle_remove_agent name calls =
      let (o, calls') = remove_agent d quoted name calls in (removed o, calls')
