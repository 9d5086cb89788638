-- ===== src/Examples/Containers.antt =====
-- A request to create an agent, with a docker daemon that starts the container and with one that
-- does not.
use cc_tunnel.Common.{pos, negsuc, ◌≡◌, refl, true, none, some, [], ◌∷◌, Text, codes}
use cc_tunnel.Agents.{Labels, inspect, create, start, Outcome, done, failed, Daemon, create_options}
use cc_tunnel.Agents.Api.{CreateAgentRequest, agent_request, create_agent, created}
use cc_tunnel.Agents.Creates.{Adds, create_agent-Proper}
use cc_tunnel.Agents.Answers.{Answered, create_agent-Answered}
use cc_tunnel.Agents.Limits.{IsLimit, create_options-IsLimit}

abbrev labels : Labels
labels = (codes "component", codes "cc-remote-agent") ∷ (codes "other", codes "x") ∷ []

abbrev request : CreateAgentRequest
request = record {
  image = codes "a-docker.pkg.dev/p/agent";
  name = codes "agent-1";
  container_port = pos 9090;
  host_port = some (pos 10000);
  memory_mib = some (pos 1024);
  nano_cpus = none;
  network = none;
  env = none;
  labels = some labels;
}

abbrev daemon : Outcome (Unit {0}) → Daemon
daemon starts = record {
  pings = λ _. done tt;
  has_image = λ _. true;
  gives_token = λ _. done (codes "t");
  pulls = λ _. done tt;
  creates = λ _. done (codes "id");
  starts = λ _. starts;
  stops = λ _. done tt;
  removes = λ _. done tt;
  lists = λ _. done [];
}

abbrev quoted : Text → Text
quoted t = t

abbrev bridge : Text
bridge = codes "bridge"

create_agent_test :
    (create_agent (daemon (done tt)) quoted bridge (some request) []).0 ≡ created (codes "id")
unfolding create_agent
create_agent_test = refl

create_agent-Proper_example :
    Adds [] (create_agent (daemon (done tt)) quoted bridge (some request) []).1
create_agent-Proper_example =
    create_agent-Proper (daemon (done tt)) quoted bridge (some request) [] refl

create_options-IsLimit_example :
    IsLimit 536870912 1048576 8796093022208
      (some (pos 1024))
      (create_options bridge (agent_request request) 9090).memory
    × IsLimit 500000000 1 9223372036854775808 none
        (create_options bridge (agent_request request) 9090).nano_cpus
create_options-IsLimit_example = create_options-IsLimit bridge request 9090

-- A negative number of MiB is a negative limit.
negative_test :
    (create_options bridge
      (agent_request (record request { memory_mib = some (negsuc 0) }))
      9090).memory
    ≡ negsuc 1048575
unfolding create_options agent_request
negative_test = refl

create_agent-Answered_example :
    Answered
      (daemon (done tt))
      quoted
      []
      (create_agent (daemon (done tt)) quoted bridge (some request) [])
create_agent-Answered_example =
    create_agent-Answered (daemon (done tt)) quoted bridge (some request) []

-- A container that docker creates but does not start stays.
start_fails_test :
    (create_agent (daemon (failed (codes "port in use"))) quoted bridge (some request) []).1
    ≡ start (codes "id")
      ∷ create (create_options bridge (agent_request request) 9090)
      ∷ inspect request.image
      ∷ []
unfolding create_agent
start_fails_test = refl
