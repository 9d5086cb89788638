-- ===== src/Examples/Data.antt =====
-- Rows, worlds and answers from outside that the runs share.
use cc_tunnel.Common.{◌+◌, Bool, true, false, none, some, [], ◌∷◌, codes}
use cc_tunnel.Db.{VmStatus, VmInstance, EndpointStatus, SessionEndpoint, Db}
use cc_tunnel.Gce.{Config, Outside, World}

-- A running VM with one agent, counted zero agents at time 100.
abbrev pub idle_vm : VmInstance
idle_vm = record {
  id = 7;
  gce_instance_name = codes "cc-tunnel-7";
  zone = codes "a";
  internal_ip = codes "10.0.0.7";
  status = VmStatus.running;
  active_containers = 1;
  idle_since = none;
  zero_agents_since = some 100;
  created_at = 10;
}

abbrev pub endpoint : SessionEndpoint
endpoint = record {
  id = 1;
  conversation_id = 40;
  vm_instance_id = 7;
  container_name = codes "session-40";
  port = 61000;
  status = EndpointStatus.running;
  last_activity = 90;
  created_at = 80;
}

abbrev pub with_endpoint : Db
with_endpoint = record { vms = idle_vm ∷ []; endpoints = endpoint ∷ [] }

abbrev pub without_endpoint : Db
without_endpoint = record { vms = idle_vm ∷ []; endpoints = [] }

abbrev pub world : Db → World
world d = record { db = d; calls = 0; sent = [] }

abbrev pub config : Config
config = record {
  zone = codes "a";
  idle_timeout = 900;
  max_containers = 10;
  zero_agents_timeout = 600;
  container_name_prefix = codes "session";
  port_range_start = 61000;
  port_range_end = 61999;
}

-- Everything works, at time 1000, with no agent; a container-manager answers as the argument says.
abbrev pub outside : Bool → Outside
outside up = record {
  db_answers = λ n. true;
  now = λ n. 1000;
  new_id = λ n. n + 50;
  client_ok = λ n ip. true;
  is_ready = λ n ip. up;
  list_agents = λ n ip. some 0;
  accepts = λ n. true;
  get_instance = λ n. some (record { is_running = true; network_ip = codes "10.0.0.9" });
  uuid_text = λ i. i ∷ [];
  created_ip = λ n. codes "10.0.0.9";
  uuid_prefix = λ n. codes "0a1b2c3d";
  agent_ready = λ n ip port. up;
  executes = λ n ip port. some (codes "s-1");
  cancelled = λ n. false;
  polls = λ n. 3;
}
