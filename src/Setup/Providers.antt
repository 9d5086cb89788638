-- ===== src/Setup/Providers.antt =====
-- newLocalRunner and newProviderFromEnv of main.go. Durations are numbers of seconds; the product
-- with time.Second is left out, with its overflow beyond 292 years.
use cc_tunnel.Common.{ℕ, Bool, Option, none, some, Text, codes, if◌then◌else◌, is_empty, same_text}
use cc_tunnel.Setup.{Environment, ℤ, pos, atoi, get_env_or_default, get_env_int_or_default}

pub data DockerRunner : Type 0 where
  cm_runner : Text → ℤ → DockerRunner
  sdk_runner : DockerRunner

-- dockergce.DockerGCEConfig, as the server fills it.
pub record GceSettings : Type 0 where
  pub project_id : Text
  pub zone : Text
  pub machine_type : Text
  pub vm_image : Text
  pub vm_service_account : Text
  pub vm_subnetwork : Text
  pub agent_image : Text
  pub agent_port : ℕ
  pub idle_timeout : ℕ
  pub max_containers : ℤ
  pub idle_check_interval : ℤ
  pub container_manager_port : ℤ
  pub container_name_prefix : Text
  pub port_range_start : ℤ
  pub port_range_end : ℤ
  pub zero_agents_timeout : ℤ
  pub vm_reconcile_interval : ℤ
  pub container_manager_probe_timeout : ℤ

pub data Provider : Type 0 where
  local_docker : DockerRunner → (image network container_port : Text) → Provider
  cloud_run_sandbox : Provider
  docker_gce : GceSettings → Provider

pub data Refusal : Type 0 where
  no_database container_manager_client bad_agent_port no_docker no_gce unknown_provider : Refusal
  no_key key_not_hex bad_key_length : Refusal
  missing : Text → Refusal

pub data Attempt (A : Type 0) : Type 0 where
  made : A → Attempt A
  refused : Refusal → Attempt A

-- The constructors of clients, which may fail.
pub record Clients : Type 0 where
  pub connects : Text → Bool  -- db.NewPool
  pub container_manager : Text → Bool  -- cmclient.NewClient
  pub docker : Bool  -- docker.NewSDKRunner
  pub gce : Bool  -- gce.NewSDKGCEClient

module _ (env : Environment) (clients : Clients) where
  abbrev with_port : Text → Text → Option ℤ → Attempt (DockerRunner × Text)
  with_port url port none = refused bad_agent_port
  with_port url port (some n) = made (cm_runner url n, port)

  abbrev remote_runner : Text → Attempt (DockerRunner × Text)
  remote_runner url =
      let port = get_env_or_default env (codes "CC_REMOTE_AGENT_PORT") (codes "9090") in
      if clients.container_manager url
      then with_port url port (atoi port)
      else refused container_manager_client

  unfoldable pub new_local_runner : Attempt (DockerRunner × Text)
  unfolding get_env_or_default atoi
  new_local_runner =
      if is_empty (env (codes "CONTAINER_MANAGER_URL"))
      then (if clients.docker
          then made
              (sdk_runner, get_env_or_default env (codes "CC_REMOTE_AGENT_PORT") (codes "9091"))
          else refused no_docker)
      else remote_runner (env (codes "CONTAINER_MANAGER_URL"))

  abbrev local_provider : Attempt (DockerRunner × Text) → Attempt Provider
  local_provider (refused r) = refused r
  local_provider (made (runner, port)) = made (
      local_docker runner
        (get_env_or_default env (codes "CC_REMOTE_AGENT_IMAGE") (codes "cc-remote-agent:latest"))
        (get_env_or_default env (codes "DOCKER_NETWORK") (codes "apps_default")) port)

  unfoldable pub gce_settings : GceSettings
  unfolding get_env_or_default get_env_int_or_default
  gce_settings = record {
    project_id = env (codes "GCE_PROJECT_ID");
    zone = get_env_or_default env (codes "GCE_ZONE") (codes "us-central1-a");
    machine_type = get_env_or_default env (codes "GCE_MACHINE_TYPE") (codes "e2-medium");
    vm_image = env (codes "GCE_VM_IMAGE");
    vm_service_account = env (codes "GCE_VM_SERVICE_ACCOUNT");
    vm_subnetwork = env (codes "GCE_VM_SUBNETWORK");
    agent_image = env (codes "CC_REMOTE_AGENT_IMAGE");
    agent_port = 9091;
    idle_timeout = 900;
    max_containers = get_env_int_or_default env (codes "GCE_MAX_CONTAINERS") (pos 10);
    idle_check_interval =
        get_env_int_or_default env (codes "GCE_IDLE_CHECK_INTERVAL_SECONDS") (pos 300);
    container_manager_port =
        get_env_int_or_default env (codes "GCE_CONTAINER_MANAGER_PORT") (pos 9090);
    container_name_prefix =
        get_env_or_default env (codes "GCE_CONTAINER_NAME_PREFIX") (codes "cc-remote-agent");
    port_range_start = get_env_int_or_default env (codes "GCE_AGENT_PORT_RANGE_START") (pos 61000);
    port_range_end = get_env_int_or_default env (codes "GCE_AGENT_PORT_RANGE_END") (pos 61999);
    zero_agents_timeout =
        get_env_int_or_default env (codes "GCE_VM_ZERO_AGENTS_TIMEOUT_SECONDS") (pos 600);
    vm_reconcile_interval =
        get_env_int_or_default env (codes "GCE_VM_RECONCILE_INTERVAL_SECONDS") (pos 0);
    container_manager_probe_timeout =
        get_env_int_or_default env (codes "GCE_CONTAINER_MANAGER_PROBE_TIMEOUT_SECONDS") (pos 5);
  }

  abbrev unless_missing : Text → Attempt Provider → Attempt Provider
  unless_missing key next = if is_empty (env key) then refused (missing key) else next

  unfoldable pub new_gce_provider : Attempt Provider
  unfolding gce_settings
  new_gce_provider =
      if clients.gce
      then unless_missing (codes "GCE_PROJECT_ID") (
          unless_missing (codes "CC_REMOTE_AGENT_IMAGE")
            (unless_missing (codes "GCE_VM_IMAGE") (made (docker_gce gce_settings))))
      else refused no_gce

  unfoldable pub new_provider_from_env : Text → Attempt Provider
  unfolding new_local_runner new_gce_provider
  new_provider_from_env v =
      if same_text v (codes "local")
      then local_provider new_local_runner
      else if same_text v (codes "cloud_run_sandbox")
      then made cloud_run_sandbox
      else if same_text v (codes "docker_gce")
      then new_gce_provider
      else refused unknown_provider
