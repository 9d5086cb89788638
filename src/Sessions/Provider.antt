-- ===== src/Sessions/Provider.antt =====
-- apps/cc-tunnel/internal/provider/local/docker_provider.go: execution in the session manager's
-- containers. `agent` is what an agent answers at the URL of a client.
use cc_tunnel.Common.{Option, none, some, [], Text, not_found, Action, pure, fail, ◌>>=◌, ◌>>◌}
use cc_tunnel.Remote.Client.{Executed, Pulled, failed}
use cc_tunnel.Sessions.{
  Docker, Config, Manager, get_or_create, get_client, stop_all, cleanup_orphans,
}

module _ (o : Docker) (cfg : Config) where
  unfoldable pub provider_execute : (Text → Executed) → Text → Text → Action Manager Executed
  unfolding get_or_create
  provider_execute agent conversation_id credentials = do
    client ← get_or_create o cfg conversation_id credentials
    pure (agent client)

  -- Without credentials.
  unfoldable pub provider_prepare_for_relogin : Text → Action Manager (Unit {0})
  unfolding get_or_create
  provider_prepare_for_relogin conversation_id = get_or_create o cfg conversation_id [] >> pure tt

  abbrev pulled_from : (Text → Pulled) → Option Text → Pulled
  pulled_from agent none = failed
  pulled_from agent (some client) = agent client

  unfoldable pub provider_pull_credentials : (Text → Pulled) → Text → Manager → Pulled
  unfolding get_client
  provider_pull_credentials agent conversation_id w =
      pulled_from agent (get_client o cfg conversation_id w)

  -- The error not_found is ErrSessionNotFound.
  abbrev client_or_not_found : Option Text → Action Manager Text
  client_or_not_found none = fail not_found
  client_or_not_found (some client) = pure client

  unfoldable pub provider_get_session_client : Text → Action Manager Text
  unfolding get_client
  provider_get_session_client conversation_id w =
      client_or_not_found (get_client o cfg conversation_id w) w

  unfoldable pub provider_close : Action Manager (Unit {0})
  unfolding stop_all
  provider_close = stop_all o cfg

  unfoldable pub provider_cleanup_orphans : Action Manager (Unit {0})
  unfolding cleanup_orphans
  provider_cleanup_orphans = cleanup_orphans o cfg
