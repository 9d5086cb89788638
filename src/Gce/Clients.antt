-- ===== src/Gce/Clients.antt =====
-- PrepareForRelogin, PullCredentialsFromSession and GetSessionClient of provider.go. A client is the
-- address and the port of its agent.
pub mod Kept
use cc_tunnel.Common.{ℕ, Text, not_found, Action, pure, fail, unless_ok, ◌>>=◌, ◌>>◌}
use cc_tunnel.Db.{SessionEndpoint}
use cc_tunnel.Db.Vms.{get_vm_instance}
use cc_tunnel.Db.Endpoints.{get_session_endpoint_by_conversation_id}
use cc_tunnel.Remote.Client.{Pulled}
use cc_tunnel.Gce.{Config, Outside, World, query, ask}
use cc_tunnel.Gce.Endpoint.{get_or_create_endpoint}

module _ (o : Outside) (cfg : Config) where
  unfoldable pub prepare_for_relogin : ℕ → Action World (Unit {0})
  unfolding get_or_create_endpoint
  prepare_for_relogin c = get_or_create_endpoint o cfg c >> pure tt

  abbrev client_of : SessionEndpoint → Action World (Text × ℕ)
  client_of ep = do
    vm ← query o (λ now id. get_vm_instance ep.vm_instance_id)
    pure (vm.internal_ip, ep.port)

  -- The error not_found is ErrSessionNotFound, whatever the query's error was.
  unfoldable pub get_session_client : ℕ → Action World (Text × ℕ)
  unfolding get_session_endpoint_by_conversation_id get_vm_instance
  get_session_client c =
      unless_ok (query o (λ now id. get_session_endpoint_by_conversation_id c)) (fail not_found)
        client_of

  -- `pulls` is FinalizeCredentials of the agent at an address and port.
  unfoldable pub pull_credentials_from_session : (ℕ → Text → ℕ → Pulled) → ℕ → Action World Pulled
  unfolding get_session_endpoint_by_conversation_id get_vm_instance
  pull_credentials_from_session pulls c = do
    ep ← query o (λ now id. get_session_endpoint_by_conversation_id c)
    (ip, port) ← client_of ep
    ask o (λ k. pulls k ip port)
