-- ===== src/Gce/Clients/Kept.antt =====
-- The clients of sessions keep what the way to an endpoint keeps.
use cc_tunnel.Common.{ℕ, Text, not_found, Action, pure, fail, ◌>>=◌, Keeps-bind, Keeps-unless_ok}
use cc_tunnel.Db.{Db, SessionEndpoint}
use cc_tunnel.Db.Vms.{get_vm_instance}
use cc_tunnel.Db.Endpoints.{get_session_endpoint_by_conversation_id}
use cc_tunnel.Remote.Client.{Pulled}
use cc_tunnel.Gce.{Config, Outside, World, query, ask}
use cc_tunnel.Gce.Keeps.{OfDb, Kept, Kept-query}
use cc_tunnel.Gce.Endpoint.{new_endpoint, get_or_create_endpoint}
use cc_tunnel.Gce.Endpoint.Reuse.{Kept-get_or_create_endpoint}
use cc_tunnel.Gce.Clients.{
  prepare_for_relogin, client_of, get_session_client, pull_credentials_from_session,
}

module _ (o : Outside) (cfg : Config) (I : Db → Type 0) where
  Kept-lookup : (c : ℕ) → Kept o I (query o (λ now id. get_session_endpoint_by_conversation_id c))
  unfolding get_session_endpoint_by_conversation_id
  Kept-lookup c =
      Kept-query o I (λ now id. get_session_endpoint_by_conversation_id c) (λ now id d i. i)

  Kept-client_of : (ep : SessionEndpoint) → Kept o I (client_of o cfg ep)
  unfolding get_vm_instance
  Kept-client_of ep =
      Keeps-bind (OfDb o I) (query o (λ now id. get_vm_instance ep.vm_instance_id))
        (λ vm. pure (vm.internal_ip, ep.port))
        (Kept-query o I (λ now id. get_vm_instance ep.vm_instance_id) (λ now id d i. i))
        (λ vm v j. j)

  pub Kept-get_session_client : (c : ℕ) → Kept o I (get_session_client o cfg c)
  unfolding get_session_client
  Kept-get_session_client c =
      Keeps-unless_ok (OfDb o I) (query o (λ now id. get_session_endpoint_by_conversation_id c))
        (fail not_found) (client_of o cfg) (Kept-lookup c) (λ v j. j) Kept-client_of

  pub Kept-pull_credentials_from_session :
      (pulls : ℕ → Text → ℕ → Pulled) (c : ℕ)
      → Kept o I (pull_credentials_from_session o cfg pulls c)
  unfolding pull_credentials_from_session
  Kept-pull_credentials_from_session pulls c =
      Keeps-bind (OfDb o I) (query o (λ now id. get_session_endpoint_by_conversation_id c)) pull
        (Kept-lookup c)
        λ ep.
          Keeps-bind (OfDb o I) (client_of o cfg ep) asked (Kept-client_of ep) (λ (ip, port) v j. j)
    where
      asked : Text × ℕ → Action World Pulled
      asked (ip, port) = ask o (λ k. pulls k ip port)

      pull : SessionEndpoint → Action World Pulled
      pull ep = client_of o cfg ep >>= asked

  pub Kept-prepare_for_relogin :
      ((c : ℕ) → Kept o I (new_endpoint o cfg c)) → (c : ℕ) → Kept o I (prepare_for_relogin o cfg c)
  unfolding prepare_for_relogin
  Kept-prepare_for_relogin fresh c =
      Keeps-bind (OfDb o I) (get_or_create_endpoint o cfg c) (λ _. pure tt)
        (Kept-get_or_create_endpoint o cfg I fresh c) (λ ep v j. j)
