-- ===== src/Gce/Operations.antt =====
-- The methods of DockerGCEProvider (provider.go) one after the other, as handlers, the background
-- loops and the admin endpoint call them.
pub mod Counters
use cc_tunnel.Common.{ℕ, List, [], ◌∷◌, Text}
use cc_tunnel.Remote.Client.{Pulled}
use cc_tunnel.Gce.{Config, Outside, World}
use cc_tunnel.Gce.Endpoint.{execute}
use cc_tunnel.Gce.Clients.{prepare_for_relogin, get_session_client, pull_credentials_from_session}
use cc_tunnel.Gce.Cleanup.{cleanup_orphans}
use cc_tunnel.Gce.Reconcile.{reconcile_vms}

pub data Operation : Type 0 where
  executes prepares finds_client : ℕ → Operation
  pulls_credentials : (ℕ → Text → ℕ → Pulled) → ℕ → Operation
  cleans_up reconciles : Operation

module _ (o : Outside) (cfg : Config) where
  unfoldable pub perform : Operation → World → World
  unfolding execute prepare_for_relogin get_session_client pull_credentials_from_session
      cleanup_orphans reconcile_vms
  perform (executes c) w = (execute o cfg c w).1
  perform (prepares c) w = (prepare_for_relogin o cfg c w).1
  perform (finds_client c) w = (get_session_client o cfg c w).1
  perform (pulls_credentials pulls c) w = (pull_credentials_from_session o cfg pulls c w).1
  perform cleans_up w = (cleanup_orphans o cfg w).1
  perform reconciles w = (reconcile_vms o cfg w).1

  unfoldable pub perform_all : List Operation → World → World
  unfolding perform
  perform_all [] w = w
  perform_all (p ∷ ps) w = perform_all ps (perform p w)
