-- ===== src/Gce/Operations/Counters.antt =====
-- The counters that the search for a VM and the deletion of idle VMs go by.
use cc_tunnel.Common.{ℕ, ◌<◌, ◌≡◌, refl, true, List, [], ◌∷◌}
use cc_tunnel.Db.{Db}
use cc_tunnel.Db.Invariant.{touch_endpoint}
use cc_tunnel.Db.Counts.{Counted, nothing_owed}
use cc_tunnel.Db.Counts.Writes.{exec-Counted}
use cc_tunnel.Gce.{Config, Outside, World}
use cc_tunnel.Gce.Endpoint.Counters.{Kept-new_endpoint}
use cc_tunnel.Gce.Endpoint.Reuse.{Kept-execute}
use cc_tunnel.Gce.Clients.Kept.{
  Kept-prepare_for_relogin, Kept-get_session_client, Kept-pull_credentials_from_session,
}
use cc_tunnel.Gce.Cleanup.Counters.{cleanup_orphans-Counted}
use cc_tunnel.Gce.Reconcile.Kept.{Kept-reconcile_vms}
use cc_tunnel.Gce.Operations.{
  Operation, executes, prepares, finds_client, pulls_credentials, cleans_up, reconciles, perform,
  perform_all,
}

module _ (o : Outside) (cfg : Config) (answers : (n : ℕ) → o.db_answers n ≡ true)
    (some_room : 0 < cfg.max_containers) where
  abbrev Right : Db → Type 0
  Right d = Counted cfg.max_containers nothing_owed d

  perform-Counted : (p : Operation) (w : World) → Right w.db → Right (perform o cfg p w).db
  unfolding perform
  perform-Counted (executes c) =
      Kept-execute o cfg Right (Kept-new_endpoint o cfg answers some_room)
        (λ now k. exec-Counted cfg.max_containers (touch_endpoint now k) refl) c
  perform-Counted (prepares c) =
      Kept-prepare_for_relogin o cfg Right (Kept-new_endpoint o cfg answers some_room) c
  perform-Counted (finds_client c) = Kept-get_session_client o cfg Right c
  perform-Counted (pulls_credentials pulls c) =
      Kept-pull_credentials_from_session o cfg Right pulls c
  perform-Counted cleans_up = cleanup_orphans-Counted o cfg answers
  perform-Counted reconciles = Kept-reconcile_vms o cfg Right (exec-Counted cfg.max_containers)

  -- While the database answers, and whatever GCE, the container-managers and the agents answer: from
  -- tables that meet the constraints and in which every VM's active_containers is the number of
  -- session endpoints on the VM and at most the configured maximum, which is not 0, the provider's
  -- methods in any order, one after the other, lead to such tables: no VM gets more endpoints than
  -- the maximum, and the counters do not drift.
  pub perform_all-Counted :
      (ps : List Operation) (w : World)
      → Counted cfg.max_containers nothing_owed w.db
      → Counted cfg.max_containers nothing_owed (perform_all o cfg ps w).db
  unfolding perform_all
  perform_all-Counted [] w v = v
  perform_all-Counted (p ∷ ps) w v =
      perform_all-Counted ps (perform o cfg p w) (perform-Counted p w v)
