-- ===== src/Gce/Loops.antt =====
-- idle_checker.go and vmscaler.go: the goroutines that run CleanupOrphans and ReconcileVMs at every
-- tick until they are stopped. An error is only logged.
use cc_tunnel.Common.{List, [], ◌∷◌}
use cc_tunnel.Gce.{Config, Outside, World}
use cc_tunnel.Gce.Cleanup.{cleanup_orphans}
use cc_tunnel.Gce.Reconcile.{reconcile_vms}

-- What the goroutine's select chooses: the ticker, the closed channel of Stop, or the context's end.
pub data Event : Type 0 where
  ticked stopped cancelled : Event

module _ (o : Outside) (cfg : Config) where
  unfoldable pub idle_loop : List Event → World → World
  unfolding cleanup_orphans
  idle_loop [] w = w
  idle_loop (ticked ∷ es) w = idle_loop es (cleanup_orphans o cfg w).1
  idle_loop (stopped ∷ es) w = w
  idle_loop (cancelled ∷ es) w = w

  unfoldable pub scaler_loop : List Event → World → World
  unfolding reconcile_vms
  scaler_loop [] w = w
  scaler_loop (ticked ∷ es) w = scaler_loop es (reconcile_vms o cfg w).1
  scaler_loop (stopped ∷ es) w = w
  scaler_loop (cancelled ∷ es) w = w
