-- ===== src/SelfReaper.antt =====
-- apps/container-manager/internal/selfreaper/reaper.go. Times and durations are numbers in one
-- unit; the agent count, the clock and the answer of the GCE API come in with each tick.
pub mod Safety
pub mod Liveness
use cc_tunnel.Common.{
  ℕ, ◌+◌, ◌-◌, Bool, true, false, Option, none, some, List, [], ◌∷◌, ltb, ◌==◌, if◌then◌else◌,
  is_some,
}

pub record Config : Type 0 where
  pub interval : ℕ
  pub timeout : ℕ

-- `zero_since` is none for the zero time.Time.
pub record Reaper : Type 0 where
  pub cfg : Config
  pub zero_since : Option ℕ

unfoldable pub new : Config → Reaper
new c = record {
  cfg = record {
    interval = if c.interval == 0 then 60 else c.interval;
    timeout = if c.timeout == 0 then 600 else c.timeout;
  };
  zero_since = none;
}

-- What one tick meets: the agent count (none when docker fails), time.Now(), and whether the GCE
-- API would accept the deletion.
pub record Observation : Type 0 where
  pub count : Option ℕ
  pub now : ℕ
  pub accepts : Bool

-- The (done, err) that tick returns.
pub data Outcome : Type 0 where
  waiting list_failed delete_failed dispatched : Outcome

elapsed : ℕ → Option ℕ → ℕ
elapsed now none = 0
elapsed now (some t) = now - t

delete_self : Bool → Outcome
delete_self true = dispatched
delete_self false = delete_failed

-- The part of tick behind `r.zeroSince.IsZero()`, with no agents present.
on_zero : Reaper → ℕ → Bool → Outcome × Reaper
unfolding elapsed delete_self
on_zero r now accepts =
    if is_some r.zero_since
    then (if ltb (elapsed now r.zero_since) r.cfg.timeout
        then (waiting, r)
        else (delete_self accepts, r))
    else (waiting, record r { zero_since = some now })

on_count : Reaper → Option ℕ → ℕ → Bool → Outcome × Reaper
unfolding on_zero
on_count r none now accepts = (list_failed, r)
on_count r (some count) now accepts =
    if ltb 0 count then (waiting, record r { zero_since = none }) else on_zero r now accepts

unfoldable pub tick : Reaper → Observation → Outcome × Reaper
unfolding on_count
tick r o = on_count r o.count o.now o.accepts

-- The three identity lookups of Run, the last error that it returns, and why its loop ended.
pub data Exit : Type 0 where
  no_identity cancelled deleted still_running : Exit

pub data Event : Type 0 where
  ctx_done : Event
  ticked : Observation → Event

abbrev pub ends : Outcome → Bool
ends dispatched = true
ends _ = false

-- The select loop over the events so far.
unfoldable pub loop : Reaper → List Event → Exit
unfolding tick
loop r [] = still_running
loop r (ctx_done ∷ es) = cancelled
loop r (ticked o ∷ es) =
    let rest = loop (tick r o).1 es in if ends (tick r o).0 then deleted else rest

-- Whether the metadata server knows the project, the zone and the name.
unfoldable pub run : Reaper → Bool → Bool → Bool → List Event → Exit
unfolding loop
run r project zone name es =
    if project
    then (if zone then (if name then loop r es else no_identity) else no_identity)
    else no_identity
