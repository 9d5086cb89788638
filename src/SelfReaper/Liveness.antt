-- ===== src/SelfReaper/Liveness.antt =====
-- That an idle VM is deleted.
use cc_tunnel.Common.{
  ℕ, ◌+◌, ◌<◌, ◌≡◌, refl, inl, inr, Bool, true, false, ◌&&◌, Option, none, some, List, [], ◌∷◌, map,
  arith, Bool-cases, any, All, leb, ◌==◌, if◌then◌else◌,
}
use cc_tunnel.SelfReaper.{
  Config, new, Observation, waiting, tick, on_count, ends, deleted, ticked, loop, run,
}

-- No agent is seen; the count may fail.
abbrev pub is_quiet : Option ℕ → Bool
is_quiet none = true
is_quiet (some n) = n == 0

abbrev is_zero_count : Option ℕ → Bool
is_zero_count none = false
is_zero_count (some n) = n == 0

-- A tick that counts zero, late enough for a first zero at `t`, and whose deletion is accepted.
abbrev pub is_due : ℕ → Observation → Bool
is_due since o = is_zero_count o.count && leb since o.now && o.accepts

on_count-quiet :
    (cfg : Config) (t : ℕ) (c : Option ℕ) (o : Observation)
    → o.count ≡ c
    → 0 < cfg.timeout
    → is_quiet c ≡ true
    → ((on_count (record { cfg = cfg; zero_since = some t }) c o.now o.accepts).1
        ≡ record { cfg = cfg; zero_since = some t })
      × (is_due (t + cfg.timeout) o ≡ true
          → ends (on_count (record { cfg = cfg; zero_since = some t }) c o.now o.accepts).0 ≡ true)
unfolding on_count
on_count-quiet cfg t none o e pos q = (refl, λ d. ground arith)
on_count-quiet cfg t (some n) o e pos q = (ground arith, λ d. ground arith)

loop-due :
    (cfg : Config) (t : ℕ) (os : List Observation)
    → 0 < cfg.timeout
    → All (λ o. is_quiet o.count ≡ true) os
    → any (is_due (t + cfg.timeout)) os ≡ true
    → loop (record { cfg = cfg; zero_since = some t }) (map ticked os) ≡ deleted
unfolding loop tick
loop-due cfg t [] pos q d = absurd (ground arith)
loop-due cfg t (o ∷ os) pos q d =
    let (same, due) = on_count-quiet cfg t o.count o refl pos q.0 in
    elim (Bool-cases (is_due (t + cfg.timeout) o)) [
      | inl e ↦ rw (due e)
      | inr e ↦ rw (same, loop-due cfg t os pos q.1 (ground arith)) (either _)
    ]
  where
    either : (b : Bool) → (if b then deleted else deleted) ≡ deleted
    either true = refl
    either false = refl

tick_first :
    (c : Config) (o : Observation)
    → o.count ≡ some 0
    → tick (new c) o ≡ (waiting, record { cfg = (new c).cfg; zero_since = some o.now })
unfolding tick new
tick_first c o e = ground arith

timeout-new : (c : Config) → 0 < (new c).cfg.timeout
unfolding new
timeout-new c = ground arith

-- A new reaper that knows its identity deletes its VM: after a tick that counts zero agents, if no
-- later tick counts any (counts may fail), and at one later tick that counts zero the timeout of
-- the configuration has passed since the first and the deletion is accepted, the run ends deleted.
pub run-due :
    (c : Config) (o : Observation) (os : List Observation)
    → o.count ≡ some 0
    → All (λ o. is_quiet o.count ≡ true) os
    → any (is_due (o.now + (new c).cfg.timeout)) os ≡ true
    → run (new c) true true true (map ticked (o ∷ os)) ≡ deleted
unfolding run
run-due c o os zero q d =
    rw (tick_first c o zero) (loop-due (new c).cfg o.now os (timeout-new c) q d)
