-- ===== src/SelfReaper/Safety.antt =====
-- When the reaper deletes its VM.
use cc_tunnel.Common.{
  ℕ, ◌+◌, ◌≤◌, ◌≡◌, refl, ◌⊎◌, inl, inr, Bool, true, false, Option, none, some, List, [], ◌∷◌, ◌++◌,
  arith, Bool-cases, ◌<◌, map, ap, ◌∙◌, ltb, ◌-◌,
}
use cc_tunnel.SelfReaper.{
  on_count, ends, Config, Reaper, new, Observation, Outcome, dispatched, tick, deleted, Event,
  ctx_done, ticked, loop, run,
}

-- The observations so far, the last one first, saw no agent since one that was made at time `t`
-- and counted zero; a failed count interrupts nothing.
pub data NoAgentSince (t : ℕ) : List Observation → Type 0 where
  first :
      {o : Observation} {h : List Observation}
      → o.count ≡ some 0
      → o.now ≡ t
      → NoAgentSince t (o ∷ h)
  more :
      {o : Observation} {h : List Observation}
      → (o.count ≡ some 0) ⊎ (o.count ≡ none)
      → NoAgentSince t h
      → NoAgentSince t (o ∷ h)

-- What justifies a deletion after the observations so far.
abbrev pub Justified : ℕ → List Observation → Type 0
Justified timeout [] = ⊥
Justified timeout (o ∷ h) =
    (t : ℕ) × (NoAgentSince t h) × (o.count ≡ some 0) × (t + timeout ≤ o.now) × (o.accepts ≡ true)

-- The field agrees with the history.
abbrev Remembers : Option ℕ → List Observation → Type 0
Remembers none h = Unit
Remembers (some t) h = NoAgentSince t h

ends-true : (x : Outcome) → ends x ≡ true → x ≡ dispatched
ends-true x h = ground arith

at_zero : (n : ℕ) (c : Option ℕ) → c ≡ some n → ltb 0 n ≡ false → c ≡ some 0
at_zero n c e z = ground arith

on_count-Remembers :
    (cfg : Config) (z c : Option ℕ) (o : Observation) (h : List Observation)
    → o.count ≡ c
    → Remembers z h
    → Remembers
        (on_count (record { cfg = cfg; zero_since = z }) c o.now o.accepts).1.zero_since
        (o ∷ h)
unfolding on_count
on_count-Remembers cfg none none o h e m = tt
on_count-Remembers cfg (some t) none o h e m = more (inr e) m
on_count-Remembers cfg none (some n) o h e m = elim (Bool-cases (ltb 0 n)) [
  | inl p ↦ rw p tt
  | inr p ↦ rw p (first (at_zero n o.count e p) refl)
]
on_count-Remembers cfg (some t) (some n) o h e m = elim (Bool-cases (ltb 0 n)) [
  | inl p ↦ rw p tt
  | inr p ↦ rw p (elim (Bool-cases (ltb (o.now - t) cfg.timeout)) [
    | inl q ↦ rw q (more (inl (at_zero n o.count e p)) m)
    | inr q ↦ rw q (more (inl (at_zero n o.count e p)) m)
  ])
]

-- Nothing but the field changes, so the thresholds stay those of `new`.
cfg-tick : (r : Reaper) (o : Observation) → (tick r o).1.cfg ≡ r.cfg
unfolding tick
cfg-tick r o = ground arith

on_count-Justified :
    (cfg : Config) (z c : Option ℕ) (o : Observation) (h : List Observation)
    → 0 < cfg.timeout
    → o.count ≡ c
    → Remembers z h
    → (on_count (record { cfg = cfg; zero_since = z }) c o.now o.accepts).0 ≡ dispatched
    → Justified cfg.timeout (o ∷ h)
unfolding on_count
on_count-Justified cfg z none o h pos e m d = absurd (ground arith)
on_count-Justified cfg none (some n) o h pos e m d = absurd (ground arith)
on_count-Justified cfg (some t) (some n) o h pos e m d =
    (t, m, ground arith, ground arith, ground arith)

tick-Remembers :
    (r : Reaper) (o : Observation) (h : List Observation)
    → Remembers r.zero_since h
    → Remembers (tick r o).1.zero_since (o ∷ h)
unfolding tick
tick-Remembers r o h m = on_count-Remembers r.cfg r.zero_since o.count o h refl m

tick-Justified :
    (timeout : ℕ) (r : Reaper) (o : Observation) (h : List Observation)
    → 0 < timeout
    → r.cfg.timeout ≡ timeout
    → Remembers r.zero_since h
    → ends (tick r o).0 ≡ true
    → Justified timeout (o ∷ h)
unfolding tick
tick-Justified timeout r o h pos same m e =
    rw same at
      (on_count-Justified r.cfg r.zero_since o.count o h (rw same pos) refl m (ends-true _ e))

-- The observations of ticks made in order, put onto those before, last first.
abbrev pub onto : List Observation → List Observation → List Observation
onto [] h = h
onto (o ∷ os) h = onto os (o ∷ h)

-- The events before a deletion are ticks, and the last tick is justified by all of them.
abbrev pub DeletedAfter : ℕ → List Observation → List Event → Type 0
DeletedAfter timeout h es =
    (os : List Observation) × (o : Observation) × (later : List Event) × (es
      ≡ map ticked os ++ ticked o ∷ later)
    × Justified timeout (o ∷ onto os h)

loop-deleted :
    (timeout : ℕ) (r : Reaper) (h : List Observation) (es : List Event)
    → 0 < timeout
    → r.cfg.timeout ≡ timeout
    → Remembers r.zero_since h
    → loop r es ≡ deleted
    → DeletedAfter timeout h es
unfolding loop
loop-deleted timeout r h [] pos same m d = absurd (ground arith)
loop-deleted timeout r h (ctx_done ∷ es) pos same m d = absurd (ground arith)
loop-deleted timeout r h (ticked o ∷ es) pos same m d = elim (Bool-cases (ends (tick r o).0)) [
  | inl e ↦ ([], o, es, refl, tick-Justified timeout r o h pos same m e)
  | inr e ↦ later (
      loop-deleted timeout (tick r o).1 (o ∷ h) es pos
        (ap (λ (g : Config). g.timeout) (cfg-tick r o) ∙ same) (tick-Remembers r o h m) (rw e at d))
]
  where
    later : DeletedAfter timeout (o ∷ h) es → DeletedAfter timeout h (ticked o ∷ es)
    later (os, o', post, e, j) = (o ∷ os, o', post, ap (◌∷◌ (ticked o)) e, j)

fresh : (c : Config) → Remembers (new c).zero_since []
unfolding new
fresh c = tt

timeout-new : (c : Config) → 0 < (new c).cfg.timeout
unfolding new
timeout-new c = ground arith

-- A run of a new reaper that ends with its VM deleted made ticks only before the deletion, and the
-- last of them counted zero agents, its deletion was accepted, and the observations before it hold
-- one of zero agents that is at least the timeout of the configuration older, since which no count
-- was above zero.
pub run-deleted :
    (c : Config) (project zone name : Bool) (es : List Event)
    → run (new c) project zone name es ≡ deleted
    → DeletedAfter (new c).cfg.timeout [] es
unfolding run
run-deleted c true true true es d =
    loop-deleted (new c).cfg.timeout (new c) [] es (timeout-new c) refl (fresh c) d
run-deleted c true true false es d = absurd (ground arith)
run-deleted c true false name es d = absurd (ground arith)
run-deleted c false zone name es d = absurd (ground arith)
