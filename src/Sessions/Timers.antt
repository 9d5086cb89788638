-- ===== src/Sessions/Timers.antt =====
-- What Stop does to a session and its timer.
use cc_tunnel.Common.{
  ℕ, ◌+◌, ◌≡◌, refl, ap, ◌⊎◌, inl, inr, true, false, none, some, List, [], ◌∷◌, Text, Result, ok,
  err, unavailable, arith, any, Bool-cases, Option-cases, same_text,
}
use cc_tunnel.Sessions.{Session, Config, Docker, Manager, lookup, is_timer, disarm, stop}
use cc_tunnel.Sessions.Laws.{lookup-erase, lookup-erase_other}

any-disarm : (t : ℕ) (xs : List (ℕ × Text)) → any (is_timer t) (disarm t xs) ≡ false
any-disarm t [] = refl
any-disarm t ((u, c) ∷ xs) = ground (arith, any-disarm t xs)

-- The conversation after Stop.
abbrev pub StopOwn : Text → Manager → Result (Unit {0}) → Manager → Type 0
StopOwn c w (ok _) v = lookup c v.sessions ≡ none
StopOwn c w (err e) v =
    (s : Session) × (lookup c w.sessions ≡ some s)
    × (v.sessions ≡ w.sessions)
    × (any (is_timer s.idle_timer) v.armed ≡ false)

pub record Stopped (c : Text) (w : Manager) (p : Result (Unit {0}) × Manager) : Type 0 where
  pub own : StopOwn c w p.0 p.1
  pub others : (j : Text) → (same_text c j ≡ true) ⊎ (lookup j p.1.sessions ≡ lookup j w.sessions)

module _ (o : Docker) (cfg : Config) (c : Text) where
  -- A Stop without an error leaves no session of the conversation; one with an error leaves the
  -- map as it is, with a session whose idle timer is not armed any more; the sessions of other
  -- conversations are as before.
  pub stop-Stopped : (w : Manager) → Stopped c w (stop o cfg c w)
  unfolding stop
  stop-Stopped w = elim (Option-cases (lookup c w.sessions)) [
    | inl e ↦ rw e (record { own = e; others = λ j. inr refl })
    | inr (s, e) ↦ rw e (elim (Bool-cases (o.accepts w.calls)) [
      | inr n ↦ rw n (failing s e _ refl refl)
      | inl y ↦ rw y (elim (Bool-cases (o.accepts (w.calls + 1))) [
        | inr n ↦ rw n (failing s e _ refl refl)
        | inl z ↦ rw z (record {
          own = lookup-erase c w.sessions;
          others = λ j. elim (Bool-cases (same_text c j)) [
            | inl x ↦ inl x
            | inr x ↦ inr (lookup-erase_other c j w.sessions x)
          ];
        })
      ])
    ])
  ]
    where
      failing :
          (s : Session)
          → lookup c w.sessions ≡ some s
          → (v : Manager) → v.sessions ≡ w.sessions
          → v.armed ≡ disarm s.idle_timer w.armed
          → Stopped c w (err unavailable, v)
      failing s e v same armed = record {
        own = (s, e, same, rw armed (any-disarm s.idle_timer w.armed));
        others = λ j. inr (ap (lookup j) same);
      }
