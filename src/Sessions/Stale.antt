-- ===== src/Sessions/Stale.antt =====
-- The idle timer of a session whose container has died (session_manager.go).
use cc_tunnel.Common.{
  ℕ, zero, suc, ◌+◌, ◌<◌, ◌≤◌, ◌≡◌, ◌≢◌, refl, inl, inr, true, false, none, some, ◌∷◌, Text, Result,
  ok, err, timeout, Action, arith, any, is_empty, Bool-cases, Option-cases, same_text_refl, Holds,
}
use cc_tunnel.Sessions.{
  Session, Config, Docker, Manager, stop_container, remove, lookup, is_timer, undo, poll,
  wait_for_ready, register, inject, client_url, create_session, reuse, get_or_create, stop, fire,
}
use cc_tunnel.Sessions.Laws.{lookup-erase, Kept-get_or_create}

-- The conversation's session has an armed timer that was made at call `n` or later.
abbrev New : Text → ℕ → Text → Manager → Type 0
New c n url v =
    (s : Session) × (lookup c v.sessions ≡ some s)
    × (n ≤ s.idle_timer)
    × (any (is_timer s.idle_timer) v.armed ≡ true)

module _ (o : Docker) (cfg : Config) (c : Text) (n : ℕ) where
  New-register :
      (i url : Text) (w : Manager) → n ≤ w.calls → Holds (New c n) (register o cfg c i url w)
  unfolding register
  New-register i url w h = (made, rw (same_text_refl c) refl, h, ground arith)
    where
      made : Session
      made = record {
        container_id = i;
        client = url;
        last_used = o.now w.calls;
        idle_timer = w.calls;
      }

  calls-poll : (url : Text) (k : ℕ) (w : Manager) → n ≤ w.calls → n ≤ (poll o cfg url k w).1.calls
  unfolding poll
  calls-poll url zero w h = ground arith
  calls-poll url (suc k) w h = elim (Bool-cases (o.is_ready w.calls url)) [
    | inl e ↦ rw e (omega arith)
    | inr e ↦ rw e (calls-poll url k (record w { calls = w.calls + 1 }) (omega arith))
  ]

  New-inject :
      (credentials i url : Text) (w : Manager)
      → n ≤ w.calls
      → Holds (New c n) (inject o cfg credentials i url (register o cfg c i url) w)
  New-inject credentials i url w h = elim (Bool-cases (is_empty credentials)) [
    | inl e ↦ rw e (New-register i url w h)
    | inr e ↦ rw e (elim (Bool-cases (o.takes_credentials w.calls url)) [
      | inl y ↦ rw y (New-register i url _ (omega arith))
      | inr y ↦ rw y tt
    ])
  ]

  -- The rest of the creation behind the wait, by what the wait gives.
  New-after_wait :
      (credentials i url : Text) (p : Result (Unit {0}) × Manager)
      → n ≤ p.1.calls
      → Holds (New c n) (
          (elim p.0 as (λ _. Action Manager Text) [
            | ok _ ↦ inject o cfg credentials i url (register o cfg c i url)
            | err e ↦ undo o cfg i timeout
          ])
            p.1)
  New-after_wait credentials i url (ok a, v) h = New-inject credentials i url v h
  New-after_wait credentials i url (err e, v) h = tt

  New-create_session :
      (credentials : Text) (w : Manager)
      → n ≤ w.calls
      → Holds (New c n) (create_session o cfg c credentials w)
  unfolding create_session wait_for_ready
  New-create_session credentials w h = elim (Option-cases (o.created w.calls)) [
    | inl e ↦ rw e tt
    | inr (i, e) ↦ rw e (elim (Bool-cases (o.accepts (w.calls + 1))) [
      | inr x ↦ rw x tt
      | inl y ↦ rw y (
          New-after_wait credentials i (client_url o cfg c) _
            (calls-poll (client_url o cfg c) _ _ (omega arith)))
    ])
  ]

  New-get_or_create :
      (credentials : Text) (s : Session) (w : Manager)
      → lookup c w.sessions ≡ some s
      → o.is_alive w.calls s.container_id ≡ false
      → n ≤ w.calls
      → Holds (New c n) (get_or_create o cfg c credentials w)
  unfolding get_or_create reuse
  New-get_or_create credentials s w found dead h =
      rw (found, dead) (New-create_session credentials _ (omega arith))

module _ (o : Docker) (cfg : Config) (c : Text) where
  Holds-ok :
      (n : ℕ) (url : Text) (p : Result Text × Manager)
      → p.0 ≡ ok url
      → Holds (New c n) p
      → New c n url p.1
  Holds-ok n url (ok a, v) e h = h
  Holds-ok n url (err x, v) e h = cc

  fire-Removes :
      (t : ℕ) (s : Session) (v : Manager)
      → ((k : ℕ) → o.accepts k ≡ true)
      → lookup c v.sessions ≡ some s
      → ((fire o cfg t c v).1.sent ≡ remove s.container_id ∷ stop_container s.container_id ∷ v.sent)
        × (lookup c (fire o cfg t c v).1.sessions ≡ none)
  unfolding fire stop
  fire-Removes t s v all found =
      rw (found, all v.calls, all (v.calls + 1)) (refl, lookup-erase c v.sessions)

  -- When the conversation has a session whose container is dead and whose idle timer, made before,
  -- is armed, and GetOrCreate gives a client: the conversation has a new session with an armed timer
  -- of its own, and the dead session's timer is armed still; when that one fires, and docker accepts
  -- what it is asked, the container of the new session is stopped and removed, and the conversation
  -- has no session.
  pub get_or_create-stale_timer :
      (credentials url : Text) (s : Session) (w : Manager)
      → ((k : ℕ) → o.accepts k ≡ true)
      → lookup c w.sessions ≡ some s
      → s.idle_timer < w.calls
      → any (is_timer s.idle_timer) w.armed ≡ true
      → o.is_alive w.calls s.container_id ≡ false
      → (get_or_create o cfg c credentials w).0 ≡ ok url
      → (let v = (get_or_create o cfg c credentials w).1 in
          (new : Session) × (lookup c v.sessions ≡ some new)
          × (new.idle_timer ≢ s.idle_timer)
          × (any (is_timer new.idle_timer) v.armed ≡ true)
          × (any (is_timer s.idle_timer) v.armed ≡ true)
          × ((fire o cfg s.idle_timer c v).1.sent
              ≡ remove new.container_id ∷ stop_container new.container_id ∷ v.sent)
          × (lookup c (fire o cfg s.idle_timer c v).1.sessions ≡ none))
  get_or_create-stale_timer credentials url s w all found old armed dead made =
      let (new, here, later, its) =
        Holds-ok w.calls url (get_or_create o cfg c credentials w) made
          (New-get_or_create o cfg c w.calls credentials s w found dead (omega arith)) in
      let (sent, gone) =
        fire-Removes s.idle_timer new (get_or_create o cfg c credentials w).1 all here in
      (
        new,
        here,
        (λ e. absurd (omega arith)),
        its,
        (Kept-get_or_create o cfg c credentials w).timers s.idle_timer armed,
        sent,
        gone,
      )
