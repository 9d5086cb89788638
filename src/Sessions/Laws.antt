-- ===== src/Sessions/Laws.antt =====
-- What GetOrCreate and Stop do to the map of sessions.
use cc_tunnel.Common.{
  ℕ, zero, suc, ◌+◌, ◌≡◌, refl, ap, ◌∙◌, ◌⊎◌, inl, inr, true, false, none, some, List, [], ◌∷◌,
  Text, Result, ok, err, Error, unavailable, timeout, Action, arith, any, is_empty, Bool-cases,
  Option-cases, same_text, same_text_refl, same_text-≡, if◌then◌else◌, ◌==◌, not, any-select_kept,
}
use cc_tunnel.Sessions.{
  Session, Config, Docker, Manager, lookup, erase, is_timer, disarm, undo, poll, wait_for_ready,
  register, inject, client_url, create_session, touch, reuse, get_or_create,
}

pub lookup-erase : (c : Text) (m : List (Text × Session)) → lookup c (erase c m) ≡ none
lookup-erase c [] = refl
lookup-erase c ((k, s) ∷ m) = ground (arith, lookup-erase c m)

pub lookup-erase_other :
    (c j : Text) (m : List (Text × Session))
    → same_text c j ≡ false
    → lookup j (erase c m) ≡ lookup j m
lookup-erase_other c j [] h = refl
lookup-erase_other c j ((k, s) ∷ m) h = elim (Bool-cases (same_text k c)) [
  | inl e ↦ rw (e, same_text-≡ k c e, h) (lookup-erase_other c j m h)
  | inr e ↦ rw e (ap (λ r. if same_text k j then some s else r) (lookup-erase_other c j m h))
]

-- The session of the conversation after a call with this result.
abbrev pub Own : Text → Result Text → Manager → Type 0
Own c (ok url) w =
    (s : Session) × (lookup c w.sessions ≡ some s)
    × (s.client ≡ url)
    × (any (is_timer s.idle_timer) w.armed ≡ true)
Own c (err e) w = lookup c w.sessions ≡ none

-- The timers that were armed are.
abbrev pub Grows : Manager → Manager → Type 0
Grows w v = (t : ℕ) → any (is_timer t) w.armed ≡ true → any (is_timer t) v.armed ≡ true

abbrev SameMaps : Manager → Manager → Type 0
SameMaps w v = (v.sessions ≡ w.sessions) × (v.armed ≡ w.armed)

any-rearmed :
    (u t : ℕ) (c : Text) (xs : List (ℕ × Text))
    → any (is_timer u) xs ≡ true
    → any (is_timer u) ((t, c) ∷ disarm t xs) ≡ true
any-rearmed u t c xs h = elim (Bool-cases (t == u)) [
  | inl e ↦ rw e refl
  | inr e ↦
      rw e (any-select_kept (is_timer u) (λ x. not (is_timer t x)) (λ a k. ground arith) xs ∙ h)
]

pub record Kept (c : Text) (w : Manager) (p : Result Text × Manager) : Type 0 where
  pub own : Own c p.0 p.1
  pub others : (j : Text) → same_text c j ≡ false → lookup j p.1.sessions ≡ lookup j w.sessions
  pub timers : Grows w p.1

pub record Gives (c : Text) (w : Manager) (p : Result Text × Manager) : Type 0 where
  pub own : Own c p.0 p.1
  pub others : (j : Text) → (same_text c j ≡ true) ⊎ (lookup j p.1.sessions ≡ lookup j w.sessions)
  pub timers : (t : ℕ) → (any (is_timer t) w.armed ≡ false) ⊎ (any (is_timer t) p.1.armed ≡ true)

module _ (o : Docker) (cfg : Config) (c : Text) where
  Kept-put :
      (s : Session) (w v : Manager)
      → v.sessions ≡ (c, s) ∷ erase c w.sessions
      → any (is_timer s.idle_timer) v.armed ≡ true
      → Grows w v
      → Kept c w (ok s.client, v)
  Kept-put s w v e t g = record {
    timers = g;
    own = (s, rw (e, same_text_refl c) refl, refl, t);
    others = λ j h. rw (e, h) (lookup-erase_other c j w.sessions h);
  }

  Kept-none :
      (w : Manager) (p : Result Text × Manager) → Own c p.0 p.1 → SameMaps w p.1 → Kept c w p
  Kept-none w p own e = record { own = own; others = λ j h. rw e.0 refl; timers = λ t h. rw e.1 h }

  Kept-register :
      (i url : Text) (w v : Manager) → SameMaps w v → Kept c w (register o cfg c i url v)
  unfolding register
  Kept-register i url w v e =
      Kept-put
        (record { container_id = i; client = url; last_used = o.now v.calls; idle_timer = v.calls })
        w _
        (ap
          (λ m.
            (
              c,
              record {
                container_id = i;
                client = url;
                last_used = o.now v.calls;
                idle_timer = v.calls;
              },
            )
            ∷ erase c m)
          e.0)
        (ground arith) (λ t h. rw e.1 (ground arith))

  Kept-err :
      (e : Error) (w v : Manager) → lookup c w.sessions ≡ none → SameMaps w v → Kept c w (err e, v)
  Kept-err e w v h same = Kept-none w (err e, v) (ap (lookup c) same.0 ∙ h) same

  SameMaps-poll : (url : Text) (n : ℕ) (w : Manager) → SameMaps w (poll o cfg url n w).1
  unfolding poll
  SameMaps-poll url zero w = ground arith
  SameMaps-poll url (suc n) w = elim (Bool-cases (o.is_ready w.calls url)) [
    | inl e ↦ rw e (refl, refl)
    | inr e ↦ rw e (SameMaps-poll url n (record w { calls = w.calls + 1 }))
  ]

  Kept-inject :
      (credentials i url : Text) (w v : Manager)
      → lookup c w.sessions ≡ none
      → SameMaps w v
      → Kept c w (inject o cfg credentials i url (register o cfg c i url) v)
  Kept-inject credentials i url w v h same = elim (Bool-cases (is_empty credentials)) [
    | inl e ↦ rw e (Kept-register i url w v same)
    | inr e ↦ rw e (elim (Bool-cases (o.takes_credentials v.calls url)) [
      | inl y ↦ rw y (Kept-register i url w _ same)
      | inr y ↦ rw y (Kept-err unavailable w _ h same)
    ])
  ]

  -- The rest of the creation behind the wait, by what the wait gives.
  Kept-after_wait :
      (credentials i url : Text) (w : Manager) (p : Result (Unit {0}) × Manager)
      → lookup c w.sessions ≡ none
      → SameMaps w p.1
      → Kept c w (
          (elim p.0 as (λ _. Action Manager Text) [
            | ok _ ↦ inject o cfg credentials i url (register o cfg c i url)
            | err e ↦ undo o cfg i timeout
          ])
            p.1)
  Kept-after_wait credentials i url w (ok a, v) h same = Kept-inject credentials i url w v h same
  Kept-after_wait credentials i url w (err e, v) h same = Kept-err timeout w _ h same

  Kept-create_session :
      (credentials : Text) (w : Manager)
      → lookup c w.sessions ≡ none
      → Kept c w (create_session o cfg c credentials w)
  unfolding create_session wait_for_ready
  Kept-create_session credentials w h = elim (Option-cases (o.created w.calls)) [
    | inl e ↦ rw e (Kept-err unavailable w _ h (refl, refl))
    | inr (i, e) ↦ rw e (elim (Bool-cases (o.accepts (w.calls + 1))) [
      | inr n ↦ rw n (Kept-err unavailable w _ h (refl, refl))
      | inl y ↦ rw y (
          Kept-after_wait credentials i (client_url o cfg c) w _ h
            (SameMaps-poll (client_url o cfg c) _ _))
    ])
  ]

  Kept-from :
      (w v : Manager) (p : Result Text × Manager)
      → v.sessions ≡ erase c w.sessions
      → v.armed ≡ w.armed
      → Kept c v p
      → Kept c w p
  Kept-from w v p e a k = record {
    own = k.own;
    timers = λ t h. k.timers t (rw a h);
    others = λ j h. k.others j h ∙ ap (lookup j) e ∙ lookup-erase_other c j w.sessions h;
  }

  Kept-reuse :
      (credentials : Text) (s : Session) (w : Manager) → Kept c w (reuse o cfg c credentials s w)
  unfolding reuse touch
  Kept-reuse credentials s w = elim (Bool-cases (o.is_alive w.calls s.container_id)) [
    | inl e ↦ rw e (
        Kept-put (record s { last_used = o.now (w.calls + 1) }) w _ refl (ground arith)
          (λ t h. any-rearmed t s.idle_timer c w.armed h))
    | inr e ↦
        rw e (
          Kept-from w _ _ refl refl (Kept-create_session credentials _ (lookup-erase c w.sessions)))
  ]

  pub Kept-get_or_create :
      (credentials : Text) (w : Manager) → Kept c w (get_or_create o cfg c credentials w)
  unfolding get_or_create
  Kept-get_or_create credentials w = elim (Option-cases (lookup c w.sessions)) [
    | inl e ↦ rw e (Kept-create_session credentials w e)
    | inr (s, e) ↦ rw e (Kept-reuse credentials s w)
  ]

  -- When GetOrCreate gives a client, the conversation has a session with that client, and its
  -- idle timer is armed; when it gives an error, the conversation has no session; the sessions of
  -- all other conversations are as before, and no armed timer is stopped.
  pub get_or_create-Gives :
      (credentials : Text) (w : Manager) → Gives c w (get_or_create o cfg c credentials w)
  get_or_create-Gives credentials w =
      let kept = Kept-get_or_create credentials w in
      record {
        own = kept.own;
        others = λ j. elim (Bool-cases (same_text c j)) [
          | inl e ↦ inl e
          | inr e ↦ inr (kept.others j e)
        ];
        timers = λ t. elim (Bool-cases (any (is_timer t) w.armed)) [
          | inl e ↦ inr (kept.timers t e)
          | inr e ↦ inl e
        ];
      }
