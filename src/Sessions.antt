-- ===== src/Sessions.antt =====
-- apps/cc-tunnel/internal/docker/session_manager.go: one container per conversation, on the local
-- docker daemon. The mutex makes GetOrCreate and Stop single steps. The daemon and the agents
-- answer through `Docker`, a function of the number of calls made before.
pub mod Laws
pub mod Timers
pub mod Stale
pub mod Provider
use cc_tunnel.Common.{
  ℕ, zero, suc, ◌+◌, ◌==◌, Bool, true, false, not, ◌&&◌, Option, none, some, List, [], ◌∷◌, ◌++◌,
  map, Text, if◌then◌else◌, is_empty, take, codes, same_text, select, Result, ok, err, Error,
  unavailable, timeout, Action, pure, fail, attempt, ignoring, unless_ok, ◌>>=◌, ◌>>◌,
}

-- session; a client is its URL, a timer a number.
pub record Session : Type 0 where
  pub container_id : Text
  pub client : Text
  pub last_used : ℕ
  pub idle_timer : ℕ

pub record Config : Type 0 where
  pub container_port : Text

pub record Docker : Type 0 where
  pub is_alive : ℕ → Text → Bool  -- ContainerInspect succeeds and the state is "running"
  pub created : ℕ → Option Text  -- ContainerCreate, with the id
  pub accepts : ℕ → Bool  -- the other requests
  pub is_ready : ℕ → Text → Bool  -- GetAuthStatus of the agent at a URL
  pub takes_credentials : ℕ → Text → Bool  -- InitCredentials
  pub polls : ℕ → ℕ  -- how many polls fit before the deadline, after the first
  pub now : ℕ → ℕ
  pub listed : ℕ → Option (List (Text × Bool))  -- the session containers, and which are running

pub data Request : Type 0 where
  create start stop_container remove : Text → Request

-- The map of sessions by conversation, the timers that are armed, and the requests, the last first.
pub record Manager : Type 0 where
  pub sessions : List (Text × Session)
  pub armed : List (ℕ × Text)
  pub calls : ℕ
  pub sent : List Request

abbrev pub lookup : Text → List (Text × Session) → Option Session
lookup c [] = none
lookup c ((k, s) ∷ m) = if same_text k c then some s else lookup c m

-- `delete(m, c)`
abbrev pub erase : Text → List (Text × Session) → List (Text × Session)
erase c [] = []
erase c ((k, s) ∷ m) = let rest = erase c m in if same_text k c then rest else (k, s) ∷ rest

abbrev pub is_timer : ℕ → ℕ × Text → Bool
is_timer t (u, c) = u == t

abbrev pub disarm : ℕ → List (ℕ × Text) → List (ℕ × Text)
disarm t = select (λ x. not (is_timer t x))

-- The first eight bytes of the conversation's id.
abbrev pub container_name : Text → Text
container_name c = codes "cctunnel-session-" ++ take 8 c

module _ (o : Docker) (cfg : Config) where
  abbrev pub ask : {A : Type 0} → (ℕ → A) → Action Manager A
  ask f w = (ok (f w.calls), record w { calls = w.calls + 1 })

  abbrev pub send : Request → Action Manager (Unit {0})
  send r w = (
    if o.accepts w.calls then ok tt else err unavailable,
    record w { calls = w.calls + 1; sent = r ∷ w.sent },
  )

  abbrev pub send_create : Text → Action Manager Text
  send_create name w = (
    elim (o.created w.calls) [ none ↦ err unavailable | some i ↦ ok i ],
    record w { calls = w.calls + 1; sent = create name ∷ w.sent },
  )

  -- Stop and remove, whose errors are dropped, and then the error.
  abbrev pub undo : {A : Type 0} → Text → Error → Action Manager A
  undo i e = ignoring (send (stop_container i)) (ignoring (send (remove i)) (fail e))

  unfoldable pub poll : Text → ℕ → Action Manager (Unit {0})
  poll url zero = do ready ← ask (λ k. o.is_ready k url); if ready then pure tt else fail timeout
  poll url (suc n) = do
    ready ← ask (λ k. o.is_ready k url)
    elim ready [ true ↦ pure tt | false ↦ poll url n ]

  unfoldable pub wait_for_ready : Text → Action Manager (Unit {0})
  unfolding poll
  wait_for_ready url = do n ← ask o.polls; poll url n

  -- The new session with its armed timer.
  unfoldable pub register : Text → Text → Text → Action Manager Text
  register c i url w = (
    ok url,
    record w {
      sessions =
          (
            c,
            record {
              container_id = i;
              client = url;
              last_used = o.now w.calls;
              idle_timer = w.calls;
            },
          )
          ∷ erase c w.sessions;
      armed = (w.calls, c) ∷ w.armed;
      calls = w.calls + 1;
    },
  )

  abbrev pub inject : Text → Text → Text → Action Manager Text → Action Manager Text
  inject credentials i url next = if is_empty credentials then next else do
    taken ← ask (λ k. o.takes_credentials k url)
    if taken then next else undo i unavailable

  abbrev pub client_url : Text → Text
  client_url c = codes "http://" ++ (container_name c ++ (codes ":" ++ cfg.container_port))

  unfoldable pub create_session : Text → Text → Action Manager Text
  unfolding wait_for_ready register
  create_session c credentials = do
    i ← send_create (container_name c)
    send (start i)
    unless_ok (wait_for_ready (client_url c)) (undo i timeout)
        λ _. inject credentials i (client_url c) (register c i (client_url c))

  -- lastUsed, and the timer's Reset, which arms it again.
  unfoldable pub touch : Text → Session → Action Manager Text
  touch c s w = (
    ok s.client,
    record w {
      sessions = (c, record s { last_used = o.now w.calls }) ∷ erase c w.sessions;
      armed = (s.idle_timer, c) ∷ disarm s.idle_timer w.armed;
      calls = w.calls + 1;
    },
  )

  abbrev pub forget : Text → Action Manager (Unit {0})
  forget c w = (ok tt, record w { sessions = erase c w.sessions })

  unfoldable pub reuse : Text → Text → Session → Action Manager Text
  unfolding create_session touch
  reuse c credentials s = do
    alive ← ask (λ k. o.is_alive k s.container_id)
    if alive then touch c s else (forget c >> create_session c credentials)

  abbrev from_session : Text → Text → Option Session → Action Manager Text
  unfolding reuse
  from_session c credentials none = create_session c credentials
  from_session c credentials (some s) = reuse c credentials s

  unfoldable pub get_or_create : Text → Text → Action Manager Text
  unfolding from_session
  get_or_create c credentials w = from_session c credentials (lookup c w.sessions) w

  unfoldable pub get_client : Text → Manager → Option Text
  get_client c w = elim (lookup c w.sessions) [ none ↦ none | some s ↦ some s.client ]

  abbrev pub stop_timer : ℕ → Action Manager (Unit {0})
  stop_timer t w = (ok tt, record w { armed = disarm t w.armed })

  abbrev stop_session : Text → Option Session → Action Manager (Unit {0})
  stop_session c none = pure tt
  stop_session c (some s) = do
    stop_timer s.idle_timer
    send (stop_container s.container_id)
    send (remove s.container_id)
    forget c

  unfoldable pub stop : Text → Action Manager (Unit {0})
  stop c w = stop_session c (lookup c w.sessions) w

  -- An armed timer fires.
  unfoldable pub fire : ℕ → Text → Action Manager (Unit {0})
  unfolding stop
  fire t c w = ignoring (stop_timer t) (ignoring (stop c) (pure tt)) w

  abbrev pub or_last : Result (Unit {0}) → Result (Unit {0}) → Result (Unit {0})
  or_last (ok _) last = last
  or_last (err e) last = err e

  -- The loop of StopAll, with the last error; Go gives the keys of a map in any order.
  unfoldable pub stop_each : List Text → Result (Unit {0}) → Action Manager (Unit {0})
  unfolding stop
  stop_each [] last w = (last, w)
  stop_each (c ∷ cs) last w = let (r, v) = stop c w in stop_each cs (or_last r last) v

  unfoldable pub stop_all : Action Manager (Unit {0})
  unfolding stop_each
  stop_all w = stop_each (map (λ (e : Text × Session). e.0) w.sessions) (ok tt) w

  unfoldable pub remove_stopped : List (Text × Bool) → Action Manager (Unit {0})
  remove_stopped [] = pure tt
  remove_stopped ((i, is_running) ∷ cs) =
      if is_running then remove_stopped cs else ignoring (send (remove i)) (remove_stopped cs)

  unfoldable pub cleanup_orphans : Action Manager (Unit {0})
  unfolding remove_stopped
  cleanup_orphans = do
    found ← ask o.listed
    elim found [ none ↦ fail unavailable | some cs ↦ remove_stopped cs ]
