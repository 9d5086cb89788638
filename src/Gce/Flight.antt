-- ===== src/Gce/Flight.antt =====
-- Concurrent calls of getOrCreateEndpoint for one conversation (provider.go), and what other
-- goroutines write between them. Of golang.org/x/sync/singleflight the model takes what it promises:
-- a call of Do for a key either runs its function while no other call for the key does, or gets the
-- results of a call that ran it.
pub mod Serves
pub mod Agrees
pub mod Once
use cc_tunnel.Common.{
  ℕ, ◌==◌, ◌&&◌, Bool, true, false, Option, none, some, List, [], ◌∷◌, Result, ok, err, Action,
  if◌then◌else◌,
}
use cc_tunnel.Db.{SessionEndpoint, Db}
use cc_tunnel.Db.Endpoints.{is_running, get_session_endpoint_by_conversation_id}
use cc_tunnel.Db.Invariant.{Statement, set_endpoint_status, delete_endpoint, exec}
use cc_tunnel.Gce.{Config, Outside, World, query}
use cc_tunnel.Gce.Endpoint.{if_running, new_endpoint}

-- Where a call is: before its first lookup, in front of Do, or back at its caller.
pub data Call : Type 0 where
  called : Call
  missed : Call
  returned : Result SessionEndpoint → Call

pub record Flight : Type 0 where
  pub calls : ℕ → Call
  pub world : World

-- What the scheduler lets happen next; `writes` is a statement of another goroutine.
pub data Event : Type 0 where
  looks : ℕ → Event
  enters : ℕ → Event
  writes : Statement → Event

abbrev pub starting : World → Flight
starting w = record { calls = λ i. called; world = w }

abbrev pub set_call : ℕ → Call → (ℕ → Call) → ℕ → Call
set_call i x f j = if j == i then x else f j

-- The fast path returns a running endpoint, and goes on otherwise.
abbrev pub looked : Result SessionEndpoint → Call
looked (ok ep) = if is_running ep.status then returned (ok ep) else missed
looked (err e) = missed

module _ (o : Outside) (cfg : Config) (c : ℕ) where
  abbrev pub lookup : Action World SessionEndpoint
  lookup = query o (λ now id. get_session_endpoint_by_conversation_id c)

  -- The function that singleflight is given.
  abbrev pub body : Action World SessionEndpoint
  body = if_running o cfg c (new_endpoint o cfg c)

  unfoldable pub look : ℕ → Call → Flight → Flight
  unfolding get_session_endpoint_by_conversation_id
  look i called s =
      let (r, w) = lookup s.world in record { calls = set_call i (looked r) s.calls; world = w }
  look i missed s = s
  look i (returned r) s = s

  -- A call that shares waits until the other one is back.
  unfoldable pub share : ℕ → Call → Flight → Flight
  share i called s = s
  share i missed s = s
  share i (returned r) s = record s { calls = set_call i (returned r) s.calls }

  -- `with_call` is what singleflight decided: run the function, or take a call's results.
  unfoldable pub enter : ℕ → Option ℕ → Call → Flight → Flight
  unfolding if_running share
  enter i with_call called s = s
  enter i with_call (returned r) s = s
  enter i none missed s =
      let (r, w) = body s.world in record { calls = set_call i (returned r) s.calls; world = w }
  enter i (some j) missed s = share i (s.calls j) s

  module _ (shares : ℕ → Option ℕ) where
    unfoldable pub happen : Event → Flight → Flight
    unfolding look enter exec
    happen (looks i) s = look i (s.calls i) s
    happen (enters i) s = enter i (shares i) (s.calls i) s
    happen (writes q) s = record s { world = record s.world { db = exec q s.world.db } }

    unfoldable pub run : List Event → Flight → Flight
    unfolding happen
    run [] s = s
    run (e ∷ es) s = run es (happen e s)

-- A write that takes no endpoint out of service: not the deletion of a session endpoint, and no
-- endpoint status but `running`.
abbrev pub spares : Statement → Bool
spares (set_endpoint_status i t) = is_running t
spares (delete_endpoint i) = false
spares _ = true

-- Every write of another goroutine is of that kind.
abbrev pub all_spare : List Event → Bool
all_spare [] = true
all_spare (writes q ∷ es) = spares q && all_spare es
all_spare (looks i ∷ es) = all_spare es
all_spare (enters i ∷ es) = all_spare es
