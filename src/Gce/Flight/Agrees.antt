-- ===== src/Gce/Flight/Agrees.antt =====
-- What concurrent calls for one conversation come back with, and what they start.
use cc_tunnel.Common.{
  ℕ, ◌+◌, ◌≡◌, refl, sym, ap, ◌∙◌, true, Option, none, some, List, [], ◌∷◌, ◌==◌, Result, ok, err,
  Holds, Option-cases, Bool-cases, inl, inr, arith, find_first, if◌then◌else◌,
}
use cc_tunnel.Db.{SessionEndpoint, Db}
use cc_tunnel.Db.Endpoints.{is_running, of_conversation, get_session_endpoint_by_conversation_id}
use cc_tunnel.Db.Invariant.{exec}
use cc_tunnel.Gce.{Config, Outside, World}
use cc_tunnel.Gce.Endpoint.Found.{FoundIn, Finds-body}
use cc_tunnel.Gce.Endpoint.Kept.{Kept-new_endpoint}
use cc_tunnel.Gce.Endpoint.Reuse.{Kept-body}
use cc_tunnel.Gce.Flight.{
  Call, called, missed, returned, Flight, Event, looks, enters, writes, starting, set_call, body,
  look, share, enter, happen, run, all_spare,
}
use cc_tunnel.Gce.Flight.Serves.{SameRow, Serves, Serves-exec, is_start-spares}

-- Every endpoint that a call came back with is still the one that serves the conversation.
abbrev pub AllServed : ℕ → Flight → Type 0
AllServed c s =
    (i : ℕ) (ep : SessionEndpoint) → s.calls i ≡ returned (ok ep) → Serves c ep s.world.db

FoundIn-Serves :
    (c : ℕ) (row ep : SessionEndpoint) (d : Db)
    → FoundIn c row d
    → returned (ok row) ≡ returned (ok ep)
    → Serves c ep d
FoundIn-Serves c row ep d h e = record {
  row = row;
  found = h.0;
  running = h.1;
  same = record {
    id = ap (λ x. x.id) same;
    vm = ap (λ x. x.vm_instance_id) same;
    port = ap (λ x. x.port) same;
    name = ap (λ x. x.container_name) same;
  };
}
  where
    same : row ≡ ep
    same = cc

-- One call moves on to `x`, in the world `w`.
AllServed-set :
    (c i : ℕ) (x : Call) (s : Flight) (w : World)
    → AllServed c s
    → ((ep : SessionEndpoint) → Serves c ep s.world.db → Serves c ep w.db)
    → ((ep : SessionEndpoint) → x ≡ returned (ok ep) → Serves c ep w.db)
    → AllServed c (record { calls = set_call i x s.calls; world = w })
AllServed-set c i x s w all still new j ep h = elim (Bool-cases (j == i)) [
  | inl e ↦ new ep (ground (arith, e, h))
  | inr e ↦ still ep (all j ep (ground (arith, e, h)))
]

module _ (o : Outside) (cfg : Config) (c : ℕ) where
  -- The fast path changes nothing in the database, and returns what it found.
  AllServed-look :
      (i : ℕ) (x : Call) (s : Flight) → AllServed c s → AllServed c (look o cfg c i x s)
  unfolding look get_session_endpoint_by_conversation_id
  AllServed-look i missed s all = all
  AllServed-look i (returned r) s all = all
  AllServed-look i called s all = elim (Bool-cases (o.db_answers s.world.calls)) [
    | inr e ↦ rw e (AllServed-set c i missed s after all (λ ep h. h) (λ ep h. cc))
    | inl e ↦ rw e (elim (Option-cases (find_first (of_conversation c) s.world.db.endpoints)) [
      | inl n ↦ rw n (AllServed-set c i missed s after all (λ ep h. h) (λ ep h. cc))
      | inr (row, y) ↦ rw y (AllServed-set c i _ s after all (λ ep h. h) (new row y))
    ])
  ]
    where
      after : World
      after = record s.world { calls = s.world.calls + 1 }

      new :
          (row : SessionEndpoint)
          → find_first (of_conversation c) s.world.db.endpoints ≡ some row
          → (ep : SessionEndpoint)
          → (if is_running row.status then returned (ok row) else missed) ≡ returned (ok ep)
          → Serves c ep s.world.db
      new row y ep h = elim (Bool-cases (is_running row.status)) [
        | inl e ↦ FoundIn-Serves c row ep s.world.db (y, e) (ground (arith, h))
        | inr e ↦ ground (arith, h)
      ]

  AllServed-share :
      (i j : ℕ) (s : Flight) → AllServed c s → AllServed c (share o cfg c i (s.calls j) s)
  unfolding share
  AllServed-share i j s all = go (s.calls j) refl
    where
      go : (x : Call) → s.calls j ≡ x → AllServed c (share o cfg c i x s)
      go called e = all
      go missed e = all
      go (returned r) e =
          AllServed-set c i (returned r) s s.world all (λ ep h. h) (λ ep h. all j ep (e ∙ h))

  AllServed-enter :
      (i : ℕ) (with_call : Option ℕ) (x : Call) (s : Flight)
      → AllServed c s
      → AllServed c (enter o cfg c i with_call x s)
  unfolding enter
  AllServed-enter i k called s all = all
  AllServed-enter i k (returned r) s all = all
  AllServed-enter i (some j) missed s all = AllServed-share i j s all
  AllServed-enter i none missed s all =
      go (body o cfg c s.world) (Finds-body o cfg c s.world) (λ ep.
        Kept-body o cfg (Serves c ep)
          (Kept-new_endpoint o cfg (Serves c ep) (λ q h. Serves-exec c ep q (is_start-spares q h)))
          c s.world)
    where
      go :
          (p : Result SessionEndpoint × World)
          → Holds (λ ep w. FoundIn c ep w.db) p
          → ((ep : SessionEndpoint) → Serves c ep s.world.db → Serves c ep p.1.db)
          → AllServed c (record { calls = set_call i (returned p.0) s.calls; world = p.1 })
      go (err e, w) h still = AllServed-set c i (returned (err e)) s w all still (λ ep q. cc)
      go (ok found, w) h still =
          AllServed-set c i (returned (ok found)) s w all still
            (λ ep q. FoundIn-Serves c found ep w.db h q)

  module _ (shares : ℕ → Option ℕ) where
    pub AllServed-run :
        (es : List Event) (s : Flight)
        → all_spare es ≡ true
        → AllServed c s
        → AllServed c (run o cfg c shares es s)
    unfolding run happen
    AllServed-run [] s h all = all
    AllServed-run (looks i ∷ es) s h all =
        AllServed-run es (look o cfg c i (s.calls i) s) h (AllServed-look i (s.calls i) s all)
    AllServed-run (enters i ∷ es) s h all =
        AllServed-run es (enter o cfg c i (shares i) (s.calls i) s) h
          (AllServed-enter i (shares i) (s.calls i) s all)
    AllServed-run (writes q ∷ es) s h all =
        AllServed-run es (record s { world = record s.world { db = exec q s.world.db } })
          (ground arith) λ i ep e. Serves-exec c ep q (ground arith) s.world.db (all i ep e)

  Serves-agree : (a b : SessionEndpoint) (d : Db) → Serves c a d → Serves c b d → SameRow a b
  Serves-agree a b d p q = record {
    id = sym p.same.id ∙ ap (λ x. x.id) rows ∙ q.same.id;
    vm = sym p.same.vm ∙ ap (λ x. x.vm_instance_id) rows ∙ q.same.vm;
    port = sym p.same.port ∙ ap (λ x. x.port) rows ∙ q.same.port;
    name = sym p.same.name ∙ ap (λ x. x.container_name) rows ∙ q.same.name;
  }
    where
      row_of : {x y : SessionEndpoint} → some x ≡ some y → x ≡ y
      row_of h = cc

      rows : p.row ≡ q.row
      rows = row_of (sym p.found ∙ q.found)

  module _ (shares : ℕ → Option ℕ) where
    -- Calls of getOrCreateEndpoint for one conversation that run at the same time, with writes of
    -- other goroutines between their steps that delete no session endpoint and set no endpoint's
    -- status but to `running`, and with whatever is answered from outside: all that come back with an endpoint come back with the same row, VM, port and
    -- container name, and a lookup of the conversation still finds that row running.
    pub run-agrees :
        (es : List Event) (w : World)
        → all_spare es ≡ true
        → (i j : ℕ) (a b : SessionEndpoint)
        → (run o cfg c shares es (starting w)).calls i ≡ returned (ok a)
        → (run o cfg c shares es (starting w)).calls j ≡ returned (ok b)
        → SameRow a b × Serves c a (run o cfg c shares es (starting w)).world.db
    run-agrees es w h i j a b p q = (
      Serves-agree a b (run o cfg c shares es (starting w)).world.db (served i a p) (served j b q),
      served i a p,
    )
      where
        served : AllServed c (run o cfg c shares es (starting w))
        served = AllServed-run shares es (starting w) h (λ k ep e. cc)
