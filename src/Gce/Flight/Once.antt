-- ===== src/Gce/Flight/Once.antt =====
-- A conversation with a running endpoint starts no second one.
use cc_tunnel.Common.{
  ℕ, ◌≡◌, refl, ◌∙◌, true, Option, none, some, List, [], ◌∷◌, ok, Bool-cases, inl, inr, arith,
}
use cc_tunnel.Db.{SessionEndpoint}
use cc_tunnel.Db.Endpoints.{get_session_endpoint_by_conversation_id}
use cc_tunnel.Db.Invariant.{exec}
use cc_tunnel.Gce.{Config, Outside, World}
use cc_tunnel.Gce.Endpoint.{if_running, new_endpoint}
use cc_tunnel.Gce.Flight.{
  Call, called, missed, returned, Flight, Event, looks, enters, writes, starting, body, look, share,
  enter, happen, run, all_spare,
}
use cc_tunnel.Gce.Flight.Serves.{Serves, Serves-exec}
use cc_tunnel.Gce.Flight.Agrees.{AllServed-run}
use cc_tunnel.Gce.Endpoint.Lookup.{after, hit, if_running-hit}

module _ (o : Outside) (cfg : Config) (c : ℕ) where
  -- The database, and what was sent, are the same.
  abbrev Same : World → World → Type 0
  Same v w = (v.db ≡ w.db) × (v.sent ≡ w.sent)

  Same-look : (i : ℕ) (x : Call) (s : Flight) → Same (look o cfg c i x s).world s.world
  unfolding look get_session_endpoint_by_conversation_id
  Same-look i missed s = (refl, refl)
  Same-look i (returned r) s = (refl, refl)
  Same-look i called s = elim (Bool-cases (o.db_answers s.world.calls)) [
    | inl e ↦ rw e (refl, refl)
    | inr e ↦ rw e (refl, refl)
  ]

  Same-share : (i : ℕ) (x : Call) (s : Flight) → Same (share o cfg c i x s).world s.world
  unfolding share
  Same-share i called s = (refl, refl)
  Same-share i missed s = (refl, refl)
  Same-share i (returned r) s = (refl, refl)

  module _ (answers : (n : ℕ) → o.db_answers n ≡ true) where
    Same-body : (ep : SessionEndpoint) (w : World) → Serves c ep w.db → Same (body o cfg c w).1 w
    unfolding if_running get_session_endpoint_by_conversation_id
    Same-body ep w s =
        rw
          (if_running-hit o cfg c (new_endpoint o cfg c) w (after o cfg c w) s.row
            (hit o cfg c w s.row (answers w.calls) s.found) s.running)
          (refl, refl)

    Same-enter :
        (ep : SessionEndpoint) (i : ℕ) (with_call : Option ℕ) (x : Call) (s : Flight)
        → Serves c ep s.world.db
        → Same (enter o cfg c i with_call x s).world s.world
    unfolding enter
    Same-enter ep i k called s h = (refl, refl)
    Same-enter ep i k (returned r) s h = (refl, refl)
    Same-enter ep i (some j) missed s h = Same-share i (s.calls j) s
    Same-enter ep i none missed s h = Same-body ep s.world h

    Serves-Same :
        (ep : SessionEndpoint) (v w : World) → Same v w → Serves c ep w.db → Serves c ep v.db
    Serves-Same ep v w h s = rw (h.0) s

    module _ (shares : ℕ → Option ℕ) where
      sent-run :
          (ep : SessionEndpoint) (es : List Event) (s : Flight)
          → all_spare es ≡ true
          → Serves c ep s.world.db
          → (run o cfg c shares es s).world.sent ≡ s.world.sent
      unfolding run happen
      sent-run ep [] s h f = refl
      sent-run ep (looks i ∷ es) s h f =
          sent-run ep es (look o cfg c i (s.calls i) s) h
            (Serves-Same ep (look o cfg c i (s.calls i) s).world s.world same f)
          ∙ same.1
        where
          same : Same (look o cfg c i (s.calls i) s).world s.world
          same = Same-look i (s.calls i) s
      sent-run ep (enters i ∷ es) s h f =
          sent-run ep es (enter o cfg c i (shares i) (s.calls i) s) h
            (Serves-Same ep (enter o cfg c i (shares i) (s.calls i) s).world s.world same f)
          ∙ same.1
        where
          same : Same (enter o cfg c i (shares i) (s.calls i) s).world s.world
          same = Same-enter ep i (shares i) (s.calls i) s f
      sent-run ep (writes q ∷ es) s h f =
          sent-run ep es (record s { world = record s.world { db = exec q s.world.db } })
            (ground arith) (Serves-exec c ep q (ground arith) s.world.db f)

      -- Once one of the calls for a conversation has come back with an endpoint, and while the
      -- database answers, nothing that any of them does later creates a VM or starts, stops or
      -- removes a container, whatever order they go on in and whichever of them singleflight lets
      -- run, with writes of other goroutines in between that delete no session endpoint and set no
      -- endpoint's status but to `running`.
      pub run-once :
          (es later : List Event) (w : World)
          → all_spare es ≡ true
          → all_spare later ≡ true
          → (i : ℕ) (ep : SessionEndpoint)
          → (run o cfg c shares es (starting w)).calls i ≡ returned (ok ep)
          → (run o cfg c shares later (run o cfg c shares es (starting w))).world.sent
            ≡ (run o cfg c shares es (starting w)).world.sent
      run-once es later w h k i ep e =
          sent-run ep later (run o cfg c shares es (starting w)) k
            (AllServed-run o cfg c shares es (starting w) h (λ j x q. cc) i ep e)
