-- ===== src/Gce/Endpoint/Lookup.antt =====
-- What the lookup of getOrCreateEndpoint leads to when it finds a running endpoint.
use cc_tunnel.Common.{
  ℕ, ◌+◌, ◌≡◌, refl, ◌∙◌, true, some, ok, unless_ok-ok, pure, Action, find_first, if◌then◌else◌,
}
use cc_tunnel.Db.{SessionEndpoint}
use cc_tunnel.Db.Endpoints.{is_running, of_conversation, get_session_endpoint_by_conversation_id}
use cc_tunnel.Gce.{Config, Outside, World, query}
use cc_tunnel.Gce.Endpoint.{if_running}

module _ (o : Outside) (cfg : Config) (c : ℕ) where
  abbrev query_row : Action World SessionEndpoint
  query_row = query o (λ now id. get_session_endpoint_by_conversation_id c)

  abbrev pub after : World → World
  after w = record w { calls = w.calls + 1 }

  pub hit :
      (w : World) (row : SessionEndpoint)
      → o.db_answers w.calls ≡ true
      → find_first (of_conversation c) w.db.endpoints ≡ some row
      → query_row w ≡ (ok row, after w)
  unfolding get_session_endpoint_by_conversation_id
  hit w row e f = rw (e, f) refl

  module _ (otherwise : Action World SessionEndpoint) where
    pub if_running-hit :
        (w v : World) (row : SessionEndpoint)
        → query_row w ≡ (ok row, v)
        → is_running row.status ≡ true
        → if_running o cfg c otherwise w ≡ (ok row, v)
    unfolding if_running
    if_running-hit w v row h e =
        unless_ok-ok query_row otherwise (λ ep. if is_running ep.status then pure ep else otherwise)
          w v row h
        ∙ rw e refl
