-- ===== src/Examples/Relogin.antt =====
-- A login in a container that is finalized, an agent's stream, and requests to reconcile.
use cc_tunnel.Common.{
  ℕ, suc, ◌≡◌, ◌⊎◌, refl, Bool, true, Option, none, some, List, [], ◌∷◌, map, Text, codes, ltb,
  ◌&&◌, if◌then◌else◌, arith,
}
use cc_tunnel.Stream.{StreamEvent}
use cc_tunnel.Login.{new_auth_manager}
use cc_tunnel.Remote.{Agent, post, written, handle_init, JsonStrings, handle_finalize_credentials}
use cc_tunnel.Remote.Client.{Streamed, init_body, finalize_credentials, execute}
use cc_tunnel.Remote.Client.Last.{decoded, SessionOf, execute-SessionOf}
use cc_tunnel.Server.{Server, Response, passed}
use cc_tunnel.Server.Send.{fetch_credential_or_respond}
use cc_tunnel.Server.Relogin.{post_relogin_finalize}
use cc_tunnel.Server.RoundTrip.{relogin-round_trip}
use cc_tunnel.Server.Admin.{
  IsAllowed, reconciled, new_reconcile_vms_handler, serve_http, serve_http-IsAllowed,
}
use cc_tunnel.Examples.Secrets.{keyring-IsAeads}
use cc_tunnel.Examples.Web.{guarded_server, encryptor, ann_user, known}

-- A byte that is not ASCII becomes a question mark.
abbrev to_ascii : ℕ → ℕ
to_ascii c = if ltb c 128 then c else 63

abbrev is_ascii : Text → Bool
is_ascii [] = true
is_ascii (c ∷ t) = ltb c 128 && is_ascii t

to_ascii-keeps : (t : Text) → is_ascii t ≡ true → map to_ascii t ≡ t
to_ascii-keeps [] h = refl
to_ascii-keeps (c ∷ t) h = ground (arith, to_ascii-keeps t)

abbrev ascii : JsonStrings
ascii = record { through = map to_ascii; is_utf8 = is_ascii; keeps = to_ascii-keeps }

abbrev storing_server : Server
storing_server = record guarded_server { storer = some encryptor }

abbrev agent : Agent
agent = record { manager = new_auth_manager; credentials_file = some (codes "{}") }

abbrev fresh_agent : Agent
fresh_agent = record { manager = new_auth_manager; credentials_file = none }

abbrev finalized : Response × Server
finalized =
    post_relogin_finalize
      (finalize_credentials (some (handle_finalize_credentials ascii post true true agent)))
      (some (codes "n")) true true 5 100 (codes "Bearer t") (some 7) storing_server

relogin-round_trip_example :
    (finalized.0.status ≡ 200)
    × ((fetched : Text) × (fetch_credential_or_respond true (codes "Bearer t") 7 finalized.1
          ≡ passed fetched)
        × ((handle_init post written (init_body ascii fetched) fresh_agent).1.credentials_file
            ≡ agent.credentials_file))
relogin-round_trip_example =
    relogin-round_trip storing_server encryptor (keyring-IsAeads 1) refl refl ascii
      (codes "Bearer t") ann_user agent fresh_agent (codes "n") true 5 100 6 7 123 (codes "}") known
      refl refl

abbrev stream : Streamed
stream = record {
  status = 200;
  lines = some (StreamEvent.result (codes "s1") 1 2) ∷ none ∷ some StreamEvent.other ∷ [];
  read_ok = true;
}

execute-SessionOf_example :
    ((execute (some stream)).events ≡ decoded stream.lines)
    × SessionOf (decoded stream.lines) [] (execute (some stream)).session_id
execute-SessionOf_example = execute-SessionOf stream refl

abbrev emails : List Text
emails = codes " scheduler@p " ∷ codes "" ∷ []

abbrev validate : Text → Text → Option Text
validate token audience = some (codes "scheduler@p")

abbrev count : ℕ → Bool × ℕ
count n = (true, suc n)

admin_test :
    serve_http validate
      (codes "aud")
      count
      (new_reconcile_vms_handler emails)
      post
      (codes "Bearer t")
      0
    ≡ (204, 1)
unfolding serve_http new_reconcile_vms_handler
admin_test = refl

abbrev answer : ℕ × ℕ
answer =
    serve_http validate (codes "aud") count (new_reconcile_vms_handler emails) post
      (codes "Bearer t") 0

serve_http-IsAllowed_example :
    ((answer.1 ≡ 0) × ((answer.0 ≡ 401) ⊎ (answer.0 ≡ 403) ⊎ (answer.0 ≡ 405)))
    ⊎ (IsAllowed validate (codes "aud") count emails post (codes "Bearer t")
        × (answer ≡ reconciled validate (codes "aud") count (count 0)))
serve_http-IsAllowed_example =
    serve_http-IsAllowed validate (codes "aud") count emails post (codes "Bearer t") 0
