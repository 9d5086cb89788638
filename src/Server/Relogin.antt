-- ===== src/Server/Relogin.antt =====
-- apps/cc-tunnel/internal/api/credentials_handler.go.
-- A body is the conversation's id, none where decoding fails and 0 for the zero UUID. What the
-- execution provider answers is an input.
use cc_tunnel.Common.{ℕ, zero, suc, Bool, true, false, Option, none, some, Text, codes}
use cc_tunnel.Db.Endpoints.{update_session_endpoint_last_activity}
use cc_tunnel.Vault.{Fault, Answer, done, failed, Encryptor}
use cc_tunnel.Vault.Service.{fetch_and_decrypt, store_credential}
use cc_tunnel.Remote.Client.{Pulled, pulled, not_ready}
use cc_tunnel.Server.{
  User, message, vault_error, credentials_status, ready, external_error, Response, respond,
  write_error, Server, lookup, bearer_token, Checked, passed, rejected, require_app_auth_if_enabled,
}

abbrev status_of : Answer Text → Response
status_of (done json) = respond 200 (credentials_status true true)
status_of (failed Fault.not_found) = respond 200 (credentials_status false false)
status_of (failed Fault.credentials_invalid) = respond 200 (credentials_status true false)
status_of (failed f) = respond 500 (vault_error f)

abbrev status_for : Encryptor → Bool → Server → Checked User → Response
status_for e answers h (rejected r) = r
status_for e answers h (passed u) = status_of (fetch_and_decrypt e answers u.name h.credentials)

abbrev status_if : Option Encryptor → Bool → Text → Server → Response
status_if none answers authorization h = respond 200 (credentials_status true true)
status_if (some e) answers authorization h =
    status_for e answers h (require_app_auth_if_enabled h authorization)

unfoldable pub get_credentials_status : Bool → Text → Server → Response
unfolding require_app_auth_if_enabled fetch_and_decrypt
get_credentials_status answers authorization h = status_if h.service answers authorization h

-- The deferred UpdateSessionEndpointLastActivity; its error is only logged.
abbrev pub touched : Bool → ℕ → ℕ → Server → Server
touched false now i h = h
touched true now i h = record h {
  tables = record h.tables { db = (update_session_endpoint_last_activity now i h.tables.db).1 };
}

abbrev pub unauthorized : Response
unauthorized = write_error 401 (codes "unauthorized")

-- The checks that both handlers begin with.
abbrev checked_body : User → Option ℕ → Checked (User × ℕ)
checked_body u none = rejected (write_error 400 (codes "invalid body"))
checked_body u (some zero) = rejected (write_error 400 (codes "conversationId is required"))
checked_body u (some (suc i)) = passed (u, suc i)

abbrev checked_user : Option User → Option ℕ → Checked (User × ℕ)
checked_user none body = rejected unauthorized
checked_user (some u) body = checked_body u body

abbrev pub checked_request : Option Text → Option ℕ → Server → Checked (User × ℕ)
checked_request none body h = rejected unauthorized
checked_request (some token) body h = checked_user (lookup token h.sessions) body

-- `answers` says whether the database answers the update, `prepares` whether PrepareForRelogin
-- gives no error.
abbrev start_for : Bool → ℕ → Bool → Checked (User × ℕ) → Server → Response × Server
start_for answers now prepares (rejected r) h = (r, h)
start_for answers now true (passed (u, i)) h = (respond 200 ready, touched answers now i h)
start_for answers now false (passed (u, i)) h = (respond 500 external_error, h)

unfoldable pub post_relogin_start : Bool → ℕ → Bool → Text → Option ℕ → Server → Response × Server
unfolding bearer_token update_session_endpoint_last_activity
post_relogin_start answers now prepares authorization body h =
    start_for answers now prepares (checked_request (bearer_token authorization) body h) h

abbrev stored_response : Answer (Unit {0}) → Response
stored_response (done tt) = respond 200 (credentials_status true true)
stored_response (failed f) = respond 500 (vault_error f)

abbrev store_with :
    Option Encryptor → Option Text → Bool → ℕ → ℕ → Text → Text → Server → Response × Server
store_with none random answers new_id now name json h =
    (write_error 500 (codes "credential storage not configured"), h)
store_with (some e) random answers new_id now name json h =
    let (a, rows) = store_credential e random answers new_id now name json h.credentials in
    (stored_response a, record h { credentials = rows })

-- `pull` is the result of PullCredentialsFromSession.
abbrev pub finalize_pulled : Pulled → Option Text → Bool → ℕ → ℕ → User → Server → Response × Server
finalize_pulled not_ready random answers new_id now u h =
    (respond 400 (message (codes "credentials not ready, complete /auth/login first")), h)
finalize_pulled Pulled.failed random answers new_id now u h = (respond 502 external_error, h)
finalize_pulled (pulled json) random answers new_id now u h =
    store_with h.storer random answers new_id now u.name json h

-- `answers` is for the credentials, `touches` for the update.
abbrev pub finalize_for :
    Pulled → Option Text → Bool → Bool → ℕ → ℕ → Checked (User × ℕ) → Server → Response × Server
finalize_for pull random answers touches new_id now (rejected r) h = (r, h)
finalize_for pull random answers touches new_id now (passed (u, i)) h =
    let (r, h') = finalize_pulled pull random answers new_id now u h in
    (r, touched touches now i h')

unfoldable pub post_relogin_finalize :
    Pulled → Option Text → Bool → Bool → ℕ → ℕ → Text → Option ℕ → Server → Response × Server
unfolding bearer_token store_credential update_session_endpoint_last_activity
post_relogin_finalize pull random answers touches new_id now authorization body h =
    finalize_for pull random answers touches new_id now
      (checked_request (bearer_token authorization) body h) h
