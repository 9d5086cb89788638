-- ===== src/Server/Accounts.antt =====
-- apps/cc-tunnel/internal/api/app_auth_handler.go.
use Prim.Native.Nat.{◌/◌, ◌%◌}
use cc_tunnel.Common.{ℕ, ◌+◌, Option, none, some, [], ◌∷◌, Text, codes, if◌then◌else◌, ltb}
use cc_tunnel.Server.{
  User, me, logged_in, nothing, auth_error, Response, respond, write_error, Server, lookup,
  delete_session, set_session, bearer_token,
}

abbrev hex_digit : ℕ → ℕ
hex_digit n = if ltb n 10 then 48 + n else 87 + n

-- hex.EncodeToString
abbrev hex : Text → Text
hex [] = []
hex (b ∷ bs) = hex_digit (b / 16) ∷ hex_digit (b % 16) ∷ hex bs

abbrev invalid_body : Response
invalid_body = write_error 400 (codes "invalid request body")

-- `random` is what rand.Read gives, none when it fails.
unfoldable pub app_auth_login : Option Text → Option Text → ℕ → Server → Response × Server
app_auth_login none random new_id h = (invalid_body, h)
app_auth_login (some []) random new_id h = (write_error 400 (codes "username is required"), h)
app_auth_login (some (c ∷ username)) none new_id h =
    (write_error 500 (codes "failed to generate token"), h)
app_auth_login (some (c ∷ username)) (some bytes) new_id h =
    let user : User = record { id = new_id; name = c ∷ username } in
    (
      respond 200 (logged_in (hex bytes) user),
      record h { sessions = set_session (hex bytes) user h.sessions },
    )

abbrev unauthorized : Server → Response × Server
unauthorized h = (respond 401 auth_error, h)

abbrev logout_of : Option Text → Server → Response × Server
logout_of none h = unauthorized h
logout_of (some token) h =
    (respond 204 nothing, record h { sessions = delete_session token h.sessions })

unfoldable pub app_auth_logout : Text → Server → Response × Server
unfolding bearer_token
app_auth_logout authorization = logout_of (bearer_token authorization)

-- The handlers that need a known token.
abbrev pub with_user :
    Option Text → (Text → User → Server → Response × Server) → Server → Response × Server
with_user none f h = unauthorized h
with_user (some token) f h = elim (lookup token h.sessions) [
  | none ↦ unauthorized h
  | some u ↦ f token u h
]

unfoldable pub app_auth_get_me : Text → Server → Response × Server
unfolding bearer_token
app_auth_get_me authorization =
    with_user (bearer_token authorization) (λ token u h. (respond 200 (me u), h))

abbrev pub renamed : Option Text → Text → User → Server → Response × Server
renamed none token u h = (invalid_body, h)
renamed (some nickname) token u h =
    let v : User = record u { name = nickname } in
    (respond 200 (me v), record h { sessions = set_session token v h.sessions })

-- The body is the nickname.
unfoldable pub app_auth_update_me : Text → Option Text → Server → Response × Server
unfolding bearer_token
app_auth_update_me authorization body = with_user (bearer_token authorization) (renamed body)
