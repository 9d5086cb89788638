-- ===== src/Server/Gate.antt =====
-- Who is served: the checks in front of the handlers of conversations and messages.
use cc_tunnel.Common.{ℕ, ◌≡◌, refl, Bool, Option, none, some, List, [], ◌∷◌, Text, same_text_refl}
use mathlib.Core.Option.{none-ne-some}
use cc_tunnel.Vault.{Encryptor}
use cc_tunnel.Vault.Service.{fetch_and_decrypt}
use cc_tunnel.Server.{
  User, Response, Server, lookup, bearer_token, rejected, user_of_token,
  require_app_auth_if_enabled, Answers,
}
use cc_tunnel.Server.Accounts.{app_auth_update_me, with_user, renamed}
use cc_tunnel.Server.Conversations.{
  CreateConversationRequest, handle_create_conversation, handle_list_conversations,
  handle_get_conversation, handle_delete_conversation,
}
use cc_tunnel.Server.Send.{
  fetch_response, fetch_if, fetch_credential_or_respond, send_message, Sent,
}

-- The user whose token the header carries.
abbrev pub user_behind : Option Text → List (Text × User) → Option User
user_behind none sessions = none
user_behind (some token) sessions = lookup token sessions

-- A request to the conversations or messages, with the ids and times that it would use.
pub data Call : Type 0 where
  create : (new_id now : ℕ) → Option CreateConversationRequest → Call
  list : Call
  get delete : (conversation_id : ℕ) → Call
  send : (user_id user_now reply_id reply_now conversation_id : ℕ) (content : Option Text) → Call

-- A handler that starts no execution.
abbrev no_job : Response × Server → Sent
no_job (r, h) = (r, none, h)

unfoldable pub serve : (ℕ → Text) → Answers → Text → Call → Server → Sent
unfolding handle_create_conversation handle_list_conversations handle_get_conversation
    handle_delete_conversation send_message
serve uuid answers authorization (create new_id now body) h =
    no_job (handle_create_conversation answers authorization new_id now body h)
serve uuid answers authorization list h = no_job (handle_list_conversations answers authorization h)
serve uuid answers authorization (get i) h =
    no_job (handle_get_conversation answers authorization i h)
serve uuid answers authorization (delete i) h =
    no_job (handle_delete_conversation answers authorization i h)
serve uuid answers authorization (send a b c d i content) h =
    send_message uuid answers authorization a b c d i content h

user_of_token-unknown :
    (o : Option Text) (sessions : List (Text × User))
    → user_behind o sessions ≡ none
    → (r : Response) × (user_of_token o sessions ≡ rejected r) × (r.status ≡ 401)
user_of_token-unknown none sessions h = (_, refl, refl)
user_of_token-unknown (some token) sessions h = rw h (_, refl, refl)

-- A message without a body or without a content is refused before the token is looked at.
abbrev pub refusal_status : Call → ℕ
refusal_status (create new_id now body) = 401
refusal_status list = 401
refusal_status (get i) = 401
refusal_status (delete i) = 401
refusal_status (send a b c d i none) = 400
refusal_status (send a b c d i (some [])) = 400
refusal_status (send a b c d i (some (x ∷ xs))) = 401

-- Refused; no execution is started, and nothing changed.
abbrev pub IsRefused : Call → Sent → Server → Type 0
IsRefused c (r, job, h') h = (r.status ≡ refusal_status c) × (job ≡ none) × (h' ≡ h)

serve-rejected :
    (uuid : ℕ → Text) (answers : Answers) (authorization : Text) (c : Call) (h : Server)
    (e : Encryptor) (r : Response)
    → h.service ≡ some e
    → user_of_token (bearer_token authorization) h.sessions ≡ rejected r
    → r.status ≡ 401
    → IsRefused c (serve uuid answers authorization c h) h
unfolding serve require_app_auth_if_enabled fetch_credential_or_respond
serve-rejected uuid answers authorization (create new_id now body) h e r on same is401 =
    rw (on, same) (is401, refl, refl)
serve-rejected uuid answers authorization list h e r on same is401 =
    rw (on, same) (is401, refl, refl)
serve-rejected uuid answers authorization (get i) h e r on same is401 =
    rw (on, same) (is401, refl, refl)
serve-rejected uuid answers authorization (delete i) h e r on same is401 =
    rw (on, same) (is401, refl, refl)
serve-rejected uuid answers authorization (send a b c d i none) h e r on same is401 =
    (refl, refl, refl)
serve-rejected uuid answers authorization (send a b c d i (some [])) h e r on same is401 =
    (refl, refl, refl)
serve-rejected uuid answers authorization (send a b c d i (some (x ∷ xs))) h e r on same is401 =
    rw (on, same) (is401, refl, refl)

-- With the check of credentials on, a request to the conversations or messages whose header
-- carries no token of a signed-in user changes nothing and starts no execution; its status is 400
-- if it is a message without a body or without a content, and 401 otherwise.
pub serve-unauthorized :
    (uuid : ℕ → Text) (answers : Answers) (authorization : Text) (c : Call) (h : Server)
    (e : Encryptor)
    → h.service ≡ some e
    → user_behind (bearer_token authorization) h.sessions ≡ none
    → IsRefused c (serve uuid answers authorization c h) h
serve-unauthorized uuid answers authorization c h e on unknown =
    let (r, same, is401) = user_of_token-unknown (bearer_token authorization) h.sessions unknown in
    serve-rejected uuid answers authorization c h e r on same is401

with_user-known :
    (token : Text) (u : User) (f : Text → User → Server → Response × Server) (h : Server)
    → lookup token h.sessions ≡ some u
    → with_user (some token) f h ≡ f token u h
with_user-known token u f h known = rw (known, with_user) refl

renamed-fetch :
    (answers : Bool) (o : Option Text) (nickname : Text) (conversation_id : ℕ) (h : Server)
    (e : Encryptor) (u : User)
    → h.service ≡ some e
    → user_behind o h.sessions ≡ some u
    → fetch_if
        (with_user o (renamed (some nickname)) h).1.service
        answers
        o
        conversation_id
        (with_user o (renamed (some nickname)) h).1
      ≡ fetch_response conversation_id (fetch_and_decrypt e answers nickname h.credentials)
renamed-fetch answers none nickname i h e u on known = absurd (none-ne-some u known)
renamed-fetch answers (some token) nickname i h e u on known =
    rw (with_user-known token u (renamed (some nickname)) h known, on, lookup, same_text_refl token)
      refl

-- A signed-in user who changes the nickname is from then on, with the check of credentials on,
-- given the credentials that are stored for that name, whoever stored them.
pub update_me-fetch_credential :
    (answers : Bool) (authorization nickname : Text) (conversation_id : ℕ) (h : Server)
    (e : Encryptor) (u : User)
    → h.service ≡ some e
    → user_behind (bearer_token authorization) h.sessions ≡ some u
    → fetch_credential_or_respond answers authorization conversation_id
        (app_auth_update_me authorization (some nickname) h).1
      ≡ fetch_response conversation_id (fetch_and_decrypt e answers nickname h.credentials)
unfolding fetch_credential_or_respond app_auth_update_me
update_me-fetch_credential answers authorization nickname conversation_id h e u on known =
    renamed-fetch answers (bearer_token authorization) nickname conversation_id h e u on known
