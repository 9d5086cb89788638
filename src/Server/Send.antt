-- ===== src/Server/Send.antt =====
-- apps/cc-tunnel/internal/api/message_handler.go.
use cc_tunnel.Common.{
  ℕ, Bool, Option, none, some, List, [], ◌∷◌, Text, codes, Error, Result, ok, err,
}
use cc_tunnel.Chat.{string, end, field, Role, Conversation, Message, Tables}
use cc_tunnel.Chat.Rows.{get_conversation, list_messages, create_message, create_streaming_message}
use cc_tunnel.Vault.{Fault, Answer, done, failed, Encryptor}
use cc_tunnel.Vault.Service.{fetch_and_decrypt}
use cc_tunnel.Turn.History.{Request, build_execute_request}
use cc_tunnel.Server.{
  User, vault_error, credentials_error, accepted, Response, respond, write_error, Server,
  bearer_token, Checked, passed, rejected, user_of_token, Answers, query, internal,
  conversation_not_found,
}

abbrev pub fetch_response : ℕ → Answer Text → Checked Text
fetch_response conversation_id (done json) = passed json
fetch_response conversation_id (failed Fault.not_found) = rejected (
    respond 401
      (credentials_error (codes "credentials_required") (codes "missing") conversation_id))
fetch_response conversation_id (failed Fault.credentials_invalid) = rejected (
    respond 401 (credentials_error (codes "credentials_invalid") (codes "expired") conversation_id))
fetch_response conversation_id (failed f) = rejected (respond 500 (vault_error f))

abbrev pub fetch_for : Encryptor → Bool → ℕ → Server → Checked User → Checked Text
fetch_for e answers conversation_id h (rejected r) = rejected r
fetch_for e answers conversation_id h (passed user) =
    fetch_response conversation_id (fetch_and_decrypt e answers user.name h.credentials)

-- No credentials, a nil slice, when the check is off.
abbrev pub fetch_if : Option Encryptor → Bool → Option Text → ℕ → Server → Checked Text
fetch_if none answers token conversation_id h = passed []
fetch_if (some e) answers token conversation_id h =
    fetch_for e answers conversation_id h (user_of_token token h.sessions)

unfoldable pub fetch_credential_or_respond : Bool → Text → ℕ → Server → Checked Text
unfolding bearer_token fetch_and_decrypt
fetch_credential_or_respond answers authorization conversation_id h =
    fetch_if h.service answers (bearer_token authorization) conversation_id h

-- The execution that the handler starts: the request and the assistant message's id.
pub record Job : Type 0 where
  pub request : Request
  pub message_id : ℕ

abbrev pub Sent : Type 0
Sent = Response × Option Job × Server

abbrev pub sent_or :
    {A : Type 0} → Result A × Tables → (Error → Response) → (A → Server → Sent) → Server → Sent
sent_or (ok a, t) refused f h = f a (record h { tables = t })
sent_or (err e, t) refused f h = (refused e, none, record h { tables = t })

-- The clock and gen_random_uuid() give a time and an id to each of the two new messages;
-- the first answer is to the look-up of the credentials.
-- `uuid` is how a conversation's id is written.
module _ (uuid : ℕ → Text) (answers : Answers) (authorization : Text)
    (user_id user_now reply_id reply_now : ℕ) (conversation_id : ℕ) where
  abbrev pub with_reply : Request → Server → Sent
  with_reply request h =
      sent_or
        (query (answers 4)
          (create_streaming_message reply_id reply_now conversation_id Role.assistant end) h.tables)
        internal
        (λ m h'.
          (respond 202 (accepted m.id), some (record { request = request; message_id = m.id }), h'))
        h

  abbrev pub with_user_message : Text → Text → Conversation → List Message → Server → Sent
  with_user_message content json conv history h =
      sent_or
        (query (answers 3)
          (create_message user_id user_now conversation_id Role.user
            (field (codes "content") (string content) end))
          h.tables)
        internal
        (λ _. with_reply (build_execute_request content (uuid conversation_id) conv history json)) h

  abbrev pub with_credentials : Text → Checked Text → Server → Sent
  with_credentials content (rejected r) h = (r, none, h)
  with_credentials content (passed json) h =
      sent_or (query (answers 1) (get_conversation conversation_id) h.tables) conversation_not_found
        (λ conv h.
          sent_or (query (answers 2) (list_messages conversation_id) h.tables) internal
            (λ history. with_user_message content json conv history) h)
        h

  -- The body is the content.
  unfoldable pub send_message : Option Text → Server → Sent
  unfolding fetch_credential_or_respond get_conversation list_messages create_message
      create_streaming_message build_execute_request
  send_message none h = (write_error 400 (codes "invalid request body"), none, h)
  send_message (some []) h = (write_error 400 (codes "content is required"), none, h)
  send_message (some (c ∷ cs)) h =
      with_credentials (c ∷ cs)
        (fetch_credential_or_respond (answers 0) authorization conversation_id h) h
