-- ===== src/Server/Conversations.antt =====
-- apps/cc-tunnel/internal/api/conversation_handler.go and mapping.go.
use cc_tunnel.Common.{ℕ, Option, none, some, [], map, Text, codes}
use cc_tunnel.Chat.{Fields, end, field, Message}
use cc_tunnel.Chat.Rows.{
  create_conversation, get_conversation, list_conversations, delete_conversation, list_messages,
}
use cc_tunnel.Server.{
  ApiMessage, one_conversation, conversation_list, detail, status_ok, Response, respond,
  write_error, Server, require_app_auth_if_enabled, guarded, Answers, query, or_respond, internal,
  conversation_not_found,
}

abbrev unless_no_fields : Fields → Option Fields
unless_no_fields end = none
unless_no_fields (field k v fs) = some (field k v fs)

unfoldable pub new_message : Message → ApiMessage
new_message m = record {
  id = m.id;
  conversation_id = m.conversation_id;
  role = m.role;
  created_at = m.created_at;
  status = m.status;
  message_data = unless_no_fields m.message_data;
}

pub record CreateConversationRequest : Type 0 where
  pub title : Option Text
  pub model : Option Text
  pub system_prompt : Option Text

abbrev or_default : Text → Option Text → Text
or_default d none = d
or_default d (some t) = t

abbrev create_from : Answers → ℕ → ℕ → Option CreateConversationRequest → Server → Response × Server
create_from answers new_id now none h = (write_error 400 (codes "invalid request body"), h)
create_from answers new_id now (some req) h =
    or_respond
      (query (answers 0)
        (create_conversation new_id now (or_default [] req.title)
          (or_default (codes "claude-sonnet-4-6") req.model) req.system_prompt)
        h.tables)
      internal (λ conv h'. (respond 201 (one_conversation conv), h')) h

-- A request without a body is one without fields.
module _ (answers : Answers) (authorization : Text) where
  unfoldable pub handle_create_conversation :
      ℕ → ℕ → Option CreateConversationRequest → Server → Response × Server
  unfolding require_app_auth_if_enabled create_conversation
  handle_create_conversation new_id now body h =
      guarded (require_app_auth_if_enabled h authorization)
        (λ u. create_from answers new_id now body) h

  unfoldable pub handle_list_conversations : Server → Response × Server
  unfolding require_app_auth_if_enabled list_conversations
  handle_list_conversations h =
      guarded (require_app_auth_if_enabled h authorization)
        (λ u h.
          or_respond (query (answers 0) list_conversations h.tables) internal
            (λ convs h'. (respond 200 (conversation_list convs), h')) h)
        h

  unfoldable pub handle_get_conversation : ℕ → Server → Response × Server
  unfolding require_app_auth_if_enabled get_conversation list_messages new_message
  handle_get_conversation i h =
      guarded (require_app_auth_if_enabled h authorization)
        (λ u h.
          or_respond (query (answers 0) (get_conversation i) h.tables) conversation_not_found
            (λ conv h.
              or_respond (query (answers 1) (list_messages i) h.tables) internal
                (λ msgs h'. (respond 200 (detail conv (map new_message msgs)), h')) h)
            h)
        h

  unfoldable pub handle_delete_conversation : ℕ → Server → Response × Server
  unfolding require_app_auth_if_enabled delete_conversation
  handle_delete_conversation i h =
      guarded (require_app_auth_if_enabled h authorization)
        (λ u h.
          or_respond (query (answers 0) (delete_conversation i) h.tables) conversation_not_found
            (λ _ h'. (respond 200 status_ok, h')) h)
        h
