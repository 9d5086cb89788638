-- ===== src/Chat/Rows.antt =====
-- repository.go, conversations and messages: one function per statement.
use cc_tunnel.Common.{
  ℕ, Bool, not, Option, none, some, List, [], ◌∷◌, ◌++◌, Text, ◌==◌, if◌then◌else◌, codes, select,
  update_where, find_first, any, sort_by, Result, ok, err, no_rows, constraint, Action,
}
use mathlib.Core.List.{reverse}
use cc_tunnel.Chat.{
  Json, Fields, end, field, Role, ConversationStatus, MessageStatus, Conversation, Message, Tables,
  merge,
}

abbrev pub is_conversation : ℕ → Conversation → Bool
is_conversation i c = c.id == i

abbrev pub is_message : ℕ → Message → Bool
is_message i m = m.id == i

abbrev pub is_of : ℕ → Message → Bool
is_of i m = m.conversation_id == i

-- The id is gen_random_uuid() and the primary key.
unfoldable pub create_conversation : ℕ → ℕ → Text → Text → Option Text → Action Tables Conversation
create_conversation new_id now title model system_prompt t =
    if any (is_conversation new_id) t.conversations
    then (err constraint, t)
    else (ok c, record t { conversations = t.conversations ++ c ∷ [] })
  where
    c : Conversation
    c = record {
      id = new_id;
      title = title;
      model = model;
      system_prompt = system_prompt;
      status = ConversationStatus.idle;
      created_at = now;
      updated_at = now;
    }

abbrev or_no_rows {ℓ} : {A : Type ℓ} → Option A → Result A
or_no_rows none = err no_rows
or_no_rows (some a) = ok a

unfoldable pub get_conversation : ℕ → Action Tables Conversation
get_conversation i t = (or_no_rows (find_first (is_conversation i) t.conversations), t)

-- ORDER BY updated_at DESC
unfoldable pub list_conversations : Action Tables (List Conversation)
unfolding sort_by
list_conversations t = (ok (reverse (sort_by (λ c. c.updated_at) t.conversations)), t)

-- Messages and session endpoints refer to a conversation with ON DELETE CASCADE.
unfoldable pub delete_conversation : ℕ → Action Tables (Unit {0})
delete_conversation i t = (
  ok tt,
  record {
    conversations = select (λ c. not (is_conversation i c)) t.conversations;
    messages = select (λ m. not (is_of i m)) t.messages;
    db = record t.db { endpoints = select (λ ep. not (ep.conversation_id == i)) t.db.endpoints };
  },
)

abbrev change : ℕ → (Conversation → Conversation) → Action Tables (Unit {0})
change i f t =
    (ok tt, record t { conversations = update_where (is_conversation i) f t.conversations })

unfoldable pub update_conversation_updated_at : ℕ → ℕ → Action Tables (Unit {0})
update_conversation_updated_at now i = change i (λ c. record c { updated_at = now })

unfoldable pub update_conversation_title : ℕ → ℕ → Text → Action Tables (Unit {0})
update_conversation_title now i title = change i (λ c. record c { title = title; updated_at = now })

unfoldable pub update_conversation_status : ℕ → ConversationStatus → Action Tables (Unit {0})
update_conversation_status i s = change i (λ c. record c { status = s })

-- The foreign key to conversations, and the primary key.
abbrev pub insert_message : Message → Action Tables Message
insert_message m t =
    if any (is_message m.id) t.messages
    then (err constraint, t)
    else if any (is_conversation m.conversation_id) t.conversations
    then (ok m, record t { messages = t.messages ++ m ∷ [] })
    else (err constraint, t)

-- The column's default status is "completed".
unfoldable pub create_message : ℕ → ℕ → ℕ → Role → Fields → Action Tables Message
create_message new_id now conversation_id role message_data = insert_message (record {
  id = new_id;
  conversation_id = conversation_id;
  role = role;
  message_data = message_data;
  status = MessageStatus.completed;
  created_at = now;
  updated_at = now;
})

-- ORDER BY created_at ASC
unfoldable pub list_messages : ℕ → Action Tables (List Message)
unfolding sort_by
list_messages conversation_id t =
    (ok (sort_by (λ m. m.created_at) (select (is_of conversation_id) t.messages)), t)

unfoldable pub create_streaming_message : ℕ → ℕ → ℕ → Role → Fields → Action Tables Message
create_streaming_message new_id now conversation_id role message_data = insert_message (record {
  id = new_id;
  conversation_id = conversation_id;
  role = role;
  message_data = message_data;
  status = MessageStatus.streaming;
  created_at = now;
  updated_at = now;
})

abbrev change_message : ℕ → (Message → Message) → Action Tables (Unit {0})
change_message i f t = (ok tt, record t { messages = update_where (is_message i) f t.messages })

unfoldable pub update_message_content_blocks : ℕ → ℕ → Json → Action Tables (Unit {0})
unfolding merge
update_message_content_blocks now i blocks = change_message i λ m. record m {
  message_data = merge m.message_data (field (codes "content_blocks") blocks end);
  updated_at = now;
}

unfoldable pub update_message_status : ℕ → ℕ → MessageStatus → Action Tables (Unit {0})
update_message_status now i s = change_message i (λ m. record m { status = s; updated_at = now })

unfoldable pub merge_message_data : ℕ → ℕ → Fields → Action Tables (Unit {0})
merge_message_data now i more =
    change_message i (λ m. record m { message_data = merge m.message_data more; updated_at = now })
