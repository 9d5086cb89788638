-- ===== src/Turn/Apply.antt =====
-- The writes of a turn on the tables: what executeAndPersist and Finalize of message_service.go
-- store as message_data, as decoded JSON, and the statements that store it.
use cc_tunnel.Common.{ℕ, ◌+◌, Option, none, some, List, [], ◌∷◌, Text, codes, Action}
use cc_tunnel.Stream.{Block, ToolCall, Hook, SystemType}
use cc_tunnel.Chat.{
  Json, null, number, string, array, object, Items, nil, cons, Fields, end, field, Tables,
}
use cc_tunnel.Chat.Rows.{
  update_conversation_status, update_conversation_title, update_conversation_updated_at,
  update_message_content_blocks, update_message_status, merge_message_data,
}
use cc_tunnel.Turn.Persist.{
  Extra, Write, conversation_status, content_blocks, tool_calls, extra, message_status, title_from,
  updated_at,
}

abbrev pub items {ℓ} : {A : Type ℓ} → (A → Json) → List A → Items
items f [] = nil
items f (x ∷ xs) = cons (f x) (items f xs)

-- json.Marshal of a slice: null for nil, which is what a slice is that nothing was appended to.
abbrev pub slice {ℓ} : {A : Type ℓ} → (A → Json) → List A → Json
slice f [] = null
slice f (x ∷ xs) = array (items f (x ∷ xs))

abbrev pub block_json : Block → Json
block_json (Block.thinking t) =
    object
      (field (codes "type") (string (codes "thinking")) (field (codes "content") (string t) end))
block_json (Block.text t) =
    object (field (codes "type") (string (codes "text")) (field (codes "content") (string t) end))
block_json (Block.tool_use i) =
    object (
      field (codes "type") (string (codes "tool_use")) (field (codes "tool_use_id") (string i) end))

abbrev pub optional {ℓ} : {A : Type ℓ} → Text → (A → Json) → Option A → Fields → Fields
optional key f none fs = fs
optional key f (some a) fs = field key (f a) fs

abbrev pub tool_call_json : ToolCall → Json
tool_call_json c = object (
    field (codes "input_json") (string c.input_json) (
      optional (codes "result") string c.result (
        field (codes "tool_name") (string c.tool_name)
          (field (codes "tool_use_id") (string c.tool_use_id) end))))

abbrev pub subtype_text : SystemType → Text
subtype_text SystemType.init = codes "init"
subtype_text SystemType.hook_started = codes "hook_started"
subtype_text SystemType.hook_response = codes "hook_response"
subtype_text SystemType.notification = codes "notification"
subtype_text SystemType.status = codes "status"
subtype_text SystemType.other = []

abbrev pub hook_json : Hook → Json
hook_json h = object (
    field (codes "subtype") (string (subtype_text h.subtype)) (
      field (codes "hook_id") (string h.hook_id) (
        field (codes "hook_name") (string h.hook_name)
          (field (codes "hook_event") (string h.hook_event) end))))

unfoldable pub extra_fields : Extra → Fields
extra_fields x = field (codes "session_id") (string x.session_id) (
    optional (codes "content") string x.content (
      optional (codes "thinking") (slice string) x.thinking (
        optional (codes "model") string x.model (
          optional (codes "cost_usd") number x.cost_usd (
            optional (codes "duration_ms") number x.duration_ms (
              optional (codes "hook_events") (slice hook_json) x.hook_events
                (optional (codes "tool_calls") (slice tool_call_json) x.tool_calls end)))))))

-- `title` is generateTitle, on the bytes of a text.
module _ (title : Text → Text) (conversation_id message_id : ℕ) where
  -- One write, at time `now`.
  unfoldable pub apply_write : ℕ → Write → Action Tables (Unit {0})
  unfolding extra_fields update_conversation_status update_message_content_blocks merge_message_data
      update_message_status update_conversation_title update_conversation_updated_at
  apply_write now (conversation_status s) = update_conversation_status conversation_id s
  apply_write now (content_blocks bs) =
      update_message_content_blocks now message_id (slice block_json bs)
  apply_write now (tool_calls cs) =
      merge_message_data now message_id (field (codes "tool_calls") (slice tool_call_json cs) end)
  apply_write now (extra x) = merge_message_data now message_id (extra_fields x)
  apply_write now (message_status s) = update_message_status now message_id s
  apply_write now (title_from t) = update_conversation_title now conversation_id (title t)
  apply_write now updated_at = update_conversation_updated_at now conversation_id

  -- The writes in order; the clock advances by one for each.
  unfoldable pub apply_writes : ℕ → List Write → Tables → Tables
  unfolding apply_write
  apply_writes now [] t = t
  apply_writes now (w ∷ ws) t = apply_writes (now + 1) ws (apply_write now w t).1
