-- ===== src/Stream/Aggregate.antt =====
-- Handle, attachToolResult, handleStreamEvent and Finalize of message_service.go. The mutex makes
-- each call one step.
use cc_tunnel.Common.{
  ℕ, Bool, true, false, not, ◌&&◌, Option, none, some, List, [], ◌∷◌, ◌++◌, Text, ltb,
  if◌then◌else◌, is_empty, length, take, codes, same_text,
}
use cc_tunnel.Stream.{
  Content, string, array, anything, BlockType, ContentBlock, BlockStart, DeltaType, Delta,
  InnerEvent, SystemType, Hook, StreamEvent, Block, ToolCall, Aggregator,
}

abbrev pub empty : Aggregator
empty = record {
  content_blocks = [];
  tool_calls = [];
  assistant_content = [];
  thinking_content = [];
  thinking_blocks = [];
  model_name = [];
  cost_usd = 0;
  duration_ms = 0;
  hook_events = [];
}

abbrev pub or_empty : Option Text → Text
or_empty none = []
or_empty (some t) = t

unfoldable pub content_text : Content → Text
content_text (string t) = t
content_text (array first) = or_empty first
content_text anything = []

unfoldable pub truncated : ℕ → Text → Text
truncated max_len t = if ltb max_len (length t) then take max_len t ++ codes "...[truncated]" else t

-- The loop over toolCalls: the first call of that id gets the result.
unfoldable pub set_result : Text → Text → List ToolCall → List ToolCall
set_result i t [] = []
set_result i t (c ∷ cs) =
    if same_text c.tool_use_id i then record c { result = some t } ∷ cs else c ∷ set_result i t cs

unfoldable pub attach_tool_result : Text → Content → ℕ → Aggregator → Aggregator
unfolding content_text truncated set_result
attach_tool_result i content max_len a = record a {
  tool_calls = set_result i (truncated max_len (content_text content)) a.tool_calls;
}

-- A case of the switch over an assistant message's block.
unfoldable pub on_assistant_block : BlockType → ContentBlock → Aggregator → Aggregator
unfolding attach_tool_result
on_assistant_block BlockType.thinking b a = if is_empty b.thinking then a else record a {
  content_blocks = a.content_blocks ++ Block.thinking b.thinking ∷ [];
  thinking_content = a.thinking_content ++ b.thinking;
}
on_assistant_block BlockType.text b a = if is_empty b.text then a else record a {
  content_blocks = a.content_blocks ++ Block.text b.text ∷ [];
  assistant_content = a.assistant_content ++ b.text;
}
on_assistant_block BlockType.tool_use b a =
    if is_empty b.id
    then a
    else record a { content_blocks = a.content_blocks ++ Block.tool_use b.id ∷ [] }
on_assistant_block BlockType.tool_result b a = attach_tool_result b.tool_use_id b.content 1000 a
on_assistant_block BlockType.other b a = a

unfoldable pub on_assistant : List ContentBlock → Aggregator → Aggregator
unfolding on_assistant_block
on_assistant [] a = a
on_assistant (b ∷ bs) a = on_assistant bs (on_assistant_block b.type b a)

unfoldable pub on_user_block : BlockType → ContentBlock → Aggregator → Aggregator
unfolding attach_tool_result
on_user_block BlockType.tool_result b a = attach_tool_result b.tool_use_id b.content 2000 a
on_user_block _ b a = a

unfoldable pub on_user : List ContentBlock → Aggregator → Aggregator
unfolding on_user_block
on_user [] a = a
on_user (b ∷ bs) a = on_user bs (on_user_block b.type b a)

-- `model` is the event's model.
unfoldable pub on_system : SystemType → Text → Hook → Aggregator → Aggregator
on_system SystemType.init model h a = if is_empty model then a else record a { model_name = model }
on_system SystemType.other model h a = a
on_system _ model h a = record a { hook_events = a.hook_events ++ h ∷ [] }

abbrev pub is_tool_use : BlockType → Bool
is_tool_use BlockType.tool_use = true
is_tool_use _ = false

unfoldable pub on_block_start : BlockStart → Aggregator → Aggregator
on_block_start s a =
    if is_tool_use s.type && not (is_empty s.name)
    then record a { tool_calls = a.tool_calls ++ call ∷ [] }
    else a
  where
    call : ToolCall
    call = record { tool_use_id = s.id; tool_name = s.name; input_json = []; result = none }

-- `blocks[len(blocks)-1] += t`, on a list that is not empty.
unfoldable pub add_to_last : Text → List Text → List Text
add_to_last t [] = []
add_to_last t (x ∷ []) = (x ++ t) ∷ []
add_to_last t (x ∷ y ∷ xs) = x ∷ add_to_last t (y ∷ xs)

unfoldable pub add_input : Text → List ToolCall → List ToolCall
add_input t [] = []
add_input t (c ∷ []) = record c { input_json = c.input_json ++ t } ∷ []
add_input t (c ∷ d ∷ cs) = c ∷ add_input t (d ∷ cs)

unfoldable pub on_delta : DeltaType → Delta → Aggregator → Aggregator
unfolding add_to_last add_input
on_delta DeltaType.thinking_delta d a = if is_empty d.thinking then a else record a {
  thinking_blocks =
      add_to_last d.thinking (if is_empty a.thinking_blocks then [] ∷ [] else a.thinking_blocks);
}
on_delta DeltaType.input_json_delta d a =
    if is_empty d.partial_json
    then a
    else record a { tool_calls = add_input d.partial_json a.tool_calls }
on_delta DeltaType.other d a = a

unfoldable pub handle_stream_event : InnerEvent → Aggregator → Aggregator
unfolding on_block_start on_delta
handle_stream_event (InnerEvent.content_block_start none) a = a
handle_stream_event (InnerEvent.content_block_start (some s)) a = on_block_start s a
handle_stream_event (InnerEvent.content_block_delta none) a = a
handle_stream_event (InnerEvent.content_block_delta (some d)) a = on_delta d.type d a
handle_stream_event InnerEvent.other a = a

unfoldable pub handle : Aggregator → StreamEvent → Aggregator
unfolding on_assistant on_user on_system handle_stream_event
handle a (StreamEvent.assistant none) = a
handle a (StreamEvent.assistant (some bs)) = on_assistant bs a
handle a (StreamEvent.user none) = a
handle a (StreamEvent.user (some bs)) = on_user bs a
handle a (StreamEvent.system model h) = on_system h.subtype model h a
handle a (StreamEvent.stream_event none) = a
handle a (StreamEvent.stream_event (some e)) = handle_stream_event e a
handle a (StreamEvent.result session cost duration) = record a {
  cost_usd = cost;
  duration_ms = duration;
}
handle a StreamEvent.other = a

-- The executor calls onEvent for each event in order.
unfoldable pub handle_all : Aggregator → List StreamEvent → Aggregator
unfolding handle
handle_all a [] = a
handle_all a (e ∷ es) = handle_all (handle a e) es
