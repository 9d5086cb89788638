-- ===== src/Stream.antt =====
-- streamAggregator of apps/cc-tunnel/internal/api/message_service.go, and the events of
-- apps/cc-tunnel/internal/remoteclient/client.go. Decoding JSON is the library's: an event comes
-- decoded, with none where json.Unmarshal fails. The strings that the code compares with constants
-- are constructors, `other` for the rest. A cost is a number of some unit.
pub mod Aggregate
pub mod Blocks
pub mod Results
pub mod Tools
use cc_tunnel.Common.{ℕ, List, Option, Text}

-- The `any` of a tool result: a string, a list whose first item has this "text" (empty if it is no
-- object or has no such string), or anything else.
pub data Content : Type 0 where
  string : Text → Content
  array : Option Text → Content
  anything : Content

pub data BlockType : Type 0 where
  thinking text tool_use tool_result other : BlockType

pub record ContentBlock : Type 0 where
  pub type : BlockType
  pub text : Text
  pub thinking : Text
  pub id : Text
  pub tool_use_id : Text
  pub content : Content

-- The content_block of a content_block_start, and the delta of a content_block_delta, whose absent
-- keys are empty.
pub record BlockStart : Type 0 where
  pub type : BlockType
  pub id : Text
  pub name : Text

pub data DeltaType : Type 0 where
  thinking_delta input_json_delta other : DeltaType

pub record Delta : Type 0 where
  pub type : DeltaType
  pub thinking : Text
  pub partial_json : Text

pub data InnerEvent : Type 0 where
  content_block_start : Option BlockStart → InnerEvent
  content_block_delta : Option Delta → InnerEvent
  other : InnerEvent

pub data SystemType : Type 0 where
  init hook_started hook_response notification status other : SystemType

pub record Hook : Type 0 where
  pub subtype : SystemType
  pub hook_id : Text
  pub hook_name : Text
  pub hook_event : Text

-- StreamEvent, with the fields that each type of event uses.
pub data StreamEvent : Type 0 where
  assistant : Option (List ContentBlock) → StreamEvent
  user : Option (List ContentBlock) → StreamEvent
  system : Text → Hook → StreamEvent
  stream_event : Option InnerEvent → StreamEvent
  result : Text → ℕ → ℕ → StreamEvent
  other : StreamEvent

-- The maps that contentBlocks holds.
pub data Block : Type 0 where
  thinking : Text → Block
  text : Text → Block
  tool_use : Text → Block

-- ToolCallData of gen.go.
pub record ToolCall : Type 0 where
  pub tool_use_id : Text
  pub tool_name : Text
  pub input_json : Text
  pub result : Option Text

pub record Aggregator : Type 0 where
  pub content_blocks : List Block
  pub tool_calls : List ToolCall
  pub assistant_content : Text
  pub thinking_content : Text
  pub thinking_blocks : List Text
  pub model_name : Text
  pub cost_usd : ℕ
  pub duration_ms : ℕ
  pub hook_events : List Hook
