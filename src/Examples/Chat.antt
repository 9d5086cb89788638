-- ===== src/Examples/Chat.antt =====
-- A short stream, a turn that handles it, and a history.
use cc_tunnel.Common.{select, map, ◌≡◌, ◌⊎◌, some, List, [], ◌∷◌, ◌++◌, Text, codes, All}
use cc_tunnel.Stream.{Content, BlockType, ContentBlock, DeltaType, InnerEvent, StreamEvent}
use cc_tunnel.Stream.Aggregate.{empty, handle_all}
use cc_tunnel.Stream.Blocks.{Adds, blocks_of_stream, text_of, Adds-handle_all}
use cc_tunnel.Stream.Results.{key, ShortResults}
use cc_tunnel.Stream.Tools.{keys_of_stream, Calls-handle_all}
use cc_tunnel.Turn.History.{find_resume_session_id}
use cc_tunnel.Turn.Resume.{IsSilent, Latest, find_resume_session_id-Latest}
use cc_tunnel.Chat.{
  end, field, Role, Message, ConversationStatus, MessageStatus, string as text_value,
}
use cc_tunnel.Turn.Persist.{
  Extra, conversation_status, content_blocks, extra, message_status, updated_at, non_empty, Step,
  event, tick, returned, panicked, titles, execute_and_persist,
}
use cc_tunnel.Turn.Writes.{
  events, TurnOf, is_status, execute_and_persist-returned, execute_and_persist-statuses,
}

abbrev block : BlockType → Text → ContentBlock
block type t = record {
  type = type;
  text = t;
  thinking = t;
  id = t;
  tool_use_id = t;
  content = Content.string (codes "done");
}

-- A tool use, announced with its input, the text, and the tool's result.
abbrev stream : List StreamEvent
stream =
    StreamEvent.stream_event (
      some (
        InnerEvent.content_block_start
          (some (record { type = BlockType.tool_use; id = codes "t1"; name = codes "Bash" }))))
    ∷ StreamEvent.stream_event (
        some (
          InnerEvent.content_block_delta (
            some (record {
              type = DeltaType.input_json_delta;
              thinking = [];
              partial_json = codes "{}";
            }))))
    ∷ StreamEvent.assistant
        (some (block BlockType.tool_use (codes "t1") ∷ block BlockType.text (codes "hi") ∷ []))
    ∷ StreamEvent.user (some (block BlockType.tool_result (codes "t1") ∷ []))
    ∷ []

Adds-handle_all_example : Adds empty (blocks_of_stream stream) (handle_all empty stream)
Adds-handle_all_example = Adds-handle_all stream empty

Calls-handle_all_example :
    (map key (handle_all empty stream).tool_calls ≡ [] ++ keys_of_stream stream)
    × ShortResults (handle_all empty stream).tool_calls
Calls-handle_all_example = Calls-handle_all stream empty tt

abbrev steps : List Step
steps = event (StreamEvent.assistant (some (block BlockType.text (codes "hi") ∷ []))) ∷ tick ∷ []

returned_example :
    (x : Extra) × (x.session_id ≡ codes "s-1")
    × (x.content ≡ non_empty (text_of (blocks_of_stream (events steps))))
    × TurnOf steps (execute_and_persist steps (returned (codes "s-1"))) (
        content_blocks (blocks_of_stream (events steps))
          ∷ extra x
          ∷ message_status MessageStatus.completed
          ∷ (titles (text_of (blocks_of_stream (events steps))) ++ updated_at ∷ [])
        ++ conversation_status ConversationStatus.completed ∷ [])
returned_example = execute_and_persist-returned steps (codes "s-1")

statuses_example :
    select is_status (execute_and_persist steps (panicked 2))
    ≡ conversation_status ConversationStatus.running
      ∷ conversation_status ConversationStatus.completed
      ∷ []
statuses_example = execute_and_persist-statuses steps (panicked 2)

-- The last message offers no session id.
abbrev history : List Message
history =
    record {
      id = 1;
      conversation_id = 40;
      status = MessageStatus.completed;
      created_at = 10;
      updated_at = 10;
      role = Role.assistant;
      message_data = field (codes "session_id") (text_value (codes "s-1")) end;
    }
    ∷ record {
      id = 2;
      conversation_id = 40;
      status = MessageStatus.completed;
      created_at = 20;
      updated_at = 20;
      role = Role.user;
      message_data = end;
    }
    ∷ []

Latest_example :
    ((find_resume_session_id history ≡ []) × All IsSilent history)
    ⊎ Latest history (find_resume_session_id history)
Latest_example = find_resume_session_id-Latest history
