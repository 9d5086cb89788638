-- ===== src/Turn/Persist.antt =====
-- executeAndPersist: what it writes while a turn runs and when it ends. A failing write is only
-- logged, so the model lists the writes that are tried, in order. The stream's events and the
-- batch ticks come in any order; both take the aggregator's mutex.
use cc_tunnel.Common.{
  ℕ, zero, suc, Option, none, some, List, [], ◌∷◌, ◌++◌, Text, if◌then◌else◌, is_empty, ltb,
}
use cc_tunnel.Chat.{ConversationStatus, MessageStatus}
use cc_tunnel.Stream.{Block, ToolCall, Hook, StreamEvent, Aggregator}
use cc_tunnel.Stream.Aggregate.{empty, handle}

-- The map that Finalize makes for message_data; none is an absent key.
pub record Extra : Type 0 where
  pub session_id : Text
  pub content : Option Text
  pub thinking : Option (List Text)
  pub model : Option Text
  pub cost_usd : Option ℕ
  pub duration_ms : Option ℕ
  pub hook_events : Option (List Hook)
  pub tool_calls : Option (List ToolCall)

pub data Write : Type 0 where
  conversation_status : ConversationStatus → Write
  content_blocks : List Block → Write
  tool_calls : List ToolCall → Write
  extra : Extra → Write
  message_status : MessageStatus → Write
  title_from : Text → Write  -- the title that generateTitle makes of the text
  updated_at : Write

abbrev pub non_empty {ℓ} : {A : Type ℓ} → List A → Option (List A)
non_empty [] = none
non_empty (x ∷ xs) = some (x ∷ xs)

abbrev positive : ℕ → Option ℕ
positive n = if ltb 0 n then some n else none

abbrev thinking_of : List Text → Text → Option (List Text)
thinking_of [] [] = none
thinking_of [] (c ∷ t) = some ((c ∷ t) ∷ [])
thinking_of (x ∷ xs) t = some (x ∷ xs)

unfoldable pub finalize : Text → Aggregator → Extra
finalize session a = record {
  session_id = session;
  content = non_empty a.assistant_content;
  thinking = thinking_of a.thinking_blocks a.thinking_content;
  model = non_empty a.model_name;
  cost_usd = positive a.cost_usd;
  duration_ms = positive a.duration_ms;
  hook_events = non_empty a.hook_events;
  tool_calls = non_empty a.tool_calls;
}

-- One event of the stream, or one tick of the batcher.
pub data Step : Type 0 where
  event : StreamEvent → Step
  tick : Step

-- The batcher's writes of a snapshot.
abbrev pub batch : Aggregator → List Write
batch a = content_blocks a.content_blocks ∷ tool_calls a.tool_calls ∷ []

-- The writes while Execute runs, and the aggregator when it returns.
unfoldable pub during : Aggregator → List Step → List Write × Aggregator
during a [] = ([], a)
during a (event e ∷ ss) = during (handle a e) ss
during a (tick ∷ ss) = let (ws, b) = during a ss in (batch a ++ ws, b)

-- How Execute ends: with a session id, with an error, or by a panic, after which the batcher is
-- not stopped and ticks on.
pub data Ending : Type 0 where
  returned : Text → Ending
  failed : Ending
  panicked : ℕ → Ending

abbrev pub titles : Text → List Write
titles t = if is_empty t then [] else title_from t ∷ []

-- The writes after Execute, before the deferred ones.
unfoldable pub finish : Aggregator → Ending → List Write
finish a (returned session) =
    content_blocks a.content_blocks
    ∷ extra (finalize session a)
    ∷ message_status MessageStatus.completed
    ∷ (titles a.assistant_content ++ updated_at ∷ [])
finish a failed = message_status MessageStatus.error ∷ []
finish a (panicked n) = []

unfoldable pub batches : Aggregator → ℕ → List Write
batches a zero = []
batches a (suc n) = batch a ++ batches a n

-- What the batcher writes after the turn is over.
unfoldable pub leaked : Aggregator → Ending → List Write
unfolding batches
leaked a (panicked n) = batches a n
leaked a _ = []

unfoldable pub execute_and_persist : List Step → Ending → List Write
unfolding during finish leaked
execute_and_persist ss ending =
    let (ws, a) = during empty ss in
    conversation_status ConversationStatus.running
    ∷ ((ws ++ finish a ending)
        ++ (conversation_status ConversationStatus.completed ∷ leaked a ending))
