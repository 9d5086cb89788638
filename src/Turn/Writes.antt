-- ===== src/Turn/Writes.antt =====
-- What a turn writes, whatever the order of its events and ticks.
use cc_tunnel.Common.{
  ℕ, zero, suc, ◌≡◌, refl, sym, ap, ◌∙◌, Bool, true, false, List, [], ◌∷◌, ◌++◌, Text, All, select,
  arith,
}
use mathlib.Core.Path.{ap₂, subst}
use mathlib.Core.List.{append_assoc}
use cc_tunnel.Stream.{Block, StreamEvent, Aggregator}
use cc_tunnel.Stream.Aggregate.{empty, handle, handle_all}
use cc_tunnel.Stream.Blocks.{blocks_of_stream, text_of, Adds-handle_all}
use cc_tunnel.Chat.{ConversationStatus, MessageStatus}
use cc_tunnel.Turn.Persist.{
  Extra, Write, conversation_status, content_blocks, tool_calls, extra, message_status, title_from,
  updated_at, non_empty, finalize, Step, event, tick, during, Ending, returned, failed, panicked,
  titles, finish, batches, leaked, execute_and_persist,
}

abbrev pub events : List Step → List StreamEvent
events [] = []
events (event e ∷ ss) = e ∷ events ss
events (tick ∷ ss) = events ss

-- A write of the batcher: blocks of which `final` is a continuation, or tool calls.
abbrev pub IsBatchOf : List Block → Write → Type 0
IsBatchOf final (content_blocks bs) = (rest : List Block) × (bs ++ rest ≡ final)
IsBatchOf final (tool_calls cs) = Unit
IsBatchOf final _ = ⊥

during-state : (ss : List Step) (a : Aggregator) → (during a ss).1 ≡ handle_all a (events ss)
unfolding during handle_all
during-state [] a = refl
during-state (event e ∷ ss) a = during-state ss (handle a e)
during-state (tick ∷ ss) a = during-state ss a

during-batches :
    (ss : List Step) (a : Aggregator)
    → All (IsBatchOf (handle_all a (events ss)).content_blocks) (during a ss).0
unfolding during handle_all
during-batches [] a = tt
during-batches (event e ∷ ss) a = during-batches ss (handle a e)
during-batches (tick ∷ ss) a = (
  (blocks_of_stream (events ss), sym (Adds-handle_all (events ss) a).blocks),
  (tt, during-batches ss a),
)

-- The writes of a turn between its first and its last.
pub record TurnOf (ss : List Step) (all last : List Write) : Type 0 where
  pub batched : List Write
  pub only_batches : All (IsBatchOf (blocks_of_stream (events ss))) batched
  pub in_order : all ≡ conversation_status ConversationStatus.running ∷ (batched ++ last)

finalize-content :
    (session : Text) (a : Aggregator)
    → ((finalize session a).session_id ≡ session)
      × ((finalize session a).content ≡ non_empty a.assistant_content)
unfolding finalize
finalize-content session a = (refl, refl)

-- The writes after a successful execution, by the blocks and the text.
abbrev ending : Extra → List Block → Text → List Write
ending x bs t =
    content_blocks bs
      ∷ extra x
      ∷ message_status MessageStatus.completed
      ∷ (titles t ++ updated_at ∷ [])
    ++ conversation_status ConversationStatus.completed ∷ []

abbrev pub is_status : Write → Bool
is_status (conversation_status s) = true
is_status (message_status s) = true
is_status (content_blocks bs) = false
is_status (tool_calls cs) = false
is_status (extra x) = false
is_status (title_from t) = false
is_status updated_at = false

-- The status that the message is given.
abbrev pub outcome : Ending → List Write
outcome (returned session) = message_status MessageStatus.completed ∷ []
outcome failed = message_status MessageStatus.error ∷ []
outcome (panicked n) = []

select-append :
    (xs ys : List Write) → select is_status (xs ++ ys) ≡ select is_status xs ++ select is_status ys
select-append [] ys = refl
select-append (x ∷ xs) ys = ground (arith, select-append xs ys)

select-batches :
    (final : List Block) (ws : List Write) → All (IsBatchOf final) ws → select is_status ws ≡ []
select-batches final [] h = refl
select-batches final (content_blocks bs ∷ ws) h = select-batches final ws h.1
select-batches final (tool_calls cs ∷ ws) h = select-batches final ws h.1
select-batches final (conversation_status s ∷ ws) h = absurd h.0
select-batches final (extra x ∷ ws) h = absurd h.0
select-batches final (message_status s ∷ ws) h = absurd h.0
select-batches final (title_from t ∷ ws) h = absurd h.0
select-batches final (updated_at ∷ ws) h = absurd h.0

select-leaked : (a : Aggregator) (n : ℕ) → select is_status (batches a n) ≡ []
unfolding batches
select-leaked a zero = refl
select-leaked a (suc n) = select-leaked a n

-- The writes from the end of the execution on.
abbrev closing : Aggregator → Ending → List Write
closing a e = finish a e ++ (conversation_status ConversationStatus.completed ∷ leaked a e)

select-titles :
    (t : Text) (ws : List Write) → select is_status (titles t ++ ws) ≡ select is_status ws
select-titles [] ws = refl
select-titles (c ∷ t) ws = refl

select-closing :
    (a : Aggregator) (e : Ending)
    → select is_status (closing a e)
      ≡ outcome e ++ conversation_status ConversationStatus.completed ∷ []
unfolding finish leaked
select-closing a failed = refl
select-closing a (panicked n) =
    ap (◌∷◌ (conversation_status ConversationStatus.completed)) (select-leaked a n)
select-closing a (returned session) = ap (◌∷◌ (message_status MessageStatus.completed)) (
    ap (select is_status) (append_assoc (titles a.assistant_content) (updated_at ∷ []) _)
    ∙ select-titles a.assistant_content _)

module _ (ss : List Step) where
  abbrev stream : List Block
  stream = blocks_of_stream (events ss)

  abbrev final : Aggregator
  final = handle_all empty (events ss)

  run-TurnOf :
      (e : Ending)
      → TurnOf ss
          (execute_and_persist ss e)
          (finish final e ++ (conversation_status ConversationStatus.completed ∷ leaked final e))
  unfolding execute_and_persist
  run-TurnOf e = record {
    batched = (during empty ss).0;
    only_batches = rw (sym (Adds-handle_all (events ss) empty).blocks) (during-batches ss empty);
    in_order = rw (during-state ss empty) (
        ap (◌∷◌ (conversation_status ConversationStatus.running))
          (append_assoc (during empty ss).0 (finish final e) _));
  }

  -- A turn whose execution returns a session id writes, whatever the order of events and batch
  -- ticks: the conversation as running; batches, whose blocks the final blocks continue; the
  -- blocks of the stream; message data with that session id and the text of those blocks, absent
  -- if empty; the message as completed; a title from that text unless it is empty; the update
  -- time; and last the conversation as completed.
  pub execute_and_persist-returned :
      (session : Text)
      → (x : Extra) × (x.session_id ≡ session)
        × (x.content ≡ non_empty (text_of stream))
        × TurnOf ss (execute_and_persist ss (returned session)) (
            content_blocks stream
              ∷ extra x
              ∷ message_status MessageStatus.completed
              ∷ (titles (text_of stream) ++ updated_at ∷ [])
            ++ conversation_status ConversationStatus.completed ∷ [])
  unfolding finish leaked
  execute_and_persist-returned session =
      let added = Adds-handle_all (events ss) empty in
      (
        finalize session final,
        (finalize-content session final).0,
        (finalize-content session final).1 ∙ ap non_empty added.text,
        subst (TurnOf ss (execute_and_persist ss (returned session)))
            (ap₂ (ending (finalize session final)) added.blocks added.text)
            (run-TurnOf (returned session)),
      )

  -- A turn whose execution fails writes, whatever the order of events and batch ticks: the
  -- conversation as running; batches, whose blocks the blocks of the stream continue; the message
  -- as in error; and last the conversation as completed.
  execute_and_persist-failed :
      TurnOf ss
        (execute_and_persist ss failed)
        (message_status MessageStatus.error ∷ conversation_status ConversationStatus.completed ∷ [])
  unfolding finish leaked
  execute_and_persist-failed = run-TurnOf failed

  -- However a turn ends, and whatever the order of its events and batch ticks: of the writes of a
  -- status, the first sets the conversation running and the last sets it completed; between them
  -- the message is set completed if the execution returned, and in error if it failed; if it
  -- panicked, no status of the message is written.
  pub execute_and_persist-statuses :
      (e : Ending)
      → select is_status (execute_and_persist ss e)
        ≡ conversation_status ConversationStatus.running
          ∷ (outcome e ++ conversation_status ConversationStatus.completed ∷ [])
  execute_and_persist-statuses e =
      let turn = run-TurnOf e in
      ap (select is_status) turn.in_order
      ∙ ap (◌∷◌ (conversation_status ConversationStatus.running)) (
          select-append turn.batched _
          ∙ ap (λ ws. ws ++ select is_status (closing final e))
              (select-batches stream turn.batched turn.only_batches)
          ∙ select-closing final e)
