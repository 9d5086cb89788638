-- ===== src/Turn/Session.antt =====
-- The session id that a turn leaves in its message.
use cc_tunnel.Common.{
  ℕ, ◌+◌, ◌≡◌, refl, ap, ◌∙◌, false, List, [], ◌∷◌, ◌++◌, Text, codes, update_where,
  update_where-last, ==_iff, any, All,
}
use cc_tunnel.Chat.{Fields, end, field, Message, Tables, ConversationStatus, merge}
use cc_tunnel.Chat.Merging.{get-merge_kept, get-merge_new}
use cc_tunnel.Chat.Rows.{is_message}
use cc_tunnel.Stream.{Block}
use cc_tunnel.Stream.Blocks.{blocks_of_stream, text_of}
use cc_tunnel.Turn.History.{string_field, as_string}
use cc_tunnel.Turn.Apply.{
  apply_write, apply_writes, extra_fields, slice, block_json, tool_call_json,
}
use cc_tunnel.Turn.Persist.{
  Write, conversation_status, content_blocks, tool_calls, extra, message_status, title_from,
  updated_at, returned, execute_and_persist, Step, titles,
}
use cc_tunnel.Turn.Writes.{IsBatchOf, execute_and_persist-returned, events}

-- The table ends with the message of an id, which no other has.
pub record Ends (i : ℕ) (t : Tables) (earlier : List Message) (m : Message) : Type 0 where
  pub rows : t.messages ≡ earlier ++ m ∷ []
  pub has_id : m.id ≡ i
  pub only : any (is_message i) earlier ≡ false

-- The writes of a turn change nothing else of its message than the data, status and update time.
pub record Same (m n : Message) : Type 0 where
  pub id : n.id ≡ m.id
  pub conversation_id : n.conversation_id ≡ m.conversation_id
  pub role : n.role ≡ m.role
  pub created_at : n.created_at ≡ m.created_at

abbrev pub session_in : Fields → Text
session_in = string_field (codes "session_id")

-- The session id after a write, from the one before.
abbrev pub session_after : Write → Text → Text
session_after (extra x) sid = x.session_id
session_after _ sid = sid

abbrev pub session_after_all : List Write → Text → Text
session_after_all [] sid = sid
session_after_all (w ∷ ws) sid = session_after_all ws (session_after w sid)

session_after_all-append :
    (ws vs : List Write) (sid : Text)
    → session_after_all (ws ++ vs) sid ≡ session_after_all vs (session_after_all ws sid)
session_after_all-append [] vs sid = refl
session_after_all-append (w ∷ ws) vs sid = session_after_all-append ws vs (session_after w sid)

-- What writes leave of the message.
pub record After (i : ℕ) (t : Tables) (earlier : List Message) (m : Message) (sid : Text)
    : Type 0 where
  pub row : Message
  pub ends : Ends i t earlier row
  pub same : Same m row
  pub session : session_in row.message_data ≡ sid

module _ (title : Text → Text) (conversation_id i : ℕ) (earlier : List Message) where
  -- An update of the message.
  changed :
      (f : Message → Message) (t : Tables) (m : Message) (sid : Text)
      → Ends i t earlier m
      → Same m (f m)
      → session_in (f m).message_data ≡ sid
      → After i (record t { messages = update_where (is_message i) f t.messages }) earlier m sid
  changed f t m sid e same session = record {
    row = f m;
    ends = record {
      rows =
          ap (update_where (is_message i) f) e.rows
          ∙ update_where-last (is_message i) f earlier m e.only ((==_iff m.id i).1 e.has_id);
      has_id = same.id ∙ e.has_id;
      only = e.only;
    };
    same = same;
    session = session;
  }

  kept :
      (t t' : Tables) (m : Message)
      → t'.messages ≡ t.messages
      → Ends i t earlier m
      → After i t' earlier m (session_in m.message_data)
  kept t t' m same e = record {
    row = m;
    ends = record { rows = same ∙ e.rows; has_id = e.has_id; only = e.only };
    same = record { id = refl; conversation_id = refl; role = refl; created_at = refl };
    session = refl;
  }

  abbrev with_data : ℕ → Fields → Message → Message
  with_data now more m = record m { message_data = merge m.message_data more; updated_at = now }

  merged :
      (now : ℕ) (more : Fields) (t : Tables) (m : Message) (sid : Text)
      → Ends i t earlier m
      → session_in (merge m.message_data more) ≡ sid
      → After i
          (record t { messages = update_where (is_message i) (with_data now more) t.messages })
          earlier
          m
          sid
  merged now more t m sid e session =
      changed (with_data now more) t m sid e
        (record { id = refl; conversation_id = refl; role = refl; created_at = refl }) session

  apply_write-After :
      (now : ℕ) (w : Write) (t : Tables) (m : Message)
      → Ends i t earlier m
      → After i
          (apply_write title conversation_id i now w t).1
          earlier
          m
          (session_after w (session_in m.message_data))
  unfolding apply_write
  apply_write-After now (conversation_status s) t m e = kept t _ m refl e
  apply_write-After now (title_from s) t m e = kept t _ m refl e
  apply_write-After now updated_at t m e = kept t _ m refl e
  apply_write-After now (message_status s) t m e =
      changed (λ m. record m { status = s; updated_at = now }) t m _ e
        (record { id = refl; conversation_id = refl; role = refl; created_at = refl }) refl
  apply_write-After now (content_blocks bs) t m e =
      merged now (field (codes "content_blocks") (slice block_json bs) end) t m _ e (
        ap as_string (
          get-merge_kept (codes "session_id") m.message_data
            (field (codes "content_blocks") (slice block_json bs) end) refl))
  apply_write-After now (tool_calls cs) t m e =
      merged now (field (codes "tool_calls") (slice tool_call_json cs) end) t m _ e (
        ap as_string (
          get-merge_kept (codes "session_id") m.message_data
            (field (codes "tool_calls") (slice tool_call_json cs) end) refl))
  apply_write-After now (extra x) t m e =
      merged now (extra_fields x) t m _ e
        (ap as_string (get-merge_new (codes "session_id") m.message_data (extra_fields x) refl))

  pub apply_writes-After :
      (now : ℕ) (ws : List Write) (t : Tables) (m : Message)
      → Ends i t earlier m
      → After i
          (apply_writes title conversation_id i now ws t)
          earlier
          m
          (session_after_all ws (session_in m.message_data))
  unfolding apply_writes
  apply_writes-After now [] t m e = kept t t m refl e
  apply_writes-After now (w ∷ ws) t m e =
      let first = apply_write-After now w t m e in
      let rest = apply_writes-After (now + 1) ws _ first.row first.ends in
      record {
        row = rest.row;
        ends = rest.ends;
        same = record {
          id = rest.same.id ∙ first.same.id;
          conversation_id = rest.same.conversation_id ∙ first.same.conversation_id;
          role = rest.same.role ∙ first.same.role;
          created_at = rest.same.created_at ∙ first.same.created_at;
        };
        session = rest.session ∙ ap (session_after_all ws) first.session;
      }

batches-session :
    (final : List Block) (ws : List Write) (sid : Text)
    → All (IsBatchOf final) ws
    → session_after_all ws sid ≡ sid
batches-session final [] sid h = refl
batches-session final (content_blocks bs ∷ ws) sid h = batches-session final ws sid h.1
batches-session final (tool_calls cs ∷ ws) sid h = batches-session final ws sid h.1
batches-session final (conversation_status s ∷ ws) sid h = absurd h.0
batches-session final (extra x ∷ ws) sid h = absurd h.0
batches-session final (message_status s ∷ ws) sid h = absurd h.0
batches-session final (title_from t ∷ ws) sid h = absurd h.0
batches-session final (updated_at ∷ ws) sid h = absurd h.0

titles-session :
    (t sid : Text) (rest : List Write)
    → session_after_all (titles t ++ rest) sid ≡ session_after_all rest sid
titles-session [] sid rest = refl
titles-session (c ∷ t) sid rest = refl

-- The writes of a turn that returns a session id leave that id.
pub session_after_all-execute_and_persist :
    (ss : List Step) (session sid : Text)
    → session_after_all (execute_and_persist ss (returned session)) sid ≡ session
session_after_all-execute_and_persist ss session sid =
    let (x, same, content, turn) = execute_and_persist-returned ss session in
    let text = text_of (blocks_of_stream (events ss)) in
    rw (turn.in_order, session_after_all-append turn.batched) (ended text x.session_id ∙ same)
  where
    ended :
        (text id : Text)
        → session_after_all
            ((titles text ++ updated_at ∷ [])
              ++ conversation_status ConversationStatus.completed ∷ [])
            id
          ≡ id
    ended text id =
        rw (session_after_all-append (titles text ++ updated_at ∷ []))
          (titles-session text id (updated_at ∷ []))
