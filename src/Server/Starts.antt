-- ===== src/Server/Starts.antt =====
-- What a message to a conversation starts.
use cc_tunnel.Common.{
  ℕ, ◌≡◌, refl, sym, ap, ◌∙◌, inl, inr, Bool, true, false, none, some, List, [], ◌∷◌, ◌++◌, Text,
  codes, any, select, sort_by, Bool-cases, ok, err, Error, Result, Action, Holds,
}
use cc_tunnel.Chat.{end, field, string, Role, MessageStatus, Message, Tables}
use cc_tunnel.Chat.Rows.{
  is_message, is_of, list_messages, create_message, create_streaming_message, get_conversation,
  insert_message, is_conversation,
}
use cc_tunnel.Turn.History.{find_resume_session_id, build_execute_request}
use cc_tunnel.Turn.Session.{Ends}
use cc_tunnel.Server.{Server, Response, query, Answers, Checked, passed, rejected}
use cc_tunnel.Server.Send.{Job, Sent, sent_or, send_message, with_credentials}

-- What holds of an execution that a message starts, and of the server then.
abbrev pub Starts {κ} : (Job → Server → Type κ) → Sent → Type κ
Starts P (r, none, h) = Unit
Starts P (r, some job, h) = P job h

module _ {κ} {A : Type 0} (P : Job → Server → Type κ) (refuse : Error → Response)
    (f : A → Server → Sent) (h : Server) where
  -- Through a statement that only reads.
  Starts-read :
      (b : Bool) (m : Action Tables A) (r : Result A)
      → m h.tables ≡ (r, h.tables)
      → ((a : A) → r ≡ ok a → Starts P (f a h))
      → Starts P (sent_or (query b m h.tables) refuse f h)
  Starts-read false m r e k = tt
  Starts-read true m r e k = rw e (go r refl)
    where
      go : (q : Result A) → r ≡ q → Starts P (sent_or (q, h.tables) refuse f h)
      go (ok a) s = k a s
      go (err x) s = tt

  -- Through one that writes.
  Starts-write {μ} :
      {Q : A → Tables → Type μ} (b : Bool) (m : Action Tables A)
      → Holds Q (m h.tables)
      → ((a : A) (t : Tables) → Q a t → Starts P (f a (record h { tables = t })))
      → Starts P (sent_or (query b m h.tables) refuse f h)
  Starts-write false m q k = tt
  Starts-write {Q = Q} true m q k = go (m h.tables) q
    where
      go : (p : Result A × Tables) → Holds Q p → Starts P (sent_or p refuse f h)
      go (ok a, t) q = k a t q
      go (err x, t) q = tt

record Inserted (m : Message) (before : Tables) (n : Message) (t : Tables) : Type 0 where
  row : n ≡ m
  rows : t.messages ≡ before.messages ++ m ∷ []
  new : any (is_message m.id) before.messages ≡ false

insert_message-Inserted : (m : Message) (t : Tables) → Holds (Inserted m t) (insert_message m t)
insert_message-Inserted m t = elim (Bool-cases (any (is_message m.id) t.messages)) [
  | inl e ↦ rw e tt
  | inr e ↦ elim (Bool-cases (any (is_conversation m.conversation_id) t.conversations)) [
    | inl k ↦ rw (e, k) (record { row = refl; rows = refl; new = e })
    | inr k ↦ rw (e, k) tt
  ]
]

abbrev value_or : List Message → Result (List Message) → List Message
value_or d (ok a) = a
value_or d (err e) = d

abbrev pub user_row : ℕ → ℕ → ℕ → Text → Message
user_row id now conversation_id content = record {
  id = id;
  conversation_id = conversation_id;
  role = Role.user;
  message_data = field (codes "content") (string content) end;
  status = MessageStatus.completed;
  created_at = now;
  updated_at = now;
}

abbrev pub reply_row : ℕ → ℕ → ℕ → Message
reply_row id now conversation_id = record {
  id = id;
  conversation_id = conversation_id;
  role = Role.assistant;
  message_data = end;
  status = MessageStatus.streaming;
  created_at = now;
  updated_at = now;
}

-- The messages of a conversation, oldest first.
abbrev pub history_of : ℕ → Tables → List Message
history_of conversation_id t =
    sort_by (λ m. m.created_at) (select (is_of conversation_id) t.messages)

module _ (uuid : ℕ → Text) (answers : Answers) (authorization : Text)
    (user_id user_now reply_id reply_now conversation_id : ℕ) where
  -- The execution that is started, with the message's reply as the last row.
  pub record Started (content : Text) (h : Server) (job : Job) (h' : Server) : Type 0 where
    pub ends :
        Ends reply_id h'.tables
          (h.tables.messages ++ user_row user_id user_now conversation_id content ∷ [])
          (reply_row reply_id reply_now conversation_id)
    pub message_id : job.message_id ≡ reply_id
    pub resumes :
        job.request.session_id ≡ find_resume_session_id (history_of conversation_id h.tables)

  with_credentials-Started :
      (content : Text) (checked : Checked Text) (h : Server)
      → Starts (Started content h) (
          with_credentials uuid answers authorization user_id user_now reply_id reply_now
            conversation_id content checked h)
  unfolding get_conversation list_messages create_message create_streaming_message
      build_execute_request
  with_credentials-Started content (rejected r) h = tt
  with_credentials-Started content (passed json) h =
      Starts-read (Started content h) _ _ h (answers 1) (get_conversation conversation_id) _ refl
        (λ conv _.
          Starts-read (Started content h) _ _ h (answers 2) (list_messages conversation_id) _ refl
            (λ history listed.
              Starts-write (Started content h) _ _ h (answers 3) _
                (insert_message-Inserted (user_row user_id user_now conversation_id content)
                  h.tables)
                (λ m t u.
                  Starts-write (Started content h) _ _ (record h { tables = t }) (answers 4) _
                    (insert_message-Inserted (reply_row reply_id reply_now conversation_id) t)
                    (λ n t' v. record {
                      ends = record {
                        rows =
                            v.rows
                            ∙ ap (λ ms. ms ++ reply_row reply_id reply_now conversation_id ∷ [])
                                u.rows;
                        has_id = refl;
                        only = ap (any (is_message reply_id)) (sym u.rows) ∙ v.new;
                      };
                      message_id = ap (λ (r : Message). r.id) v.row;
                      resumes = ap find_resume_session_id (ap (value_or history) (sym listed));
                    }))))

  pub send_message-Started :
      (content : Text) (h : Server)
      → Starts (Started content h) (
          send_message uuid answers authorization user_id user_now reply_id reply_now
            conversation_id
            (some content)
            h)
  unfolding send_message
  send_message-Started [] h = tt
  send_message-Started (c ∷ cs) h = with_credentials-Started (c ∷ cs) _ h
