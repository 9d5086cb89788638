-- ===== src/Server/Resumes.antt =====
-- A turn and the next message of its conversation: the session that the one leaves is the one that
-- the other resumes.
use cc_tunnel.Common.{
  ℕ, ◌≡◌, refl, ap, ◌∙◌, ◌<◌, false, some, List, [], ◌∷◌, ◌++◌, Text, ==_iff, is_empty, select-last,
  select, All, All-append, sort_by, sort_by-last,
}
use mathlib.Core.Path.{subst}
use cc_tunnel.Chat.{Role, Message, Tables}
use cc_tunnel.Chat.Rows.{is_of}
use cc_tunnel.Turn.History.{session_id_of, find_resume_session_id}
use cc_tunnel.Turn.Resume.{find_resume_session_id-newest, offers}
use cc_tunnel.Turn.Persist.{Write, Step, returned, execute_and_persist}
use cc_tunnel.Turn.Apply.{apply_writes}
use cc_tunnel.Turn.Session.{
  Ends, After, session_in, apply_writes-After, session_after_all,
  session_after_all-execute_and_persist,
}
use cc_tunnel.Server.{Server, Response, Answers}
use cc_tunnel.Server.Send.{Job, send_message}
use cc_tunnel.Server.Starts.{Starts, user_row, reply_row, history_of, Started, send_message-Started}

offers-session : (m : Message) → m.role ≡ Role.assistant → offers m ≡ session_in m.message_data
offers-session m e = ap (λ r. session_id_of r m.message_data) e

module _ (conversation_id : ℕ) (earlier : List Message) (m : Message) where
  -- The history ends with a row that is later than the conversation's others.
  history_of-last :
      (t : Tables)
      → t.messages ≡ earlier ++ m ∷ []
      → m.conversation_id ≡ conversation_id
      → All (λ n. n.created_at < m.created_at) (select (is_of conversation_id) earlier)
      → history_of conversation_id t
        ≡ sort_by (λ n. n.created_at) (select (is_of conversation_id) earlier) ++ m ∷ []
  history_of-last t rows same later =
      rw
        (
          rows,
          select-last (is_of conversation_id) earlier m
              ((==_iff m.conversation_id conversation_id).1 same),
        )
        (sort_by-last (λ n. n.created_at) m (select (is_of conversation_id) earlier) later)

module _ (title : Text → Text) (conversation_id : ℕ) where
  -- The history after a turn, whose message was the last row.
  turn-resumed :
      (user_id user_now reply_id reply_now : ℕ) (content : Text) (rows : List Message)
      (started ended : Tables)
      → Ends reply_id started
          (rows ++ user_row user_id user_now conversation_id content ∷ [])
          (reply_row reply_id reply_now conversation_id)
      → All (λ m. m.created_at < reply_now) (select (is_of conversation_id) rows)
      → user_now < reply_now
      → (now : ℕ) (ss : List Step) (session : Text) → is_empty session ≡ false
      → ended
        ≡ apply_writes title conversation_id reply_id now
            (execute_and_persist ss (returned session))
            started
      → find_resume_session_id (history_of conversation_id ended) ≡ session
  turn-resumed ui un ri rn content rows started ended ends earlier before now ss session some_id
        same =
      rw
        (history_of-last conversation_id before_row a.row ended
          (ap (λ t. t.messages) same ∙ a.ends.rows) a.same.conversation_id later)
        (find_resume_session_id-newest _ a.row (ap is_empty offered ∙ some_id) ∙ offered)
    where
      user : Message
      user = user_row ui un conversation_id content

      before_row : List Message
      before_row = rows ++ user ∷ []

      ws : List Write
      ws = execute_and_persist ss (returned session)

      a :
          After ri
            (apply_writes title conversation_id ri now ws started)
            before_row
            (reply_row ri rn conversation_id)
            (session_after_all ws [])
      a =
          apply_writes-After title conversation_id ri before_row now ws started
            (reply_row ri rn conversation_id) ends

      offered : offers a.row ≡ session
      offered =
          offers-session a.row a.same.role
          ∙ a.session
          ∙ session_after_all-execute_and_persist ss session []

      later : All (λ n. n.created_at < a.row.created_at) (select (is_of conversation_id) before_row)
      later =
          rw
            (
              a.same.created_at,
              select-last (is_of conversation_id) rows user
                  ((==_iff conversation_id conversation_id).1 refl),
            )
            (All-append (λ n. n.created_at < rn) (select (is_of conversation_id) rows) (user ∷ [])
              earlier (before, tt))

module _ (uuid : ℕ → Text) (title : Text → Text) (conversation_id : ℕ) where
  -- A message starts an execution; the execution returns a non-empty session id, its writes are
  -- applied, whatever the order of its events and batch ticks; and a further message to the
  -- conversation starts an execution. Where the first reply is later than the conversation's other
  -- messages, the second execution resumes that session.
  pub send_message-resumes :
      (answers : Answers) (authorization : Text) (user_id user_now reply_id reply_now : ℕ)
      (content : Text) (h h' : Server) (response : Response) (job : Job)
      → send_message uuid answers authorization user_id user_now reply_id reply_now conversation_id
          (some content)
          h
        ≡ (response, some job, h')
      → All (λ m. m.created_at < reply_now) (select (is_of conversation_id) h.tables.messages)
      → user_now < reply_now
      → (ss : List Step) (session : Text) → is_empty session ≡ false
      → (now : ℕ) (next : Server)
      → next.tables
        ≡ apply_writes title conversation_id job.message_id now
            (execute_and_persist ss (returned session))
            h'.tables
      → (answers' : Answers) (authorization' : Text) (user_id' user_now' reply_id' reply_now' : ℕ)
        (content' : Text) (last : Server) (response' : Response) (job' : Job)
      → send_message uuid answers' authorization' user_id' user_now' reply_id' reply_now'
          conversation_id
          (some content')
          next
        ≡ (response', some job', last)
      → job'.request.session_id ≡ session
  send_message-resumes answers authorization ui un ri rn content h h' response job e earlier before
        ss session some_id now next applied answers' authorization' ui' un' ri' rn' content' last
        response' job' e' =
      let first : Started uuid answers authorization ui un ri rn conversation_id content h job h' =
        subst (Starts (Started uuid answers authorization ui un ri rn conversation_id content h)) e
          (send_message-Started uuid answers authorization ui un ri rn conversation_id content h) in
      let second : Started uuid answers' authorization' ui' un' ri' rn' conversation_id content'
          next job' last =
        subst
          (Starts
            (Started uuid answers' authorization' ui' un' ri' rn' conversation_id content' next))
          e'
          (send_message-Started uuid answers' authorization' ui' un' ri' rn' conversation_id
            content' next) in
      second.resumes
      ∙ turn-resumed title conversation_id ui un ri rn content h.tables.messages h'.tables
          next.tables first.ends earlier before now ss session some_id
          (rw first.message_id at applied)
