-- ===== src/Cli/Run/Fallback.antt =====
-- What reaches the client when a session cannot be resumed.
use cc_tunnel.Common.{
  ◌≡◌, refl, sym, ap, ◌∙◌, Bool, true, false, List, [], ◌∷◌, ◌++◌, Text, is_empty, codes, All, none,
}
use mathlib.Core.Path.{ap₂}
use mathlib.Core.List.{append_assoc, append-nil}
use cc_tunnel.Cli.{
  Speaker, ConversationMsg, ExecuteRequest, build_args, line_of, history_text,
  build_fallback_prompt,
}
use cc_tunnel.Cli.Search.{contains_resume_error}
use cc_tunnel.Cli.Run.{
  Process, done, panicked, all_read, resume_error, forward, run_stream, fallback_request, fall_back,
  stream_to_writer,
}

abbrev pub IsClean : Text → Type 0
IsClean l = contains_resume_error l ≡ false

-- The lines of an ndjson body.
abbrev pub body : List Text → Text
body [] = []
body (l ∷ ls) = l ++ (codes "\n" ++ body ls)

-- A run of which the first line with a resume error comes after `before`.
pub record Breaks (p : Process) (before : List Text) : Type 0 where
  pub starts : p.starts ≡ true
  pub bad : Text
  pub rest : List Text
  pub lines : p.lines ≡ before ++ bad ∷ rest
  pub clean : All IsClean before
  pub is_bad : contains_resume_error bad ≡ true

-- A run without a resume error.
pub record IsFine (p : Process) : Type 0 where
  pub starts : p.starts ≡ true
  pub clean : All IsClean p.lines

-- How a message of the history is told; one of another role is left out.
abbrev pub Tells : Speaker → Text → Text → Type 0
Tells Speaker.user content t = t ≡ codes "[User]: " ++ (content ++ codes "\n")
Tells Speaker.assistant content t = t ≡ codes "[Assistant]: " ++ (content ++ codes "\n")
Tells Speaker.system content t = t ≡ codes "[System]: " ++ (content ++ codes "\n")
Tells Speaker.other content t = t ≡ []

-- A text that tells the messages one after the other.
abbrev pub TellsAll : List ConversationMsg → Text → Type 0
TellsAll [] t = t ≡ []
TellsAll (m ∷ ms) t =
    (first : Text) × (rest : Text) × Tells m.role m.content first
    × TellsAll ms rest
    × (t ≡ first ++ rest)

-- The request `r` asks without a session what `req` asks, with the history told in its prompt
-- before the prompt of `req`, and is otherwise the same.
pub record IsRetold (req r : ExecuteRequest) : Type 0 where
  pub session_id : r.session_id ≡ []
  pub told : Text
  pub tells : TellsAll req.conversation_history told
  pub prompt :
      r.prompt
      ≡ codes "You are continuing a conversation. Here is the conversation history:\n\n"
        ++ (told ++ (codes "\nPlease respond to the latest user message:\n" ++ req.prompt))
  pub model : r.model ≡ req.model
  pub system_prompt : r.system_prompt ≡ req.system_prompt
  pub history : r.conversation_history ≡ req.conversation_history
  pub allowed_tools : r.allowed_tools ≡ req.allowed_tools
  pub permission_mode : r.permission_mode ≡ req.permission_mode
  pub partial : r.include_partial_messages ≡ req.include_partial_messages
  pub hooks : r.include_hook_events ≡ req.include_hook_events

Tells-line_of : (s : Speaker) (content t : Text) → Tells s content t → t ≡ line_of s content
Tells-line_of Speaker.user content t h = h ∙ sym (append_assoc (codes "[User]: ") content _)
Tells-line_of Speaker.assistant content t h =
    h ∙ sym (append_assoc (codes "[Assistant]: ") content _)
Tells-line_of Speaker.system content t h = h ∙ sym (append_assoc (codes "[System]: ") content _)
Tells-line_of Speaker.other content t h = h

TellsAll-history_text : (ms : List ConversationMsg) (t : Text) → TellsAll ms t → t ≡ history_text ms
TellsAll-history_text [] t h = h
TellsAll-history_text (m ∷ ms) t (first, rest, one, others, e) =
    e ∙ ap₂ ◌++◌ (Tells-line_of m.role m.content first one) (TellsAll-history_text ms rest others)

IsRetold-prompt :
    (req r : ExecuteRequest)
    → IsRetold req r
    → r.prompt ≡ build_fallback_prompt req.conversation_history req.prompt
unfolding build_fallback_prompt
IsRetold-prompt req r h =
    h.prompt
    ∙ rw (TellsAll-history_text req.conversation_history h.told h.tells) (
        sym (
          append_assoc (intro ++ history_text req.conversation_history) _ req.prompt
          ∙ append_assoc intro (history_text req.conversation_history) _))
  where
    intro : Text
    intro = codes "You are continuing a conversation. Here is the conversation history:\n\n"

module _ (accepts : Text → Bool) where
  IsRetold-fallback_request :
      (req r : ExecuteRequest) → IsRetold req r → fallback_request accepts req ≡ r
  IsRetold-fallback_request req r h = λ i. record {
    prompt = sym (IsRetold-prompt req r h) i;
    session_id = sym h.session_id i;
    model = sym h.model i;
    system_prompt = sym h.system_prompt i;
    conversation_history = sym h.history i;
    allowed_tools = sym h.allowed_tools i;
    permission_mode = sym h.permission_mode i;
    include_partial_messages = sym h.partial i;
    include_hook_events = sym h.hooks i;
  }

module _ (accepts : Text → Bool) (always : (t : Text) → accepts t ≡ true) where
  forward-append :
      (ls rest : List Text) (out : Text)
      → All IsClean ls
      → forward accepts (ls ++ rest) out ≡ forward accepts rest (out ++ body ls)
  unfolding forward
  forward-append [] rest out h = rw (append-nil out) refl
  forward-append (l ∷ ls) rest out h =
      rw (h.0, always out, always (out ++ l))
        (forward-append ls rest _ h.1
          ∙ ap (forward accepts rest) (
              append_assoc (out ++ l) (codes "\n") (body ls)
              ∙ append_assoc out l (codes "\n" ++ body ls)))

  forward-Breaks :
      (p : Process) (before : List Text) (out : Text)
      → Breaks p before
      → forward accepts p.lines out ≡ (resume_error, out ++ body before)
  unfolding forward
  forward-Breaks p before out b =
      rw (b.lines, forward-append before (b.bad ∷ b.rest) out b.clean, b.is_bad) refl

  forward-IsFine :
      (p : Process) (out : Text)
      → IsFine p
      → forward accepts p.lines out ≡ (all_read, out ++ body p.lines)
  unfolding forward
  forward-IsFine p out f =
      ap (λ ls. forward accepts ls out) (sym (append-nil p.lines))
      ∙ forward-append p.lines [] out f.clean

  module _ (claude : List Text → Process) (req r : ExecuteRequest) (retold : IsRetold req r)
      (before : List Text) where
    abbrev first : Process
    first = claude (build_args req false)

    abbrev second : Process
    second = claude (build_args r false)

    -- The run that resumes breaks; then the fallback goes on with what was written.
    stream_to_writer-fall_back :
        (out : Text)
        → is_empty req.session_id ≡ false
        → is_empty req.conversation_history ≡ false
        → Breaks first before
        → stream_to_writer accepts claude req out
          ≡ run_stream accepts second none (out ++ body before)
    unfolding stream_to_writer run_stream fall_back
    stream_to_writer-fall_back out s h b =
        rw
          (
            b.starts,
            forward-Breaks first before out b,
            s,
            h,
            IsRetold-fallback_request accepts req r retold,
          )
          refl

    -- When all writes are accepted, the request names a session and has a history, the run that
    -- resumes prints a resume error after the lines `before`, and the run of the request without a
    -- session, whose prompt tells the history and then the prompt, has none and exits with 0, the
    -- client gets `before` and then every line of the second run, and no error is returned.
    pub stream_to_writer-fallback :
        (out : Text)
        → is_empty req.session_id ≡ false
        → is_empty req.conversation_history ≡ false
        → Breaks first before
        → IsFine second
        → second.exits_ok ≡ true
        → stream_to_writer accepts claude req out
          ≡ (done, (out ++ body before) ++ body second.lines)
    unfolding run_stream
    stream_to_writer-fallback out s h b f x =
        stream_to_writer-fall_back out s h b
        ∙ rw (f.starts, forward-IsFine second (out ++ body before) f, x) refl

    -- When all writes are accepted, the request names a session and has a history, the run that
    -- resumes prints a resume error after the lines `before`, and the run of the request without a
    -- session, whose prompt tells the history and then the prompt, prints one after the lines
    -- `before'`, the client gets both groups of lines and the code panics.
    pub stream_to_writer-panics :
        (before' : List Text) (out : Text)
        → is_empty req.session_id ≡ false
        → is_empty req.conversation_history ≡ false
        → Breaks first before
        → Breaks second before'
        → stream_to_writer accepts claude req out ≡ (panicked, (out ++ body before) ++ body before')
    unfolding run_stream
    stream_to_writer-panics before' out s h b c =
        stream_to_writer-fall_back out s h b
        ∙ rw (c.starts, forward-Breaks second before' (out ++ body before) c) refl
