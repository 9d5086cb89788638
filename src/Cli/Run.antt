-- ===== src/Cli/Run.antt =====
-- runStream and StreamToWriter of executor.go. A process that starts also ends.
pub mod Fallback
use cc_tunnel.Common.{
  ℕ, Bool, true, false, ◌&&◌, not, Option, none, some, List, [], ◌∷◌, ◌++◌, Text, if◌then◌else◌,
  is_empty, codes,
}
use cc_tunnel.Cli.{ExecuteRequest, build_args, build_fallback_prompt}
use cc_tunnel.Cli.Search.{contains_resume_error}

-- What a run of the CLI does: whether it starts, the lines that bufio.Scanner reads of its output,
-- and whether it exits with 0.
pub record Process : Type 0 where
  pub starts : Bool
  pub lines : List Text
  pub exits_ok : Bool

-- The error that StreamToWriter returns, none of it, or a panic: a call of a nil function.
pub data Outcome : Type 0 where
  done failed panicked : Outcome

pub data Reading : Type 0 where
  all_read resume_error write_error : Reading

module _ (accepts : Text → Bool) where
  -- The loop over the lines; a write is accepted or refused, by what was written before.
  unfoldable pub forward : List Text → Text → Reading × Text
  forward [] out = (all_read, out)
  forward (l ∷ ls) out =
      let rest = forward ls ((out ++ l) ++ codes "\n") in
      if contains_resume_error l
      then (resume_error, out)
      else if not (accepts out)
      then (write_error, out)
      else if not (accepts (out ++ l))
      then (write_error, out ++ l)
      else rest

  -- `onError()`.
  abbrev pub call : Option (Text → Outcome × Text) → Text → Outcome × Text
  call none out = (panicked, out)
  call (some f) out = f out

  abbrev pub on_exit : Bool → Option (Text → Outcome × Text) → Text → Outcome × Text
  on_exit true on_error out = (done, out)
  on_exit false none out = (failed, out)
  on_exit false (some f) out = f out

  abbrev pub after_reading : Bool → Option (Text → Outcome × Text) → Reading × Text → Outcome × Text
  after_reading ok on_error (write_error, out) = (failed, out)
  after_reading ok on_error (resume_error, out) = call on_error out
  after_reading ok on_error (all_read, out) = on_exit ok on_error out

  unfoldable pub run_stream : Process → Option (Text → Outcome × Text) → Text → Outcome × Text
  unfolding forward
  run_stream p on_error out =
      if p.starts then after_reading p.exits_ok on_error (forward p.lines out) else (failed, out)

  abbrev pub fallback_request : ExecuteRequest → ExecuteRequest
  fallback_request req = record req {
    session_id = [];
    prompt = build_fallback_prompt req.conversation_history req.prompt;
  }

  -- The function that StreamToWriter gives to runStream.
  unfoldable pub fall_back : (List Text → Process) → ExecuteRequest → Text → Outcome × Text
  unfolding run_stream
  fall_back claude req out =
      if not (is_empty req.session_id) && not (is_empty req.conversation_history)
      then run_stream (claude (build_args (fallback_request req) false)) none out
      else (failed, out)

  -- `claude` is what a run with these arguments does.
  unfoldable pub stream_to_writer : (List Text → Process) → ExecuteRequest → Text → Outcome × Text
  unfolding run_stream fall_back
  stream_to_writer claude req out =
      run_stream (claude (build_args req false)) (some (fall_back claude req)) out
