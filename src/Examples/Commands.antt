-- ===== src/Examples/Commands.antt =====
-- A claude CLI that cannot resume a session.
use cc_tunnel.Common.{
  ◌≡◌, refl, sym, ◌⊎◌, inl, inr, Bool-cases, same_text-≡, All, Bool, true, false, Option, none,
  some, List, [], ◌∷◌, ◌++◌, Text, codes, any, same_text, if◌then◌else◌,
}
use mathlib.Core.Path.{subst}
use mathlib.Core.List.{Memᴰ}
use cc_tunnel.Cli.{Speaker, ExecuteRequest, build_args}
use cc_tunnel.Cli.Args.{
  Arg, set, switch, before, takes_value, switches, is_switch, opens, OptionReader,
}
use cc_tunnel.Cli.Search.{contains_resume_error, contains_any, IsPart, contains_any-decides}
use cc_tunnel.Cli.Run.{Process, done, panicked, stream_to_writer}
use cc_tunnel.Cli.Run.Fallback.{IsRetold, body, stream_to_writer-fallback, stream_to_writer-panics}

-- The prompt looks like an option.
abbrev request : ExecuteRequest
request = record {
  prompt = codes "--help";
  session_id = codes "s-1";
  model = [];
  system_prompt = [];
  conversation_history = record { role = Speaker.user; content = codes "hi" } ∷ [];
  allowed_tools = codes "Bash" ∷ [];
  permission_mode = [];
  include_partial_messages = true;
  include_hook_events = false;
}

data Mode : Type 0 where
  next : Mode
  value_of : Text → Mode
  prompt : Mode

-- A reader that knows the options which take a value.
read_from : Mode → List Text → List Arg × Option Text
read_from mode [] = ([], none)
read_from Mode.next (a ∷ rest) =
    let value = read_from (Mode.value_of a) rest in
    let other = before (switch a) (read_from Mode.next rest) in
    let last = read_from Mode.prompt rest in
    if takes_value a then value else if same_text a (codes "--") then last else other
read_from (Mode.value_of name) (a ∷ rest) = before (set name a) (read_from Mode.next rest)
read_from Mode.prompt (a ∷ rest) = ([], some a)

abbrev read_options : List Text → List Arg × Option Text
read_options = read_from Mode.next

-- What holds of each of some texts holds of a text that is one of them.
any-same :
    (P : Text → Type 0) (a : Text) (xs : List Text) → All P xs → any (same_text a) xs ≡ true → P a
any-same P a [] ps h = cc
any-same P a (x ∷ xs) (p, ps) h = elim (Bool-cases (same_text a x)) [
  | inl e ↦ subst P (sym (same_text-≡ a x e)) p
  | inr e ↦ any-same P a xs ps (rw e at h)
]

is_switch-other :
    (a : Text) → is_switch a ≡ true → (takes_value a ≡ false) × (same_text a (codes "--") ≡ false)
is_switch-other a h =
    any-same (λ x. (takes_value x ≡ false) × (same_text x (codes "--") ≡ false)) a switches
      (both, (both, (both, (both, (both, (both, tt)))))) h
  where
    both : ◌≡◌ {A = Bool} false false × ◌≡◌ {A = Bool} false false
    both = (refl, refl)

read_options-switch :
    (a : Text) (rest : List Text)
    → is_switch a ≡ true
    → read_options (a ∷ rest) ≡ before (switch a) (read_options rest)
unfolding read_from
read_options-switch a rest h =
    let (no_value, no_end) = is_switch-other a h in rw (no_value, no_end) refl

read_options-value :
    (a value : Text) (rest : List Text)
    → takes_value a ≡ true
    → opens rest ≡ true
    → read_options (a ∷ value ∷ rest) ≡ before (set a value) (read_options rest)
unfolding read_from
read_options-value a value rest h k = rw h refl

read_options-terminator : (p : Text) → read_options (codes "--" ∷ p ∷ []) ≡ ([], some p)
unfolding read_from
read_options-terminator p = refl

abbrev reader : OptionReader
reader = record {
  read = read_options;
  on_switch = read_options-switch;
  on_value = read_options-value;
  on_terminator = read_options-terminator;
}

abbrev words : List Text
words = codes "b" ∷ codes "cd" ∷ []

contains_any_example :
    ((contains_any (codes "acd") words ≡ true)
      × ((sub : Text) × Memᴰ sub words × IsPart sub (codes "acd")))
    ⊎ ((contains_any (codes "acd") words ≡ false)
        × ((sub : Text) → Memᴰ sub words → ¬ IsPart sub (codes "acd")))
contains_any_example = contains_any-decides (codes "acd") words

-- The request that the fallback makes.
abbrev retold : ExecuteRequest
retold = record request {
  session_id = [];
  prompt =
      codes "You are continuing a conversation. Here is the conversation history:\n\n"
      ++ (codes "[User]: hi\n" ++ codes "\nPlease respond to the latest user message:\n--help");
}

request-IsRetold : IsRetold request retold
request-IsRetold = record {
  session_id = refl;
  told = codes "[User]: hi\n";
  tells = (codes "[User]: hi\n", [], refl, refl, refl);
  prompt = refl;
  model = refl;
  system_prompt = refl;
  history = refl;
  allowed_tools = refl;
  permission_mode = refl;
  partial = refl;
  hooks = refl;
}

-- With a session to resume it prints an error, else the given line.
abbrev claude : Text → List Text → Process
claude line args = record {
  starts = true;
  lines =
      if any (same_text (codes "--resume")) args then codes "session not found" ∷ [] else line ∷ [];
  exits_ok = true;
}

abbrev always : Text → Bool
always t = true

fallback_example :
    stream_to_writer always (claude (codes "ok")) request []
    ≡ (done, ([] ++ body []) ++ body (claude (codes "ok") (build_args retold false)).lines)
unfolding build_args contains_resume_error cc_tunnel.Cli.build_fallback_prompt
fallback_example =
    stream_to_writer-fallback always (λ t. refl) (claude (codes "ok")) request retold
      request-IsRetold [] [] refl refl
      (record {
        starts = refl;
        bad = codes "session not found";
        rest = [];
        lines = refl;
        clean = tt;
        is_bad = refl;
      })
      (record { starts = refl; clean = (refl, tt) }) refl

panics_example :
    stream_to_writer always (claude (codes "an invalid session")) request []
    ≡ (panicked, ([] ++ body []) ++ body [])
unfolding build_args contains_resume_error cc_tunnel.Cli.build_fallback_prompt
panics_example =
    stream_to_writer-panics always (λ t. refl) (claude (codes "an invalid session")) request retold
      request-IsRetold [] [] [] refl refl
      (record {
        starts = refl;
        bad = codes "session not found";
        rest = [];
        lines = refl;
        clean = tt;
        is_bad = refl;
      })
      (record {
        starts = refl;
        bad = codes "an invalid session";
        rest = [];
        lines = refl;
        clean = tt;
        is_bad = refl;
      })
