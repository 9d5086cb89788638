-- ===== src/Cli.antt =====
-- apps/cc-remote-agent/internal/claude/executor.go: the arguments of the claude CLI, its output,
-- and the fallback when a session cannot be resumed.
pub mod Args
pub mod Search
pub mod Run
use cc_tunnel.Common.{
  ℕ, Bool, true, false, ◌||◌, ◌&&◌, not, List, [], ◌∷◌, ◌++◌, Text, if◌then◌else◌, is_empty, codes,
}

-- The roles that buildFallbackPrompt tells apart.
pub data Speaker : Type 0 where
  user assistant system other : Speaker

pub record ConversationMsg : Type 0 where
  pub role : Speaker
  pub content : Text

-- ExecuteRequest. The budget, which nothing reads, is left out.
pub record ExecuteRequest : Type 0 where
  pub prompt : Text
  pub session_id : Text
  pub model : Text
  pub system_prompt : Text
  pub conversation_history : List ConversationMsg
  pub allowed_tools : List Text
  pub permission_mode : Text
  pub include_partial_messages : Bool
  pub include_hook_events : Bool

-- An option with its value, unless the value is empty.
abbrev pub option : Text → Text → List Text → List Text
option name value args = if is_empty value then args else (name ∷ value ∷ args)

abbrev pub flag : Text → Bool → List Text → List Text
flag name on args = if on then name ∷ args else args

abbrev pub tool_options : List Text → List Text → List Text
tool_options [] args = args
tool_options (t ∷ ts) args = codes "--allowedTools" ∷ t ∷ tool_options ts args

abbrev pub resumed : Bool → Text → Text
resumed is_fallback session = if is_fallback then [] else session

unfoldable pub build_args : ExecuteRequest → Bool → List Text
build_args req is_fallback =
    codes "-p"
    ∷ codes "--output-format=stream-json"
    ∷ codes "--verbose"
    ∷ option (codes "--resume") (resumed is_fallback req.session_id) (
        option (codes "--model") req.model (
          option (codes "--system-prompt") req.system_prompt (
            tool_options req.allowed_tools (
              option (codes "--permission-mode") req.permission_mode (
                flag (codes "--include-partial-messages") req.include_partial_messages (
                  flag (codes "--include-hook-events") req.include_hook_events
                    (codes "--dangerously-skip-permissions" ∷ codes "--" ∷ req.prompt ∷ [])))))))

abbrev pub line_of : Speaker → Text → Text
line_of Speaker.user t = codes "[User]: " ++ t ++ codes "\n"
line_of Speaker.assistant t = codes "[Assistant]: " ++ t ++ codes "\n"
line_of Speaker.system t = codes "[System]: " ++ t ++ codes "\n"
line_of Speaker.other t = []

abbrev pub history_text : List ConversationMsg → Text
history_text [] = []
history_text (m ∷ ms) = line_of m.role m.content ++ history_text ms

unfoldable pub build_fallback_prompt : List ConversationMsg → Text → Text
build_fallback_prompt history current =
    codes "You are continuing a conversation. Here is the conversation history:\n\n"
    ++ history_text history
    ++ codes "\nPlease respond to the latest user message:\n"
    ++ current
