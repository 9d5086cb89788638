-- ===== src/Turn/History.antt =====
-- The request that is made of the persisted messages.
use cc_tunnel.Common.{
  Bool, true, Option, none, some, List, [], ◌∷◌, ◌++◌, map, Text, if◌then◌else◌, is_empty, codes,
  same_text,
}
use mathlib.Core.List.{reverse}
use cc_tunnel.Chat.{
  Json, string, array, object, Items, nil, cons, Fields, Role, Message, Conversation, get,
}

-- The `s, _ := v.(string)` of the code.
abbrev pub as_string : Option Json → Text
as_string (some (string t)) = t
as_string _ = []

abbrev pub string_field : Text → Fields → Text
string_field key fs = as_string (get key fs)

-- The session id that a message offers, empty if none.
abbrev pub session_id_of : Role → Fields → Text
session_id_of Role.assistant d = string_field (codes "session_id") d
session_id_of _ d = []

-- The loop from the newest message; the argument has the newest first.
unfoldable pub search_back : List Message → Text
search_back [] = []
search_back (m ∷ ms) =
    let sid = session_id_of m.role m.message_data in if is_empty sid then search_back ms else sid

unfoldable pub find_resume_session_id : List Message → Text
unfolding search_back
find_resume_session_id history = search_back (reverse history)

-- The text of one element of content_blocks: an object of type "text" with a string content.
abbrev pub block_text : Json → Text
block_text (object fs) =
    if same_text (string_field (codes "type") fs) (codes "text")
    then string_field (codes "content") fs
    else []
block_text _ = []

abbrev pub blocks_text : Items → Text
blocks_text nil = []
blocks_text (cons j js) = block_text j ++ blocks_text js

abbrev pub array_text : Option Json → Text
array_text (some (array items)) = blocks_text items
array_text _ = []

unfoldable pub message_text : Role → Fields → Text
message_text Role.user d = string_field (codes "content") d
message_text Role.assistant d = array_text (get (codes "content_blocks") d)
message_text Role.system d = []

pub record Turn : Type 0 where
  pub role : Role
  pub content : Text

unfoldable pub build_conversation_history : List Message → List Turn
unfolding message_text
build_conversation_history =
    map (λ (m : Message). record { role = m.role; content = message_text m.role m.message_data })

pub record Request : Type 0 where
  pub prompt : Text
  pub session_id : Text
  pub conversation_id : Text
  pub model : Text
  pub system_prompt : Text
  pub conversation_history : List Turn
  pub include_partial_messages : Bool
  pub include_hook_events : Bool
  pub credentials : Text

abbrev or_empty : Option Text → Text
or_empty none = []
or_empty (some t) = t

unfoldable pub build_execute_request : Text → Text → Conversation → List Message → Text → Request
unfolding find_resume_session_id build_conversation_history
build_execute_request prompt conversation_id conv history credentials = record {
  prompt = prompt;
  session_id = find_resume_session_id history;
  conversation_id = conversation_id;
  model = conv.model;
  system_prompt = or_empty conv.system_prompt;
  conversation_history = build_conversation_history history;
  include_partial_messages = true;
  include_hook_events = true;
  credentials = credentials;
}
