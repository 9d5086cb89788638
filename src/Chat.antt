-- ===== src/Chat.antt =====
-- apps/cc-tunnel/internal/db: the rows of conversations and messages (repository.go, with the
-- constraints of migrations/). message_data holds decoded JSON; an object lists its keys, and the
-- first of equal ones counts; its numbers, which no code reads, are of some unit. A UUID is a number,
-- as in the tables of VMs and endpoints.
pub mod Rows
pub mod Merging
use cc_tunnel.Common.{
  ℕ, Bool, true, false, Option, none, some, List, [], ◌∷◌, ◌++◌, Text, if◌then◌else◌, same_text,
}
use cc_tunnel.Db.{Db}

mutual
  pub data Json : Type 0 where
    null : Json
    boolean : Bool → Json
    number : ℕ → Json
    string : Text → Json
    array : Items → Json
    object : Fields → Json

  pub data Items : Type 0 where
    nil : Items
    cons : Json → Items → Items

  pub data Fields : Type 0 where
    end : Fields
    field : Text → Json → Fields → Fields

-- The CHECK of messages.role.
pub data Role : Type 0 where
  user assistant system : Role

-- The CHECKs of the two status columns.
pub data ConversationStatus : Type 0 where
  idle running completed : ConversationStatus

pub data MessageStatus : Type 0 where
  streaming completed error : MessageStatus

pub record Conversation : Type 0 where
  pub id : ℕ
  pub title : Text
  pub model : Text
  pub system_prompt : Option Text
  pub status : ConversationStatus
  pub created_at : ℕ
  pub updated_at : ℕ

pub record Message : Type 0 where
  pub id : ℕ
  pub conversation_id : ℕ
  pub role : Role
  pub message_data : Fields
  pub status : MessageStatus
  pub created_at : ℕ
  pub updated_at : ℕ

-- The tables, in the order of insertion, with those of VMs and endpoints.
pub record Tables : Type 0 where
  pub conversations : List Conversation
  pub messages : List Message
  pub db : Db

-- m[key], none for a missing key.
abbrev pub get : Text → Fields → Option Json
get key end = none
get key (field k v fs) = if same_text k key then some v else get key fs

-- `a || b` of jsonb objects: the keys of `b` win.
abbrev pub has_key : Text → Fields → Bool
has_key key end = false
has_key key (field k v fs) = if same_text k key then true else has_key key fs

unfoldable pub merge : Fields → Fields → Fields
merge end b = b
merge (field k v fs) b = if has_key k b then merge fs b else field k v (merge fs b)
