-- ===== src/Server.antt =====
-- apps/cc-tunnel/internal/api: the server's state, its responses (helpers.go), and the sessions of
-- the app (app_session.go). A request comes decoded: its Authorization header is a text, empty if
-- missing, and its body is none where decoding fails.
pub mod Accounts
pub mod Conversations
pub mod Send
pub mod Gate
pub mod Starts
pub mod Resumes
pub mod Relogin
pub mod Proxy
pub mod Admin
pub mod RoundTrip
use cc_tunnel.Common.{
  ℕ, Bool, true, false, not, Option, none, some, List, [], ◌∷◌, Text, codes, same_text, select,
  if◌then◌else◌, ◌==◌, is_empty, Error, Result, ok, err, Action,
}
use cc_tunnel.Chat.{Conversation, Role, MessageStatus, Fields, Tables}
use cc_tunnel.Vault.{Fault, Encryptor, Credential}

-- AppUser
pub record User : Type 0 where
  pub id : ℕ
  pub name : Text

-- The API's Message; its updatedAt is never set.
pub record ApiMessage : Type 0 where
  pub id : ℕ
  pub conversation_id : ℕ
  pub role : Role
  pub created_at : ℕ
  pub status : MessageStatus
  pub message_data : Option Fields

pub data Body : Type 0 where
  nothing : Body
  message : Text → Body  -- Error{Error: …}
  database_error : Error → Body  -- Error{Error: err.Error()}, of the repository
  vault_error : Fault → Body  -- and of the credential service
  auth_error : Body  -- AppAuthError{Message: "unauthorized"}
  credentials_error : (error reason : Text) (conversation_id : ℕ) → Body
  accepted : (message_id : ℕ) → Body
  one_conversation : Conversation → Body
  conversation_list : List Conversation → Body
  detail : Conversation → List ApiMessage → Body
  status_ok : Body
  logged_in : (token : Text) → User → Body
  me : User → Body
  ready : Body
  external_error : Body  -- err.Error() of the execution provider or the agent
  credentials_status : (registered is_valid : Bool) → Body

pub record Response : Type 0 where
  pub status : ℕ
  pub body : Body

abbrev pub respond : ℕ → Body → Response
respond status body = record { status = status; body = body }

abbrev pub write_error : ℕ → Text → Response
write_error status msg = respond status (message msg)

-- `service` is credService, none for nil: the check of credentials is off. `storer` is credStorer.
pub record Server : Type 0 where
  pub tables : Tables
  pub sessions : List (Text × User)
  pub service : Option Encryptor
  pub storer : Option Encryptor
  pub credentials : List Credential

-- AppSession: the first entry of a token counts.
abbrev pub lookup : Text → List (Text × User) → Option User
lookup token [] = none
lookup token ((t, u) ∷ rest) = if same_text t token then some u else lookup token rest

abbrev pub delete_session : Text → List (Text × User) → List (Text × User)
delete_session token = select (λ entry. not (same_text entry.0 token))

abbrev pub set_session : Text → User → List (Text × User) → List (Text × User)
set_session token u sessions = (token, u) ∷ delete_session token sessions

-- strings.CutPrefix
abbrev pub cut_prefix : Text → Text → Option Text
cut_prefix [] s = some s
cut_prefix (a ∷ p) [] = none
cut_prefix (a ∷ p) (c ∷ s) = let rest = cut_prefix p s in if c == a then rest else none

abbrev unless_empty : Option Text → Option Text
unless_empty (some (c ∷ s)) = some (c ∷ s)
unless_empty _ = none

unfoldable pub bearer_token : Text → Option Text
bearer_token authorization = unless_empty (cut_prefix (codes "Bearer ") authorization)

-- The outcome of a check that may have written the response already.
pub data Checked (A : Type 0) : Type 0 where
  passed : A → Checked A
  rejected : Response → Checked A

abbrev pub known_user : Option User → Checked User
known_user none = rejected (respond 401 auth_error)
known_user (some u) = passed u

abbrev pub user_of_token : Option Text → List (Text × User) → Checked User
user_of_token none sessions = rejected (write_error 401 (codes "unauthorized"))
user_of_token (some token) sessions = known_user (lookup token sessions)

-- With the check off, the user is the zero AppUser.
abbrev pub auth_if : Option Encryptor → Text → List (Text × User) → Checked User
auth_if none authorization sessions = passed (record { id = 0; name = [] })
auth_if (some e) authorization sessions = user_of_token (bearer_token authorization) sessions

unfoldable pub require_app_auth_if_enabled : Server → Text → Checked User
unfolding bearer_token
require_app_auth_if_enabled h authorization = auth_if h.service authorization h.sessions

-- What a handler does after a check.
abbrev pub guarded :
    {A : Type 0} → Checked A → (A → Server → Response × Server) → Server → Response × Server
guarded (rejected r) f h = (r, h)
guarded (passed a) f h = f a h

-- Whether the database answers the k-th statement of a handler.
abbrev pub Answers : Type 0
Answers = ℕ → Bool

abbrev pub query : {A : Type 0} → Bool → Action Tables A → Action Tables A
query true m t = m t
query false m t = (err Error.unavailable, t)

-- A statement whose error ends the handler with a response.
abbrev pub or_respond :
    {A : Type 0}
    → Result A × Tables
    → (Error → Response)
    → (A → Server → Response × Server)
    → Server
    → Response × Server
or_respond (ok a, t) failed f h = f a (record h { tables = t })
or_respond (err e, t) failed f h = (failed e, record h { tables = t })

abbrev pub internal : Error → Response
internal e = respond 500 (database_error e)

abbrev pub conversation_not_found : Error → Response
conversation_not_found e = write_error 404 (codes "conversation not found")
