-- ===== src/Remote/Client.antt =====
-- apps/cc-tunnel/internal/remoteclient/client.go: the calls of cc-remote-agent. The agent's response
-- is an input, none if the request fails; a body of another shape counts as one that is not decoded.
pub mod Last
use cc_tunnel.Common.{
  ℕ, Bool, true, false, Option, none, some, List, [], ◌∷◌, Text, if◌then◌else◌, ◌==◌,
}
use cc_tunnel.Stream.{StreamEvent}
use cc_tunnel.Login.{AuthStatus, LoginResponse}
use cc_tunnel.Remote.{Body, auth_status, login, message, credentials_json, Response, JsonStrings}

-- A call whose error has no kind of its own.
abbrev pub when_ok : {A : Type 0} → (Body → Option A) → Option Response → Option A
when_ok decode none = none
when_ok decode (some r) = if r.status == 200 then decode r.body else none

abbrev as_status : Body → Option AuthStatus
as_status (auth_status s) = some s
as_status _ = none

abbrev as_login : Body → Option LoginResponse
as_login (login r) = some r
as_login _ = none

abbrev as_message : Body → Option Text
as_message (message t) = some t
as_message _ = none

unfoldable pub get_auth_status : Option Response → Option AuthStatus
get_auth_status = when_ok as_status

unfoldable pub initiate_login : Option Response → Option LoginResponse
initiate_login = when_ok as_login

unfoldable pub submit_auth_input : Option Response → Option Text
submit_auth_input = when_ok as_message

unfoldable pub cancel_remote_login : Option Response → Option Text
cancel_remote_login = when_ok as_message

unfoldable pub remote_logout : Option Response → Option AuthStatus
remote_logout = when_ok as_status

-- What InitCredentials sends, as the agent decodes it.
unfoldable pub init_body : JsonStrings → Text → Option Text
init_body j credentials = some (j.through credentials)

-- The body of the response is not read.
unfoldable pub init_credentials : Option Response → Option (Unit {0})
init_credentials = when_ok (λ b. some tt)

-- `not_ready` is ErrCredentialsNotReady.
pub data Pulled : Type 0 where
  pulled : Text → Pulled
  not_ready failed : Pulled

abbrev pub as_credentials : Body → Pulled
as_credentials (credentials_json (c ∷ cs)) = pulled (c ∷ cs)
as_credentials _ = failed

unfoldable pub finalize_credentials : Option Response → Pulled
finalize_credentials none = failed
finalize_credentials (some r) =
    if r.status == 404 then not_ready else if r.status == 200 then as_credentials r.body else failed

-- The lines of the response, none for one that is not decoded, and whether the scanner reads them
-- without an error.
pub record Streamed : Type 0 where
  pub status : ℕ
  pub lines : List (Option StreamEvent)
  pub read_ok : Bool

-- The events given to the callback, the session id, and whether there is no error.
pub record Executed : Type 0 where
  pub events : List StreamEvent
  pub session_id : Text
  pub ok : Bool

abbrev pub session_after_event : StreamEvent → Text → Text
session_after_event (StreamEvent.result session cost duration) sid = session
session_after_event _ sid = sid

unfoldable pub scan_events : List (Option StreamEvent) → Text → List StreamEvent × Text
scan_events [] sid = ([], sid)
scan_events (none ∷ ls) sid = scan_events ls sid
scan_events (some e ∷ ls) sid =
    let (es, last) = scan_events ls (session_after_event e sid) in (e ∷ es, last)

abbrev no_events : Executed
no_events = record { events = []; session_id = []; ok = false }

unfoldable pub execute : Option Streamed → Executed
unfolding scan_events
execute none = no_events
execute (some r) =
    if r.status == 200
    then (let (es, sid) = scan_events r.lines [] in
        record { events = es; session_id = sid; ok = r.read_ok })
    else no_events
