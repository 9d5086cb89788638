-- ===== src/Remote.antt =====
-- apps/cc-remote-agent/internal/api/handler.go: the handlers, each uninterrupted, over the login
-- manager and the credentials file. A request has a method and a decoded body, none where decoding
-- fails; what the CLI and the file system answer are inputs.
pub mod Client
use cc_tunnel.Common.{
  ℕ, Bool, true, false, ◌≡◌, Option, none, some, List, [], ◌∷◌, Text, codes, if◌then◌else◌,
  is_empty,
}
use cc_tunnel.Cli.{ExecuteRequest}
use cc_tunnel.Login.{
  AuthStatus, LoginResponse, failed_to_start, AuthManager, start_check, start_record, submit_input,
  cancel_login, logout, is_logged_in,
}

pub data Method : Type 0 where
  get post other : Method

pub data Body : Type 0 where
  text : Text → Body  -- of http.Error
  health : (claude_version : Text) → Body
  auth_status : AuthStatus → Body
  login : LoginResponse → Body
  message : Text → Body
  credentials_json : Text → Body

pub record Response : Type 0 where
  pub status : ℕ
  pub body : Body

-- `credentials_file` is ~/.claude/.credentials.json, none if it does not exist.
pub record Agent : Type 0 where
  pub manager : AuthManager
  pub credentials_file : Option Text

abbrev pub http_error : ℕ → Text → Response
http_error status t = record { status = status; body = text t }

abbrev pub ok_json : Body → Response
ok_json b = record { status = 200; body = b }

abbrev pub is_post : Method → Bool
is_post post = true
is_post _ = false

abbrev pub is_get : Method → Bool
is_get get = true
is_get _ = false

abbrev pub method_not_allowed : Response
method_not_allowed = http_error 405 (codes "method not allowed")

-- A request is refused, or the CLI is run for it by StreamToWriter.
pub data Execution : Type 0 where
  refused : Response → Execution
  streams : ExecuteRequest → Execution

module _ (trim_space : Text → Text) where
  abbrev check_prompt : Option ExecuteRequest → Execution
  check_prompt none = refused (http_error 400 (codes "invalid request body"))
  check_prompt (some req) =
      if is_empty (trim_space req.prompt)
      then refused (http_error 400 (codes "prompt is required"))
      else streams req

  -- `status` is the result of GetStatus.
  abbrev execute_as : Option AuthStatus → Option ExecuteRequest → Execution
  execute_as none body =
      refused (http_error 500 (codes "{\"error\":\"failed to get auth status\"}"))
  execute_as (some s) body =
      if s.logged_in
      then check_prompt body
      else refused (http_error 401 (codes "{\"error\":\"not authenticated\"}"))

  unfoldable pub handle_execute : Method → Option AuthStatus → Option ExecuteRequest → Execution
  handle_execute method status body =
      if is_post method then execute_as status body else refused method_not_allowed

  -- `version` is the output of the CLI, none when it fails.
  abbrev pub version_text : Option Text → Text
  version_text none = codes "unavailable"
  version_text (some out) = trim_space out

  unfoldable pub handle_health : Option Text → Response
  handle_health version = ok_json (health (version_text version))

abbrev status_response : Text → Option AuthStatus → Response
status_response msg none = http_error 500 msg
status_response msg (some s) = ok_json (auth_status s)

unfoldable pub handle_auth_status : Method → Option AuthStatus → Response
handle_auth_status method status =
    if is_get method
    then status_response (codes "{\"error\":\"failed to get auth status\"}") status
    else method_not_allowed

abbrev pub login_response : LoginResponse → Response
login_response failed_to_start = http_error 500 (codes "{\"error\":\"failed to start login\"}")
login_response r = ok_json (login r)

-- StartLogin, without another call between its check and its record.
abbrev pub start_login : Bool → Option LoginResponse × AuthManager → LoginResponse × AuthManager
start_login starts (some r, m) = (r, m)
start_login starts (none, m) = start_record starts m

-- The login method of the body is only logged.
unfoldable pub handle_auth_login : Method → Option AuthStatus → Bool → Agent → Response × Agent
unfolding start_check start_record
handle_auth_login method status starts a =
    let (r, m) = start_login starts (start_check status a.manager) in
    if is_post method then (login_response r, record a { manager = m }) else (method_not_allowed, a)

-- `accepts` says whether a pty takes what is written to it.
abbrev pub input_response : Bool → Option ℕ → Response
input_response accepts none = http_error 409 (codes "{\"error\":\"no login in progress\"}")
input_response accepts (some fd) =
    if accepts
    then ok_json (message (codes "Input submitted"))
    else http_error 409 (codes "{\"error\":\"no login in progress\"}")

abbrev input_for : Option Text → Bool → Agent → Response
input_for none accepts a = http_error 400 (codes "{\"error\":\"invalid request body\"}")
input_for (some input) accepts a = input_response accepts (submit_input a.manager)

unfoldable pub handle_auth_pty_input : Method → Option Text → Bool → Agent → Response × Agent
unfolding submit_input
handle_auth_pty_input method body accepts a =
    ((if is_post method then input_for body accepts a else method_not_allowed), a)

unfoldable pub handle_auth_cancel : Method → Agent → Response × Agent
unfolding cancel_login
handle_auth_cancel method a =
    if is_post method
    then (
      ok_json (message (codes "Login cancelled")),
      record a { manager = cancel_login a.manager },
    )
    else (method_not_allowed, a)

-- What happens to a file that is written; a failed write leaves some content, or no file.
pub data Files : Type 0 where
  no_home no_directory written : Files
  not_written : (left : Option Text) → Files

abbrev pub write_file : Files → Text → Agent → Response × Agent
write_file no_home t a =
    (http_error 500 (codes "{\"error\":\"failed to resolve home directory\"}"), a)
write_file no_directory t a =
    (http_error 500 (codes "{\"error\":\"failed to create .claude directory\"}"), a)
write_file (not_written left) t a = (
  http_error 500 (codes "{\"error\":\"failed to write credentials file\"}"),
  record a { credentials_file = left },
)
write_file written t a =
    (ok_json (message (codes "credentials initialized")), record a { credentials_file = some t })

abbrev pub init_with : Files → Option Text → Agent → Response × Agent
init_with files none a = (http_error 400 (codes "{\"error\":\"invalid request body\"}"), a)
init_with files (some []) a =
    (http_error 400 (codes "{\"error\":\"credentialsJson is required\"}"), a)
init_with files (some (c ∷ cs)) a = write_file files (c ∷ cs) a

unfoldable pub handle_init : Method → Files → Option Text → Agent → Response × Agent
handle_init method files body a =
    if is_post method then init_with files body a else (method_not_allowed, a)

-- encoding/json: what a decoder reads of an encoded string. It is the string if that is UTF-8; a
-- byte that is not is replaced.
pub record JsonStrings : Type 0 where
  pub through : Text → Text
  pub is_utf8 : Text → Bool
  pub keeps : (t : Text) → is_utf8 t ≡ true → through t ≡ t

-- `reads` says whether an existing file can be read.
abbrev pub read_back : JsonStrings → Bool → Option Text → Response
read_back j reads none = http_error 404 (
    codes "{\"error\":\"credentials file not found\",\"hint\":\"complete /auth/login flow first\"}")
read_back j true (some t) = ok_json (credentials_json (j.through t))
read_back j false (some t) = http_error 500 (codes "{\"error\":\"failed to read credentials\"}")

unfoldable pub handle_finalize_credentials : JsonStrings → Method → Bool → Bool → Agent → Response
handle_finalize_credentials j method home reads a =
    if is_post method
    then (if home
        then read_back j reads a.credentials_file
        else http_error 500 (codes "{\"error\":\"failed to resolve home directory\"}"))
    else method_not_allowed

unfoldable pub handle_auth_logout : Method → Option AuthStatus → Agent → Response × Agent
unfolding logout
handle_auth_logout method status a =
    if is_post method
    then (
      status_response (codes "{\"error\":\"logout failed\"}") status,
      record a { manager = logout a.manager },
    )
    else (method_not_allowed, a)
