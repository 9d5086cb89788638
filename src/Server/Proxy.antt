-- ===== src/Server/Proxy.antt =====
-- apps/cc-tunnel/internal/api/auth_handler.go and getSessionClientOrRespond of helpers.go. Each
-- handler gets what the execution provider answers for the session's client, and then what the
-- agent answers.
use cc_tunnel.Common.{ℕ, Option, none, some, Text, codes, ◌++◌}
use cc_tunnel.Login.{AuthStatus, LoginResponse}
use cc_tunnel.Remote.{Response}
use cc_tunnel.Remote.Client.{
  get_auth_status, initiate_login, submit_auth_input, cancel_remote_login, remote_logout,
}

-- GetSessionClient: a client, ErrSessionNotFound, or another error.
pub data ProviderSession : Type 0 where
  found session_not_found broken : ProviderSession

pub data Reply : Type 0 where
  failed : (status : ℕ) (text : Text) → Reply
  internal_error bad_gateway : Reply  -- 500 and 502, with the error's text
  status : AuthStatus → Reply
  login : LoginResponse → Reply
  message : Text → Reply

-- What is answered with the client's result, none for its error.
abbrev pub or_bad_gateway : {A : Type 0} → (A → Reply) → Option A → Reply
or_bad_gateway f none = bad_gateway
or_bad_gateway f (some a) = f a

module _ (uuid : ℕ → Text) where
  abbrev pub get_session_client_or_respond : ProviderSession → ℕ → Reply → Reply
  get_session_client_or_respond session_not_found i next =
      failed 404 (codes "session not found for conversation " ++ uuid i)
  get_session_client_or_respond broken i next = internal_error
  get_session_client_or_respond found i next = next

  unfoldable pub proxy_auth_status : ProviderSession → ℕ → Option Response → Reply
  unfolding get_auth_status
  proxy_auth_status s i r =
      get_session_client_or_respond s i (or_bad_gateway status (get_auth_status r))

  unfoldable pub proxy_logout : ProviderSession → ℕ → Option Response → Reply
  unfolding remote_logout
  proxy_logout s i r = get_session_client_or_respond s i (or_bad_gateway status (remote_logout r))

  unfoldable pub proxy_cancel_login : ProviderSession → ℕ → Option Response → Reply
  unfolding cancel_remote_login
  proxy_cancel_login s i r =
      get_session_client_or_respond s i (or_bad_gateway message (cancel_remote_login r))

  abbrev invalid_body : Reply
  invalid_body = failed 400 (codes "invalid request body")

  -- The body is the conversation's id; the method that it may have is passed on.
  unfoldable pub proxy_initiate_login : ProviderSession → Option ℕ → Option Response → Reply
  unfolding initiate_login
  proxy_initiate_login s none r = invalid_body
  proxy_initiate_login s (some i) r =
      get_session_client_or_respond s i (or_bad_gateway login (initiate_login r))

  -- The body is the conversation's id; the input that it has is passed on.
  unfoldable pub proxy_pty_input : ProviderSession → Option ℕ → Option Response → Reply
  unfolding submit_auth_input
  proxy_pty_input s none r = invalid_body
  proxy_pty_input s (some i) r =
      get_session_client_or_respond s i (or_bad_gateway message (submit_auth_input r))
