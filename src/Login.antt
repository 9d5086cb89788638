-- ===== src/Login.antt =====
-- apps/cc-remote-agent/internal/auth/manager.go: the login in a pseudo-terminal (pty). The pty, its
-- process and its context are made together and have one number. `readers` are the goroutines that
-- read a pty, `starting` the calls of StartLogin between their check and their record. Each
-- function is what runs under one hold of a mutex, with what follows it to the next.
pub mod Steps
pub mod Invariant
use cc_tunnel.Common.{
  ℕ, suc, ◌+◌, ◌-◌, Bool, true, false, not, ◌&&◌, ◌||◌, Option, none, some, List, [], ◌∷◌, ◌++◌,
  map, Text, if◌then◌else◌, ◌==◌, ltb, length, select, is_empty, any,
}

pub record AuthStatus : Type 0 where
  pub logged_in : Bool
  pub auth_method : Text
  pub api_provider : Text
  pub email : Text
  pub org_name : Text
  pub subscription_type : Text
  pub api_key_source : Text
  pub login_pending : Bool
  pub login_url : Text

-- The channel of a subscriber.
pub record Subscriber : Type 0 where
  pub channel : ℕ
  pub buffered : List Text

pub record AuthManager : Type 0 where
  pub login_cmd : Option ℕ
  pub pty_fd : Option ℕ
  pub login_pending : Bool
  pub cancel_func : Option ℕ
  pub subscribers : List Subscriber
  pub readers : List ℕ
  pub starting : ℕ
  pub made : ℕ  -- the number of the next pty
  pub closed : List ℕ  -- the ptys that are closed

unfoldable pub new_auth_manager : AuthManager
new_auth_manager = record {
  login_cmd = none;
  pty_fd = none;
  login_pending = false;
  cancel_func = none;
  subscribers = [];
  readers = [];
  starting = 0;
  made = 0;
  closed = [];
}

-- `exited` says that the command gave an error; `unmarshal` reads the trimmed output.
unfoldable pub get_status :
    (unmarshal : Text → Option AuthStatus) (exited : Bool) (out : Text)
    → AuthManager
    → Option AuthStatus
get_status unmarshal exited out m = if exited && is_empty out then none else elim (unmarshal out) [
  | none ↦ none
  | some s ↦ some (record s { login_pending = m.login_pending })
]

pub data LoginResponse : Type 0 where
  already_authenticated in_progress started failed_to_start : LoginResponse

abbrev pub is_logged_in : Option AuthStatus → Bool
is_logged_in none = false
is_logged_in (some s) = s.logged_in

-- StartLogin up to the end of its check: the response, or none if it goes on.
unfoldable pub start_check : Option AuthStatus → AuthManager → Option LoginResponse × AuthManager
start_check status m =
    if is_logged_in status
    then (some already_authenticated, m)
    else if m.login_pending
    then (some in_progress, m)
    else (none, record m { starting = m.starting + 1 })

-- The rest of it; `starts` says whether pty.Start succeeds.
unfoldable pub start_record : Bool → AuthManager → LoginResponse × AuthManager
start_record false m = (failed_to_start, record m { starting = m.starting - 1 })
start_record true m = (
  started,
  record m {
    login_cmd = some m.made;
    login_pending = true;
    cancel_func = some m.made;
    pty_fd = some m.made;
    readers = m.made ∷ m.readers;
    made = suc m.made;
    starting = m.starting - 1;
  },
)

-- The deferred end of the goroutine that reads pty `n`: it closes the pty, waits for the process,
-- and then clears the fields.
unfoldable pub reader_closes : ℕ → AuthManager → AuthManager
reader_closes n m = record m { closed = n ∷ m.closed }

unfoldable pub reader_clears : ℕ → AuthManager → AuthManager
reader_clears n m = record m {
  login_pending = false;
  login_cmd = none;
  cancel_func = none;
  pty_fd = none;
  readers = select (λ k. not (k == n)) m.readers;
}

-- A channel holds up to 64 chunks; one that is full drops the chunk.
abbrev pub offer : Text → Subscriber → Subscriber
offer chunk s =
    if ltb (length s.buffered) 64 then record s { buffered = s.buffered ++ chunk ∷ [] } else s

unfoldable pub broadcast : Text → AuthManager → AuthManager
broadcast chunk m = record m { subscribers = map (offer chunk) m.subscribers }

unfoldable pub subscribe : ℕ → AuthManager → AuthManager
subscribe channel m = record m {
  subscribers = m.subscribers ++ record { channel = channel; buffered = [] } ∷ [];
}

unfoldable pub unsubscribe : ℕ → AuthManager → AuthManager
unsubscribe channel m = record m {
  subscribers = select (λ s. not (s.channel == channel)) m.subscribers;
}

-- The subscriber takes a chunk.
abbrev pub rest_of : List Text → List Text
rest_of [] = []
rest_of (c ∷ cs) = cs

unfoldable pub receive : ℕ → AuthManager → AuthManager
receive channel m = record m {
  subscribers =
      map
        (λ (s : Subscriber).
          if s.channel == channel then record s { buffered = rest_of s.buffered } else s)
        m.subscribers;
}

-- The pty that the input is written to, none for the error "no login in progress".
unfoldable pub submit_input : AuthManager → Option ℕ
submit_input m = if m.login_pending then m.pty_fd else none

abbrev close_pty : Option ℕ → List ℕ → List ℕ
close_pty none closed = closed
close_pty (some n) closed = n ∷ closed

unfoldable pub cancel_login : AuthManager → AuthManager
cancel_login m = record m {
  login_pending = false;
  cancel_func = none;
  pty_fd = none;
  closed = close_pty m.pty_fd m.closed;
}

unfoldable pub logout : AuthManager → AuthManager
unfolding cancel_login
logout m = if m.login_pending then cancel_login m else m
