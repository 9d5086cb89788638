-- ===== src/Login/Steps.antt =====
-- The steps of handlers and reading goroutines, in any order.
use cc_tunnel.Common.{ℕ, ◌≡◌, ◌≤◌, Bool, true, Option, Text, ◌==◌, any}
use cc_tunnel.Login.{
  AuthManager, AuthStatus, new_auth_manager, start_check, start_record, reader_closes,
  reader_clears, broadcast, subscribe, unsubscribe, receive, cancel_login, logout,
}

abbrev pub is_reading : ℕ → AuthManager → Bool
is_reading n m = any (λ k. k == n) m.readers

-- SubmitInput changes nothing here; a step of an absent goroutine or call does not happen.
pub data Step : AuthManager → AuthManager → Type 0 where
  checks : (m : AuthManager) (status : Option AuthStatus) → Step m (start_check status m).1
  records : (m : AuthManager) (starts : Bool) → 1 ≤ m.starting → Step m (start_record starts m).1
  closes : (m : AuthManager) (n : ℕ) → is_reading n m ≡ true → Step m (reader_closes n m)
  clears : (m : AuthManager) (n : ℕ) → is_reading n m ≡ true → Step m (reader_clears n m)
  reads :
      (m : AuthManager) (n : ℕ) (chunk : Text) → is_reading n m ≡ true → Step m (broadcast chunk m)
  subscribes : (m : AuthManager) (channel : ℕ) → Step m (subscribe channel m)
  unsubscribes : (m : AuthManager) (channel : ℕ) → Step m (unsubscribe channel m)
  receives : (m : AuthManager) (channel : ℕ) → Step m (receive channel m)
  cancels : (m : AuthManager) → Step m (cancel_login m)
  logs_out : (m : AuthManager) → Step m (logout m)

pub data Reach : AuthManager → Type 0 where
  here : Reach new_auth_manager
  next : {m n : AuthManager} → Reach m → Step m n → Reach n
