-- ===== src/Login/Invariant.antt =====
-- What holds in every state of the login manager, and what an old reader does to a new login.
use cc_tunnel.Common.{
  ℕ, ◌≡◌, refl, ◌≤◌, ◌⊎◌, inl, inr, true, false, Option, none, some, List, [], ◌∷◌, map, Text, ◌==◌,
  length, length-append, All, All-append, All-select, Bool-cases, if-either, any-select_kept, ◌≢◌,
  ◌∙◌, arith, if◌then◌else◌, ltb, not,
}
use cc_tunnel.Login.{
  AuthStatus, AuthManager, LoginResponse, already_authenticated, in_progress, Subscriber,
  new_auth_manager, start_check, start_record, reader_closes, reader_clears, offer, is_logged_in,
  broadcast, subscribe, unsubscribe, receive, submit_input, cancel_login, logout, rest_of,
}
use cc_tunnel.Login.Steps.{
  is_reading, Step, checks, records, closes, clears, reads, subscribes, unsubscribes, receives,
  cancels, logs_out, Reach, here, next,
}

-- A login is pending, and all fields name its pty, which a goroutine reads; or none is, and no pty
-- can be written to or cancelled.
abbrev pub IsLogin : AuthManager → Type 0
IsLogin m =
    ((m.login_pending ≡ false) × (m.pty_fd ≡ none) × (m.cancel_func ≡ none))
    ⊎ ((n : ℕ) × (m.login_pending ≡ true)
        × (m.pty_fd ≡ some n)
        × (m.cancel_func ≡ some n)
        × (m.login_cmd ≡ some n)
        × (is_reading n m ≡ true))

abbrev pub IsBounded : Subscriber → Type 0
IsBounded s = length s.buffered ≤ 64

pub record IsValid (m : AuthManager) : Type 0 where
  pub login : IsLogin m
  pub bounded : All IsBounded m.subscribers

All-offer :
    (chunk : Text) (ss : List Subscriber) → All IsBounded ss → All IsBounded (map (offer chunk) ss)
All-offer chunk [] h = tt
All-offer chunk (s ∷ ss) h = elim (Bool-cases (ltb (length s.buffered) 64)) [
  | inl e ↦ rw e (ground (arith, e, length-append s.buffered (chunk ∷ [])), All-offer chunk ss h.1)
  | inr e ↦ rw e (h.0, All-offer chunk ss h.1)
]

length-rest_of : (cs : List Text) → length (rest_of cs) ≤ length cs
length-rest_of [] = omega arith
length-rest_of (c ∷ cs) = omega arith

All-receive :
    (channel : ℕ) (ss : List Subscriber)
    → All IsBounded ss
    → All IsBounded (
        map
          (λ (s : Subscriber).
            if s.channel == channel then record s { buffered = rest_of s.buffered } else s)
          ss)
All-receive channel [] h = tt
All-receive channel (s ∷ ss) h = elim (Bool-cases (s.channel == channel)) [
  | inl e ↦ rw e (omega (arith, length-rest_of s.buffered, h.0), All-receive channel ss h.1)
  | inr e ↦ rw e (h.0, All-receive channel ss h.1)
]

Step-IsValid : {m n : AuthManager} → Step m n → IsValid m → IsValid n
unfolding start_check start_record reader_closes reader_clears broadcast subscribe unsubscribe
    receive cancel_login logout
Step-IsValid (checks m status) v =
    if-either P (is_logged_in status) (some already_authenticated, m) _ v
      (if-either P m.login_pending (some in_progress, m) _ v
        (record { login = v.login; bounded = v.bounded }))
  where
    P : Option LoginResponse × AuthManager → Type 0
    P (r, n) = IsValid n
Step-IsValid (records m true h) v = record {
  login = inr (m.made, refl, refl, refl, refl, ground arith);
  bounded = v.bounded;
}
Step-IsValid (records m false h) v = record { login = v.login; bounded = v.bounded }
Step-IsValid (closes m n h) v = record { login = v.login; bounded = v.bounded }
Step-IsValid (clears m n h) v = record { login = inl (refl, refl, refl); bounded = v.bounded }
Step-IsValid (reads m n chunk h) v = record {
  login = v.login;
  bounded = All-offer chunk m.subscribers v.bounded;
}
Step-IsValid (subscribes m channel) v = record {
  login = v.login;
  bounded = All-append IsBounded m.subscribers _ v.bounded (omega arith, tt);
}
Step-IsValid (unsubscribes m channel) v = record {
  login = v.login;
  bounded = All-select IsBounded _ m.subscribers v.bounded;
}
Step-IsValid (receives m channel) v = record {
  login = v.login;
  bounded = All-receive channel m.subscribers v.bounded;
}
Step-IsValid (cancels m) v = record { login = inl (refl, refl, refl); bounded = v.bounded }
Step-IsValid (logs_out m) v =
    if-either IsValid m.login_pending (cancel_login m) m
      (record { login = inl (refl, refl, refl); bounded = v.bounded }) v

-- Whatever the order of logins, cancellations, reading goroutines and subscribers: either no login
-- is pending, and there is no pty to write to and nothing to cancel; or one is, the manager's pty,
-- process and cancel function belong to the same start, and a goroutine reads that pty. No
-- subscriber has more than 64 chunks waiting.
pub Reach-IsValid : {m : AuthManager} → Reach m → IsValid m
unfolding new_auth_manager
Reach-IsValid here = record { login = inl (refl, refl, refl); bounded = tt }
Reach-IsValid (next r s) = Step-IsValid s (Reach-IsValid r)

-- When the goroutine of an earlier login ends while a later one is pending, the later login's
-- goroutine reads on, but its input is refused, CancelLogin neither cancels it nor closes a pty,
-- and a further StartLogin goes on past its check, unless the CLI is logged in.
pub reader_clears-other :
    (m : AuthManager) (n old : ℕ) (status : Option AuthStatus)
    → m.pty_fd ≡ some n
    → is_reading n m ≡ true
    → n ≢ old
    → is_logged_in status ≡ false
    → (is_reading n (reader_clears old m) ≡ true)
      × (submit_input (reader_clears old m) ≡ none)
      × ((reader_clears old m).cancel_func ≡ none)
      × ((cancel_login (reader_clears old m)).closed ≡ m.closed)
      × ((start_check status (reader_clears old m)).0 ≡ none)
unfolding reader_clears submit_input cancel_login start_check
reader_clears-other m n old status fd reading apart out = (
  any-select_kept (λ k. k == n) (λ k. not (k == old)) (λ k e. ground (arith, e, apart)) m.readers
      ∙ reading,
  refl,
  refl,
  refl,
  rw out refl,
)
