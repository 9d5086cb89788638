-- ===== src/Examples/Logins.antt =====
-- A login that is cancelled and started again while the first one's goroutine still runs.
use cc_tunnel.Common.{ℕ, ◌≡◌, ◌≢◌, refl, true, none, some, arith}
use cc_tunnel.Login.{
  AuthManager, new_auth_manager, start_check, start_record, reader_clears, submit_input,
  cancel_login,
}
use cc_tunnel.Login.Steps.{is_reading, checks, records, cancels, Reach, here, next}
use cc_tunnel.Login.Invariant.{IsValid, Reach-IsValid, reader_clears-other}

abbrev started_once : AuthManager
started_once = (start_record true (start_check none new_auth_manager).1).1

abbrev started_again : AuthManager
started_again = (start_record true (start_check none (cancel_login started_once)).1).1

reached : Reach started_again
unfolding start_check start_record cancel_login new_auth_manager
reached =
    next
      (next (next (next (next here (checks _ none)) (records _ true (omega arith))) (cancels _))
        (checks _ none))
      (records _ true (omega arith))

Reach-IsValid_example : IsValid started_again
Reach-IsValid_example = Reach-IsValid reached

second_pty : started_again.pty_fd ≡ some 1
unfolding start_check start_record cancel_login new_auth_manager
second_pty = refl

second_reads : is_reading 1 started_again ≡ true
unfolding start_check start_record cancel_login new_auth_manager
second_reads = refl

one_zero : ◌≢◌ {A = ℕ} 1 0
one_zero e = omega (arith, e)

reader_clears-other_example :
    (is_reading 1 (reader_clears 0 started_again) ≡ true)
    × (submit_input (reader_clears 0 started_again) ≡ none)
    × ((reader_clears 0 started_again).cancel_func ≡ none)
    × ((cancel_login (reader_clears 0 started_again)).closed ≡ started_again.closed)
    × ((start_check none (reader_clears 0 started_again)).0 ≡ none)
reader_clears-other_example =
    reader_clears-other started_again 1 0 none second_pty second_reads one_zero refl
