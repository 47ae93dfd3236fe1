-- ===== src/Machine/Account.antt =====
-- internal/machine/lifecycle.go, `Account` and `ReadPassword`: the server's commands to issue and to
-- revoke a generation.
pub mod Keeping
pub mod Refusal
use lab_gate.Prelude.{
  ℕ, ◌+◌, ltb, leb, Text, codes, List, [], ◌∷◌, Option, none, some, Bool, true, false, String, not,
  ◌&&◌, ◌||◌, ◌==◌, ◌!=◌, text_eq, nat_eq, if◌then◌else◌, all, length, take, value, Error, other,
  Result, ok, err,
}
use lab_gate.Core.Identity.{credential_id}
use lab_gate.Machine.State.{Phase, pending, active, revoked, State, is_number}
use lab_gate.Machine.Runtime.{
  File, absent, unreadable, holds, Call, take_lock, sessions, secure, is_locked,
  reset_authentication, set_password, lock_account, unlock_account, Answer, yes, no, lost, Disk,
  World, Step, ◌>>=◌, done, failed, outcome, ask, now, look, must, lift, is_revoked, write_state,
  clear_marker, clear_recovery, recovery,
}

abbrev pub between : ℕ → ℕ → ℕ → Bool
between low high c = leb low c && leb c high

abbrev pub is_password_byte : ℕ → Bool
is_password_byte c =
    between b'A' b'H' c
    || between b'J' b'N' c
    || between b'P' b'Z' c
    || between b'a' b'k' c
    || between b'm' b'z' c
    || between b'2' b'9' c

-- ^[A-HJ-NP-Za-km-z2-9]{5,128}$
abbrev pub is_password : Text → Bool
is_password p = leb 5 (length p) && leb (length p) 128 && all is_password_byte p

-- The line without its newline, if the last byte is the only newline.
unfoldable pub line_of : Text → Result Text
line_of [] = err (other "exactly one password line required")
line_of (c ∷ []) = if c == 10 then ok [] else err (other "exactly one password line required")
line_of (c ∷ x ∷ s) = elim (line_of (x ∷ s)) [
  | ok p ↦ if c == 10 then err (other "exactly one password line required") else ok (c ∷ p)
  | err e ↦ err e
]

-- At most 131 bytes are read of the input.
unfoldable pub read_password : Text → Result Text
read_password input =
    let b = take 131 input in
    if ltb 129 (length b)
    then err (other "exactly one password line required")
    else elim (line_of b) [
      | ok p ↦ if is_password p then ok p else err (other "unsupported password")
      | err e ↦ err e
    ]

-- The deadline of an issue command, at most a day and a minute ahead.
abbrev deadline_of : Text → ℕ → ℕ → Result ℕ
deadline_of s t t' =
    if not (is_number 12 s) || leb (value s) t || ltb (t' + 86460) (value s)
    then err (other "invalid deadline")
    else ok (value s)

abbrev length_fits : ℕ → File ℕ → Step (Unit {0})
length_fits k (holds n) =
    if ltb n 5 || ltb 128 n || k != n then failed "password length mismatch" else done tt
length_fits k f = failed "password length mismatch"

-- What `State` returns where it is no error but absence.
abbrev record_of : File State → Step (Option State)
record_of absent = done none
record_of (holds s) = done (some s)
record_of unreadable = do _ ← recovery; failed "corrupt credential state"

abbrev no_session : Answer → Step (Unit {0})
no_session no = done tt
no_session a = failed "guest session exists or cannot be inventoried"

-- The record, under the lock, and with nobody in a session.
enter : Step (Option State)
enter = do s ← look (λ d. d.state) >>= record_of; _ ← ask sessions >>= no_session; done s

abbrev unburied : File ℕ → Step (Unit {0})
unburied absent = done tt
unburied unreadable = failed "tombstone"
unburied (holds t) = failed "terminal generation cannot be reissued"

-- A record that forbids the issue of `id` with `deadline`.
abbrev conflicts : Text → ℕ → State → Bool
conflicts id deadline s = elim s.phase [
  | active ↦ true
  | pending ↦ s.id != id || s.deadline != deadline
  | revoked ↦ s.id == id
]

abbrev unclaimed : Text → ℕ → Option State → Step (Unit {0})
unclaimed id deadline none = done tt
unclaimed id deadline (some s) =
    if conflicts id deadline s then failed "generation conflict" else done tt

-- A required command, whose failure is recorded before it is returned.
abbrev pub secured : String → Answer → Step (Unit {0})
secured s yes = done tt
secured s a = do _ ← recovery; failed s

abbrev relocked : Bool → String → Answer → Step (Unit {0})
relocked note s yes = done tt
relocked true s a = do _ ← ask lock_account; _ ← recovery; failed s
relocked false s a = do _ ← ask lock_account; failed s

-- The account must be reported as unlocked.
abbrev confirmed_unlocked : Answer → Step (Unit {0})
confirmed_unlocked no = done tt
confirmed_unlocked a = do _ ← ask lock_account; failed "guest unlock unconfirmed"

-- The steps of an issue after its checks, the last of them to unlock the account.
hand_over : Text → ℕ → Step (Unit {0})
hand_over id deadline = do
  _ ← ask secure >>= secured "local safety could not be established"
  _ ← clear_marker
  _ ← write_state id deadline pending
  _ ← ask reset_authentication >>= relocked true "authentication reset failed"
  _ ← ask set_password >>= relocked true "password rotation failed"
  _ ← ask unlock_account >>= relocked false "guest unlock failed"
  _ ← ask is_locked >>= confirmed_unlocked
  clear_recovery

abbrev in_service : Bool → Step (Unit {0})
in_service true = failed "endpoint decommissioned"
in_service false = done tt

unfoldable pub issue : Text → Text → Text → Step (Unit {0})
unfolding enter hand_over
issue id digits input = do
  t ← now
  t' ← now
  deadline ← lift (deadline_of digits t t')
  password ← lift (read_password input)
  _ ← look (λ d. d.password_length) >>= length_fits (length password)
  _ ← must take_lock "lock"
  _ ← look (λ d. d.decommissioned) >>= in_service
  s ← enter
  _ ← look (λ d. d.tombstones id) >>= unburied
  _ ← unclaimed id deadline s
  hand_over id deadline

-- A record that forbids to revoke `id`: one in a session, or a live one of another generation.
abbrev refuses : Text → Option State → Bool
refuses id none = false
refuses id (some s) = elim s.phase [ active ↦ true | pending ↦ s.id != id | revoked ↦ false ]

abbrev permitted : Text → Option State → Step (Unit {0})
permitted id s =
    if refuses id s
    then failed "refusing to revoke active or different live generation"
    else done tt

-- The deadline of the record of `id`, or the present.
abbrev deadline_kept : Text → Option State → Step ℕ
deadline_kept id none = now
deadline_kept id (some s) = if s.id == id then done s.deadline else now

unfoldable pub revoke : Text → Step (Unit {0})
unfolding enter
revoke id = do
  _ ← must take_lock "lock"
  s ← enter
  _ ← permitted id s
  _ ← ask secure >>= secured "local revocation unconfirmed"
  _ ← clear_marker
  deadline ← deadline_kept id s
  _ ← write_state id deadline revoked
  clear_recovery

issue_args : Text → List Text → Text → Step (Unit {0})
issue_args id (deadline ∷ []) input = issue id deadline input
issue_args id rest input = failed "invalid issue command"

account_args : Text → Text → List Text → Text → Step (Unit {0})
unfolding issue_args
account_args action id rest input =
    if action == codes "issue"
    then issue_args id rest input
    else if action != codes "revoke" || length rest != 0
    then failed "invalid lifecycle action"
    else revoke id

unfoldable pub account : List Text → Text → Step (Unit {0})
unfolding account_args
account (action ∷ id ∷ rest) input =
    if credential_id id
    then account_args action id rest input
    else failed "invalid generation command"
account args input = failed "invalid generation command"
