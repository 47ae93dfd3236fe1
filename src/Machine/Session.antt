-- ===== src/Machine/Session.antt =====
-- internal/machine/lifecycle.go, `PAM` and `Cleanup`: a session opens and closes, and the timer and
-- the boot end what is over.
pub mod Keeping
pub mod Reissue
use lab_gate.Prelude.{
  ℕ, ◌+◌, ltb, leb, Text, codes, List, [], ◌∷◌, ◌++◌, Option, none, some, Bool, true, false, not,
  String, ◌&&◌, ◌||◌, ◌==◌, ◌!=◌, text_eq, nat_eq, if◌then◌else◌, all, length, is_digit, split,
  Error, Result, ok, err,
}
use lab_gate.Core.Identity.{credential_id}
use lab_gate.Machine.State.{Phase, pending, active, revoked, State}
use lab_gate.Machine.Runtime.{
  File, absent, unreadable, holds, Call, take_lock, sessions, secure, kill, make_home, is_locked,
  write, marker_file, Answer, yes, no, lost, Disk, World, Step, ◌>>=◌, done, failed, outcome, ask,
  now, look, change, must, is_revoked, write_state, clear_marker, clear_recovery, recovery,
}
use lab_gate.Machine.Outbox.{enqueue}
use lab_gate.Machine.Account.{account}

-- `failSecure`: what it does is tried, whatever of it fails, and the operation fails.
unfoldable pub fail_secure : Step (Unit {0})
fail_secure = do
  _ ← ask secure
  _ ← outcome clear_marker
  _ ← recovery
  failed "local lifecycle recovery required"

abbrev pub or_fail_secure : Result (Unit {0}) → Step (Unit {0})
or_fail_secure (ok u) = done tt
or_fail_secure (err e) = fail_secure

-- A step whose error leads to `failSecure`.
abbrev pub guarded : Step (Unit {0}) → Step (Unit {0})
guarded m = outcome m >>= or_fail_secure

abbrev pub noted : Result (Unit {0}) → Step (Unit {0})
noted (ok u) = done tt
noted (err e) = do _ ← recovery; done tt

-- The deadline has passed before anybody logged in.
unfoldable pub open_late : State → Step (Unit {0})
open_late s = do
  _ ← guarded (must secure "secure")
  _ ← write_state s.id s.deadline revoked
  _ ← outcome clear_marker
  _ ← outcome (enqueue (codes "credential-expired") s.id 3)
  failed "password deadline expired"

abbrev pub unlocked : Answer → Step (Unit {0})
unlocked no = done tt
unlocked a = failed "account locked"

abbrev pub mark : Text → Text → Step (Unit {0})
mark id key = change (write marker_file) (λ d. record d { marker = holds (id ++ 9 ∷ key) })

unfoldable pub open_in_time : State → Text → Step (Unit {0})
open_in_time s key = do
  _ ← guarded (ask is_locked >>= unlocked)
  _ ← guarded (must kill "kill")
  _ ← guarded (must make_home "home")
  _ ← guarded (mark s.id key)
  _ ← guarded (write_state s.id s.deadline active)
  _ ← outcome clear_recovery
  outcome (enqueue (codes "session-open") s.id 2) >>= noted

unfoldable pub open_at : State → Text → ℕ → Step (Unit {0})
open_at s key t =
    if ltb t s.changed
    then fail_secure
    else if leb s.deadline t
    then open_late s
    else open_in_time s key

unfoldable pub open_phase : State → Text → Phase → Step (Unit {0})
open_phase s key active = failed "concurrent guest open rejected"
open_phase s key revoked = fail_secure
open_phase s key pending = now >>= open_at s key

unfoldable pub open_session : Text → File State → Step (Unit {0})
open_session key (holds s) = open_phase s key s.phase
open_session key f = fail_secure

abbrev pub is_hex : ℕ → Bool
is_hex c = is_digit c || leb b'a' c && leb c b'f'

abbrev pub is_context_key : Text → Bool
is_context_key v = length v == 64 && all is_hex v

abbrev pub is_other_context : Text → List Text → Bool
is_other_context key (id ∷ k ∷ []) = credential_id id && is_context_key k && k != key
is_other_context key fields = false

-- A marker of another login, whose session goes on.
abbrev pub is_other_login : Text → File Text → Bool
is_other_login key (holds v) = is_other_context key (split 9 v)
is_other_login key f = false

abbrev pub is_readable {ℓ} : {A : Type ℓ} → File A → Bool
is_readable (holds a) = true
is_readable f = false

unfoldable pub close_record : File State → Bool → Step (Unit {0})
close_record (holds s) marked = do
  _ ← guarded (write_state s.id s.deadline revoked)
  _ ← clear_marker
  _ ← outcome clear_recovery
  if not (is_revoked s.phase) || marked
      then outcome (enqueue (codes "session-close") s.id 3) >>= noted
      else done tt
close_record f marked = fail_secure

unfoldable pub close_session : Text → File State → File Text → Step (Unit {0})
close_session key s marker =
    if is_other_login key marker
    then done tt
    else guarded (must secure "secure") >>= λ u. close_record s (is_readable marker)

unfoldable pub pam : Text → Text → Text → Step (Unit {0})
pam user kind key = if user != codes "guest" then done tt else do
  _ ← must take_lock "lock"
  s ← look (λ d. d.state)
  marker ← look (λ d. d.marker)
  if kind == codes "open_session"
      then open_session key s
      else if kind == codes "close_session"
      then close_session key s marker
      else done tt

abbrev pub ended_event : Phase → Text
ended_event pending = codes "credential-expired"
ended_event p = codes "session-close"

-- Lock the account and record the end.
unfoldable pub end_generation : Bool → State → Step (Unit {0})
end_generation boot s = do
  _ ← guarded (must secure "secure")
  _ ← write_state s.id s.deadline revoked
  _ ← clear_marker
  _ ← outcome clear_recovery
  if not boot && not (is_revoked s.phase) then enqueue (ended_event s.phase) s.id 3 else done tt

-- A session that the system still lists, or that opened less than two minutes ago, goes on.
abbrev pub settle_active : State → ℕ → Answer → Step (Unit {0})
settle_active s t yes = done tt
settle_active s t no = if ltb t (s.changed + 120) then done tt else end_generation false s
settle_active s t lost = do _ ← recovery; failed "sessions unknown"

-- What the timer does with a record of the phase, at the time `t`.
unfoldable pub settle_phase : State → ℕ → Phase → Step (Unit {0})
settle_phase s t pending = if ltb t s.deadline then done tt else end_generation false s
settle_phase s t active = ask sessions >>= settle_active s t
settle_phase s t revoked = end_generation false s

unfoldable pub settle : State → ℕ → Step (Unit {0})
settle s t = if ltb t s.changed then fail_secure else settle_phase s t s.phase

abbrev pub without_record : File State → Step (Unit {0})
without_record unreadable = do _ ← recovery; failed "corrupt credential state"
without_record f = done tt

unfoldable pub clean : Bool → File State → Step (Unit {0})
clean true (holds s) = end_generation true s
clean false (holds s) = now >>= settle s
clean boot f = do _ ← guarded (must secure "secure"); _ ← outcome clear_marker; without_record f

unfoldable pub cleanup : Bool → Step (Unit {0})
cleanup boot = do _ ← must take_lock "lock"; look (λ d. d.state) >>= clean boot

-- What runs on an endpoint.
pub data Operation : Type 0 where
  account_command : List Text → Text → Operation
  pam_hook : Text → Text → Text → Operation
  clean_up : Bool → Operation

unfoldable pub perform : Operation → Step (Unit {0})
perform (account_command args input) = account args input
perform (pam_hook user kind key) = pam user kind key
perform (clean_up boot) = cleanup boot

-- Operations one after the other, each in its own world, whether they fail or not.
unfoldable pub perform_all : List (Operation × World) → Disk → Disk
perform_all [] d = d
perform_all ((o, w) ∷ rest) d = perform_all rest ((perform o).run w d).1
