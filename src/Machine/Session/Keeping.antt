-- ===== src/Machine/Session/Keeping.antt =====
-- The tombstones of an endpoint through the operations of internal/machine/lifecycle.go.
use lab_gate.Prelude.{
  ℕ, Text, codes, List, [], ◌∷◌, ◌++◌, Bool, true, false, not, ◌&&◌, ◌||◌, ◌==◌, text_eq, nat_eq,
  refl, Result, ok, err,
}
use lab_gate.Machine.State.{Phase, pending, active, revoked, State}
use lab_gate.Machine.Runtime.{
  File, absent, unreadable, holds, take_lock, sessions, secure, kill, make_home, is_locked, write,
  marker_file, Answer, yes, no, lost, Disk, World, Step, ◌>>=◌, outcome, now, look, must,
  is_revoked, clear_marker, recovery,
}
use lab_gate.Machine.Runtime.Burial.{
  IsKept, IsKept-refl, IsKept-trans, Keeps, Any, done-Keeps, failed-Keeps, look-Keeps,
  outcome-Keeps, ask-Keeps, now-Keeps, then-Keeps, change-Keeps,
}
use lab_gate.Machine.Runtime.Writing.{
  write_state-Keeps, must-Keeps, clear_marker-Keeps, clear_recovery-Keeps, recovery-Keeps,
}
use lab_gate.Machine.Account.Keeping.{asked-Keeps, account-Keeps}
use lab_gate.Machine.Outbox.Keeping.{test-Keeps, enqueue-Keeps}
use lab_gate.Machine.Session.{
  fail_secure, or_fail_secure, guarded, noted, open_late, unlocked, mark, open_in_time, open_at,
  open_phase, open_session, is_readable, close_record, close_session, pam, end_generation,
  ended_event, settle_active, settle_phase, settle, without_record, clean, cleanup, Operation,
  account_command, pam_hook, clean_up, perform, perform_all,
}

-- A step whose error is dropped.
tried : {m : Step (Unit {0})} → Keeps Any m → Keeps Any (outcome m)
tried {m} k = outcome-Keeps Any m k

fail_secure-Keeps : Keeps Any fail_secure
unfolding fail_secure
fail_secure-Keeps = then-Keeps Any _ _ (ask-Keeps secure) λ _.
    then-Keeps Any _ _ (tried clear_marker-Keeps) λ _.
      then-Keeps Any recovery _ recovery-Keeps
        λ _. failed-Keeps Any "local lifecycle recovery required"

or_fail_secure-Keeps : (r : Result (Unit {0})) → Keeps Any (or_fail_secure r)
or_fail_secure-Keeps (ok u) = done-Keeps tt
or_fail_secure-Keeps (err e) = fail_secure-Keeps

guarded-Keeps : {m : Step (Unit {0})} → Keeps Any m → Keeps Any (guarded m)
guarded-Keeps {m} k = then-Keeps Any (outcome m) or_fail_secure (tried k) or_fail_secure-Keeps

noted-Keeps : (r : Result (Unit {0})) → Keeps Any (noted r)
noted-Keeps (ok u) = done-Keeps tt
noted-Keeps (err e) = then-Keeps Any recovery _ recovery-Keeps λ _. done-Keeps tt

open_late-Keeps : (s : State) → Keeps Any (open_late s)
unfolding open_late
open_late-Keeps s = then-Keeps Any _ _ (guarded-Keeps (must-Keeps secure "secure")) λ _.
    then-Keeps Any _ _ (write_state-Keeps s.id s.deadline revoked) λ _.
      then-Keeps Any _ _ (tried clear_marker-Keeps) λ _.
        then-Keeps Any _ _ (tried (enqueue-Keeps (codes "credential-expired") s.id 3))
          λ _. failed-Keeps Any "password deadline expired"

unlocked-Keeps : (a : Answer) → Keeps Any (unlocked a)
unlocked-Keeps no = done-Keeps tt
unlocked-Keeps yes = failed-Keeps Any _
unlocked-Keeps lost = failed-Keeps Any _

mark-Keeps : (id key : Text) → Keeps Any (mark id key)
mark-Keeps id key =
    change-Keeps (write marker_file) (λ d. record d { marker = holds (id ++ 9 ∷ key) }) (λ d. refl)
      (λ d. refl)

open_in_time-Keeps : (s : State) (key : Text) → Keeps Any (open_in_time s key)
unfolding open_in_time
open_in_time-Keeps s key =
    then-Keeps Any _ _ (guarded-Keeps (asked-Keeps is_locked unlocked unlocked-Keeps)) λ _.
      then-Keeps Any _ _ (guarded-Keeps (must-Keeps kill "kill")) λ _.
        then-Keeps Any _ _ (guarded-Keeps (must-Keeps make_home "home")) λ _.
          then-Keeps Any _ _ (guarded-Keeps (mark-Keeps s.id key)) λ _.
            then-Keeps Any _ _ (guarded-Keeps (write_state-Keeps s.id s.deadline active)) λ _.
              then-Keeps Any _ _ (tried clear_recovery-Keeps) λ _.
                then-Keeps Any _ noted (tried (enqueue-Keeps (codes "session-open") s.id 2))
                  noted-Keeps

open_at-Keeps : (s : State) (key : Text) (t : ℕ) → Keeps Any (open_at s key t)
unfolding open_at
open_at-Keeps s key t =
    test-Keeps _ _ _ fail_secure-Keeps
      (test-Keeps _ _ _ (open_late-Keeps s) (open_in_time-Keeps s key))

open_phase-Keeps : (s : State) (key : Text) (p : Phase) → Keeps Any (open_phase s key p)
unfolding open_phase
open_phase-Keeps s key active = failed-Keeps Any _
open_phase-Keeps s key revoked = fail_secure-Keeps
open_phase-Keeps s key pending = then-Keeps Any now (open_at s key) now-Keeps (open_at-Keeps s key)

open_session-Keeps : (key : Text) (f : File State) → Keeps Any (open_session key f)
unfolding open_session
open_session-Keeps key absent = fail_secure-Keeps
open_session-Keeps key unreadable = fail_secure-Keeps
open_session-Keeps key (holds s) = open_phase-Keeps s key s.phase

close_record-Keeps : (f : File State) (marked : Bool) → Keeps Any (close_record f marked)
unfolding close_record
close_record-Keeps absent marked = fail_secure-Keeps
close_record-Keeps unreadable marked = fail_secure-Keeps
close_record-Keeps (holds s) marked =
    then-Keeps Any _ _ (guarded-Keeps (write_state-Keeps s.id s.deadline revoked)) λ _.
      then-Keeps Any _ _ clear_marker-Keeps λ _.
        then-Keeps Any _ _ (tried clear_recovery-Keeps) λ _.
          test-Keeps (not (is_revoked s.phase) || marked) _ _
            (then-Keeps Any _ noted (tried (enqueue-Keeps (codes "session-close") s.id 3))
              noted-Keeps)
            (done-Keeps tt)

close_session-Keeps :
    (key : Text) (s : File State) (marker : File Text) → Keeps Any (close_session key s marker)
unfolding close_session
close_session-Keeps key s marker = test-Keeps _ _ _ (done-Keeps tt) (
    then-Keeps Any _ _ (guarded-Keeps (must-Keeps secure "secure"))
      λ _. close_record-Keeps s (is_readable marker))

pam-Keeps : (user kind key : Text) → Keeps Any (pam user kind key)
unfolding pam
pam-Keeps user kind key = test-Keeps _ _ _ (done-Keeps tt) (
    then-Keeps Any _ _ (must-Keeps take_lock "lock") λ _.
      then-Keeps Any _ _ (look-Keeps (λ d. d.state)) λ s.
        then-Keeps Any _ _ (look-Keeps (λ d. d.marker)) λ marker.
          test-Keeps (kind == codes "open_session") _ _ (open_session-Keeps key s) (
            test-Keeps (kind == codes "close_session") _ _ (close_session-Keeps key s marker)
              (done-Keeps tt)))

end_generation-Keeps : (boot : Bool) (s : State) → Keeps Any (end_generation boot s)
unfolding end_generation
end_generation-Keeps boot s = then-Keeps Any _ _ (guarded-Keeps (must-Keeps secure "secure")) λ _.
    then-Keeps Any _ _ (write_state-Keeps s.id s.deadline revoked) λ _.
      then-Keeps Any _ _ clear_marker-Keeps λ _.
        then-Keeps Any _ _ (tried clear_recovery-Keeps) λ _.
          test-Keeps (not boot && not (is_revoked s.phase)) _ _
            (enqueue-Keeps (ended_event s.phase) s.id 3) (done-Keeps tt)

settle_active-Keeps : (s : State) (t : ℕ) (a : Answer) → Keeps Any (settle_active s t a)
settle_active-Keeps s t yes = done-Keeps tt
settle_active-Keeps s t no = test-Keeps _ _ _ (done-Keeps tt) (end_generation-Keeps false s)
settle_active-Keeps s t lost =
    then-Keeps Any recovery _ recovery-Keeps λ _. failed-Keeps Any "sessions unknown"

settle_phase-Keeps : (s : State) (t : ℕ) (p : Phase) → Keeps Any (settle_phase s t p)
unfolding settle_phase
settle_phase-Keeps s t pending = test-Keeps _ _ _ (done-Keeps tt) (end_generation-Keeps false s)
settle_phase-Keeps s t active = asked-Keeps sessions (settle_active s t) (settle_active-Keeps s t)
settle_phase-Keeps s t revoked = end_generation-Keeps false s

settle-Keeps : (s : State) (t : ℕ) → Keeps Any (settle s t)
unfolding settle
settle-Keeps s t = test-Keeps _ _ _ fail_secure-Keeps (settle_phase-Keeps s t s.phase)

without_record-Keeps : (f : File State) → Keeps Any (without_record f)
without_record-Keeps absent = done-Keeps tt
without_record-Keeps (holds s) = done-Keeps tt
without_record-Keeps unreadable =
    then-Keeps Any recovery _ recovery-Keeps λ _. failed-Keeps Any "corrupt credential state"

recordless-Keeps :
    (f : File State)
    → Keeps Any
        (guarded (must secure "secure") >>= λ u. outcome clear_marker >>= λ r. without_record f)
recordless-Keeps f =
    then-Keeps Any _ _ (guarded-Keeps (must-Keeps secure "secure"))
      λ _. then-Keeps Any _ _ (tried clear_marker-Keeps) λ _. without_record-Keeps f

clean-Keeps : (boot : Bool) (f : File State) → Keeps Any (clean boot f)
unfolding clean
clean-Keeps true (holds s) = end_generation-Keeps true s
clean-Keeps false (holds s) = then-Keeps Any now (settle s) now-Keeps (settle-Keeps s)
clean-Keeps true absent = recordless-Keeps absent
clean-Keeps true unreadable = recordless-Keeps unreadable
clean-Keeps false absent = recordless-Keeps absent
clean-Keeps false unreadable = recordless-Keeps unreadable

cleanup-Keeps : (boot : Bool) → Keeps Any (cleanup boot)
unfolding cleanup
cleanup-Keeps boot = then-Keeps Any _ _ (must-Keeps take_lock "lock") λ _.
    then-Keeps Any (look (λ d. d.state)) (clean boot) (look-Keeps (λ d. d.state)) (clean-Keeps boot)

pub perform-Keeps : (o : Operation) → Keeps Any (perform o)
unfolding perform
perform-Keeps (account_command args input) = account-Keeps args input
perform-Keeps (pam_hook user kind key) = pam-Keeps user kind key
perform-Keeps (clean_up boot) = cleanup-Keeps boot

pub perform_all-IsKept : (os : List (Operation × World)) (d : Disk) → IsKept d (perform_all os d)
unfolding perform_all
perform_all-IsKept [] d = IsKept-refl d
perform_all-IsKept ((o, w) ∷ rest) d =
    IsKept-trans d ((perform o).run w d).1 _ ((perform-Keeps o).kept w d)
      (perform_all-IsKept rest ((perform o).run w d).1)
