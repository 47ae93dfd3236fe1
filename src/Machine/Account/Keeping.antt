-- ===== src/Machine/Account/Keeping.antt =====
-- The tombstones of an endpoint through internal/machine/lifecycle.go, `Account` and `ReadPassword`.
use lab_gate.Prelude.{
  ℕ, Text, codes, List, [], ◌∷◌, Option, none, some, Bool, true, false, ◌||◌, ◌==◌, ◌!=◌, text_eq,
  nat_eq, length, String, Bool-cases, inl, inr,
}
use lab_gate.Machine.State.{pending, revoked, State}
use lab_gate.Machine.Runtime.{
  File, absent, unreadable, holds, Call, take_lock, sessions, secure, is_locked,
  reset_authentication, set_password, lock_account, unlock_account, Answer, yes, no, lost, Step,
  ◌>>=◌, failed, ask, look, recovery,
}
use lab_gate.Machine.Runtime.Burial.{
  Keeps, Any, done-Keeps, failed-Keeps, look-Keeps, ask-Keeps, now-Keeps, then-Keeps,
}
use lab_gate.Machine.Runtime.Writing.{
  write_state-Keeps, must-Keeps, clear_marker-Keeps, clear_recovery-Keeps, recovery-Keeps,
}
use lab_gate.Machine.Outbox.Keeping.{lift-Keeps, test-Keeps}
use lab_gate.Machine.Account.{
  length_fits, record_of, no_session, enter, unburied, unclaimed, secured, relocked,
  confirmed_unlocked, hand_over, in_service, issue, permitted, deadline_kept, revoke, issue_args,
  account_args, account, read_password, deadline_of,
}

length_fits-Keeps : (n : ℕ) (f : File ℕ) → Keeps Any (length_fits n f)
length_fits-Keeps n absent = failed-Keeps Any _
length_fits-Keeps n unreadable = failed-Keeps Any _
length_fits-Keeps n (holds k) = test-Keeps _ _ _ (failed-Keeps Any _) (done-Keeps tt)

record_of-Keeps : (f : File State) → Keeps Any (record_of f)
record_of-Keeps absent = done-Keeps none
record_of-Keeps (holds s) = done-Keeps (some s)
record_of-Keeps unreadable =
    then-Keeps Any recovery _ recovery-Keeps λ u. failed-Keeps Any "corrupt credential state"

no_session-Keeps : (a : Answer) → Keeps Any (no_session a)
no_session-Keeps yes = failed-Keeps Any _
no_session-Keeps no = done-Keeps tt
no_session-Keeps lost = failed-Keeps Any _

enter-Keeps : Keeps Any enter
unfolding enter
enter-Keeps =
    then-Keeps Any _ _
      (then-Keeps Any (look (λ d. d.state)) record_of (look-Keeps (λ d. d.state)) record_of-Keeps)
      λ s.
        then-Keeps Any _ _
          (then-Keeps Any (ask sessions) no_session (ask-Keeps sessions) no_session-Keeps)
          λ u. done-Keeps s

unburied-Keeps : (f : File ℕ) → Keeps Any (unburied f)
unburied-Keeps absent = done-Keeps tt
unburied-Keeps unreadable = failed-Keeps Any _
unburied-Keeps (holds t) = failed-Keeps Any _

unclaimed-Keeps :
    (id : Text) (deadline : ℕ) (s : Option State) → Keeps Any (unclaimed id deadline s)
unclaimed-Keeps id deadline none = done-Keeps tt
unclaimed-Keeps id deadline (some s) = test-Keeps _ _ _ (failed-Keeps Any _) (done-Keeps tt)

secured-Keeps : (s : String) (a : Answer) → Keeps Any (secured s a)
secured-Keeps s yes = done-Keeps tt
secured-Keeps s no = then-Keeps Any recovery _ recovery-Keeps λ u. failed-Keeps Any s
secured-Keeps s lost = then-Keeps Any recovery _ recovery-Keeps λ u. failed-Keeps Any s

noted_failure :
    (s : String) → Keeps {A = Unit {0}} Any (ask lock_account >>= λ x. recovery >>= λ u. failed s)
noted_failure s =
    then-Keeps Any (ask lock_account) _ (ask-Keeps lock_account)
      λ x. then-Keeps Any recovery _ recovery-Keeps λ u. failed-Keeps Any s

locked_failure : (s : String) → Keeps {A = Unit {0}} Any (ask lock_account >>= λ x. failed s)
locked_failure s =
    then-Keeps Any (ask lock_account) _ (ask-Keeps lock_account) λ x. failed-Keeps Any s

relocked-Keeps : (note : Bool) (s : String) (a : Answer) → Keeps Any (relocked note s a)
relocked-Keeps note s yes = done-Keeps tt
relocked-Keeps true s no = noted_failure s
relocked-Keeps true s lost = noted_failure s
relocked-Keeps false s no = locked_failure s
relocked-Keeps false s lost = locked_failure s

confirmed_unlocked-Keeps : (a : Answer) → Keeps Any (confirmed_unlocked a)
confirmed_unlocked-Keeps no = done-Keeps tt
confirmed_unlocked-Keeps yes = locked_failure _
confirmed_unlocked-Keeps lost = locked_failure _

-- A call, and what is done at its answer.
pub asked-Keeps :
    (c : Call) (f : Answer → Step (Unit {0}))
    → ((a : Answer) → Keeps Any (f a))
    → Keeps Any (ask c >>= f)
asked-Keeps c f k = then-Keeps Any (ask c) f (ask-Keeps c) k

hand_over-Keeps : (id : Text) (deadline : ℕ) → Keeps Any (hand_over id deadline)
unfolding hand_over
hand_over-Keeps id deadline = then-Keeps Any _ _ (asked-Keeps secure _ (secured-Keeps _)) λ _.
    then-Keeps Any _ _ clear_marker-Keeps λ _.
      then-Keeps Any _ _ (write_state-Keeps id deadline pending) λ _.
        then-Keeps Any _ _ (asked-Keeps reset_authentication _ (relocked-Keeps true _)) λ _.
          then-Keeps Any _ _ (asked-Keeps set_password _ (relocked-Keeps true _)) λ _.
            then-Keeps Any _ _ (asked-Keeps unlock_account _ (relocked-Keeps false _)) λ _.
              then-Keeps Any _ _ (asked-Keeps is_locked _ confirmed_unlocked-Keeps)
                λ _. clear_recovery-Keeps

in_service-Keeps : (b : Bool) → Keeps Any (in_service b)
in_service-Keeps true = failed-Keeps Any _
in_service-Keeps false = done-Keeps tt

issue-Keeps : (id digits input : Text) → Keeps Any (issue id digits input)
unfolding issue
issue-Keeps id digits input = then-Keeps Any _ _ now-Keeps λ t. then-Keeps Any _ _ now-Keeps λ t'.
    then-Keeps Any _ _ (lift-Keeps (deadline_of digits t t')) λ deadline.
      then-Keeps Any _ _ (lift-Keeps (read_password input)) λ password.
        then-Keeps Any _ _
          (then-Keeps Any _ _ (look-Keeps (λ d. d.password_length))
            (length_fits-Keeps (length password)))
          λ _. then-Keeps Any _ _ (must-Keeps take_lock "lock") λ _.
            then-Keeps Any _ _
              (then-Keeps Any _ _ (look-Keeps (λ d. d.decommissioned)) in_service-Keeps)
              λ _. then-Keeps Any _ _ enter-Keeps λ s.
                then-Keeps Any _ _
                  (then-Keeps Any _ _ (look-Keeps (λ d. d.tombstones id)) unburied-Keeps)
                  λ _.
                    then-Keeps Any _ _ (unclaimed-Keeps id deadline s)
                      λ _. hand_over-Keeps id deadline

permitted-Keeps : (id : Text) (s : Option State) → Keeps Any (permitted id s)
permitted-Keeps id s = test-Keeps _ _ _ (failed-Keeps Any _) (done-Keeps tt)

deadline_kept-Keeps : (id : Text) (s : Option State) → Keeps Any (deadline_kept id s)
deadline_kept-Keeps id none = now-Keeps
deadline_kept-Keeps id (some s) = elim (Bool-cases (s.id == id)) [
  | inl same ↦ rw same (done-Keeps s.deadline)
  | inr other ↦ rw other now-Keeps
]

revoke-Keeps : (id : Text) → Keeps Any (revoke id)
unfolding revoke
revoke-Keeps id = then-Keeps Any _ _ (must-Keeps take_lock "lock") λ _.
    then-Keeps Any _ _ enter-Keeps λ s. then-Keeps Any _ _ (permitted-Keeps id s) λ _.
      then-Keeps Any _ _ (asked-Keeps secure _ (secured-Keeps _)) λ _.
        then-Keeps Any _ _ clear_marker-Keeps λ _.
          then-Keeps Any _ _ (deadline_kept-Keeps id s) λ deadline.
            then-Keeps Any _ _ (write_state-Keeps id deadline revoked) λ _. clear_recovery-Keeps

issue_args-Keeps :
    (id : Text) (rest : List Text) (input : Text) → Keeps Any (issue_args id rest input)
unfolding issue_args
issue_args-Keeps id [] input = failed-Keeps Any _
issue_args-Keeps id (deadline ∷ []) input = issue-Keeps id deadline input
issue_args-Keeps id (deadline ∷ x ∷ xs) input = failed-Keeps Any _

account_args-Keeps :
    (action id : Text) (rest : List Text) (input : Text)
    → Keeps Any (account_args action id rest input)
unfolding account_args
account_args-Keeps action id rest input =
    test-Keeps (action == codes "issue") _ _ (issue_args-Keeps id rest input) (
      test-Keeps (action != codes "revoke" || length rest != 0) _ _
        (failed-Keeps Any "invalid lifecycle action") (revoke-Keeps id))

pub account-Keeps : (args : List Text) (input : Text) → Keeps Any (account args input)
unfolding account
account-Keeps [] input = failed-Keeps Any _
account-Keeps (action ∷ []) input = failed-Keeps Any _
account-Keeps (action ∷ id ∷ rest) input =
    test-Keeps _ _ _ (account_args-Keeps action id rest input) (failed-Keeps Any _)
