-- ===== src/Tests/Endpoint.antt =====
-- The theorems on an endpoint whose generation is over, where the server tries to issue it again.
use lab_gate.Prelude.{
  codes, Text, List, [], ◌∷◌, ◌==◌, text_eq, true, false, ◌≡◌, refl, Error, err, if◌then◌else◌,
  arith,
}
use lab_gate.Machine.State.{State, revoked}
use lab_gate.Machine.Runtime.{absent, holds, is_locked, sessions, yes, no, Disk, World}
use lab_gate.Machine.Runtime.Burial.{IsBuried}
use lab_gate.Machine.Account.{issue}
use lab_gate.Machine.Session.{Operation, account_command, pam_hook, clean_up, perform_all}
use lab_gate.Machine.Session.Reissue.{revoked_is_never_issued, revoked_stays-IsBuried}

abbrev id : Text
id = codes "generation-of-desk-2"

abbrev over : State
over = record { id = id; deadline = 2180; phase = revoked; changed = 2000 }

abbrev disk : Disk
disk = record {
  state = holds over;
  tombstones = λ x. if x == id then holds 2000 else absent;
  marker = absent;
  needs_recovery = false;
  decommissioned = false;
  password_length = holds 5;
  sequence = absent;
  outbox = [];
  history = [];
}

disk-IsBuried : IsBuried disk
disk-IsBuried s e p = (2000, ground (arith, e))

-- Nobody is in a session, and every command succeeds.
abbrev calm : World
calm = record {
  answer = λ c h. elim c [ sessions ↦ no | is_locked ↦ no | _ ↦ yes ];
  time = λ h. 2100;
}

abbrev operations : List (Operation × World)
operations =
    (clean_up true, calm)
    ∷ (
      account_command (codes "issue" ∷ codes "generation-of-desk-3" ∷ codes "2180" ∷ [])
          (codes "ABCDE\n"),
      calm,
    )
    ∷ (pam_hook (codes "guest") (codes "open_session") (codes "k"), calm)
    ∷ []

revoked_stays-IsBuried_example : IsBuried (perform_all operations disk)
revoked_stays-IsBuried_example = revoked_stays-IsBuried operations disk disk-IsBuried

revoked_is_never_issued_example :
    ((e : Error) × (((issue id (codes "2180") (codes "ABCDE\n")).run calm
          (perform_all operations disk)).0
        ≡ err e))
    × (((issue id (codes "2180") (codes "ABCDE\n")).run calm (perform_all operations disk)).1.state
        ≡ (perform_all operations disk).state)
revoked_is_never_issued_example =
    revoked_is_never_issued operations calm disk over (codes "2180") (codes "ABCDE\n") disk-IsBuried
      refl refl
