-- ===== src/Machine/Session/Reissue.antt =====
-- internal/machine/lifecycle.go: what becomes of a generation after its end.
use lab_gate.Prelude.{Text, List, ◌≡◌, Error, err}
use lab_gate.Machine.State.{revoked, State}
use lab_gate.Machine.Runtime.{holds, Disk, World}
use lab_gate.Machine.Runtime.Burial.{IsBuried}
use lab_gate.Machine.Account.{issue}
use lab_gate.Machine.Account.Refusal.{issue-Refuses}
use lab_gate.Machine.Session.{Operation, perform_all}
use lab_gate.Machine.Session.Keeping.{perform_all-IsKept}

-- Where the generation of a revoked record has a tombstone, it has one after any operations, whatever
-- the system answered them and whichever of their writes failed.
pub revoked_stays-IsBuried :
    (os : List (Operation × World)) (d : Disk) → IsBuried d → IsBuried (perform_all os d)
revoked_stays-IsBuried os d b = (perform_all-IsKept os d).buried b

-- Once the record of a generation is revoked, and has its tombstone, an issue of that generation
-- fails and leaves the record as it is, whatever operations came in between, whatever the system
-- answered them, and whichever of their writes failed.
pub revoked_is_never_issued :
    (os : List (Operation × World)) (w : World) (d : Disk) (s : State) (digits input : Text)
    → IsBuried d
    → d.state ≡ holds s
    → s.phase ≡ revoked
    → ((e : Error) × (((issue s.id digits input).run w (perform_all os d)).0 ≡ err e))
      × (((issue s.id digits input).run w (perform_all os d)).1.state ≡ (perform_all os d).state)
revoked_is_never_issued os w d s digits input b e p =
    let (t, dead) = b s e p in
    (issue-Refuses s.id digits input w (perform_all os d) t
      ((perform_all-IsKept os d).stays s.id t dead)).refused
