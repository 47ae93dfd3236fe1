-- ===== src/Core/Booking/Promise.antt =====
-- internal/core/checkout.go, `Checkout`: the tables after a password is handed out.
use lab_gate.Prelude.{
  Text, Bool, true, false, not, ◌≡◌, refl, text_eq, nat_eq, if◌then◌else◌, Result, ok, err, fail,
  other, Ensures, Bool-cases, io, unique, no_rows, inl, inr, subst, ◌+◌, ◌/◌, Error,
}
use lab_gate.Store.{Machine, Db, tx}
use lab_gate.Core.Invariant.{IsSafe}
use lab_gate.Core.Checkout.{Ticket, reserve, activate}
use lab_gate.Config.{Config, allowed}
use lab_gate.Store.{settle}
use lab_gate.Core.Checkout.Reserved.{IsReserved, reserve-IsReserved}
use lab_gate.Core.Checkout.Safety.{reserve-IsSafe}
use lab_gate.Core.Checkout.Activated.{IsHandedOut, activate-IsHandedOut}
use lab_gate.Core.Password.{password}
use lab_gate.Core.Booking.{
  Turn, Issued, compensate, failed, activated, reserved, ticket, booked, checkout,
}
use lab_gate.Core.Booking.Safety.{OthersAreSafe}

-- Of a call that returns a password.
abbrev Promised : Ticket → Result Issued × Db → Type 0
Promised q (ok i, db) = IsHandedOut q db × (i.expires ≡ q.expires)
Promised q (err e, db) = Unit

failed-Promised : (q : Ticket) (r : Error × Db) → Promised q (failed r)
failed-Promised q (e, db) = tt

activated-Promised :
    (w : Turn) (m : Machine) (q : Ticket) (word : Text) (fault : Bool) (r : Result (Unit {0} × Db))
    (db : Db)
    → Ensures (λ x. IsHandedOut q x.1) r
    → Promised q (activated w m q word (if fault then (err io, db) else settle r db))
unfolding activated
activated-Promised w m q word true r db k = failed-Promised q (compensate w m q.email db)
activated-Promised w m q word false (ok (a, db')) db k = (k.at (a, db') refl, refl)
activated-Promised w m q word false (err e) db k = failed-Promised q (compensate w m q.email db)

issued-Promised :
    (w : Turn) (q : Ticket) (word : Text) (m : Machine) (db : Db)
    → m.id ≡ q.mid
    → OthersAreSafe w q.mid
    → IsSafe db
    → Promised q (reserved w q word (ok m, db))
unfolding reserved tx
issued-Promised w q word m db i o v =
    elim (Bool-cases (not (w.issues m w.id (q.expires / 1000) word))) [
      | inl refused ↦ rw refused (failed-Promised q (compensate w m q.email (w.during_issue db)))
      | inr answered ↦ rw answered (
          activated-Promised w m q word w.fault_active
            (activate m q w.audit_active w.now_active (w.during_issue db)) (w.during_issue db)
            (activate-IsHandedOut m q w.audit_active w.now_active (w.during_issue db) i
              (o.safe_issue db v)))
    ]

reserved-Promised :
    (w : Turn) (q : Ticket) (word : Text) (fault : Bool) (r : Result (Machine × Db)) (db : Db)
    → OthersAreSafe w q.mid
    → Ensures (λ x. IsSafe x.1) r
    → Ensures (λ x. IsReserved q db x.0 x.1) r
    → Promised q (reserved w q word (if fault then (err io, db) else settle r db))
unfolding reserved
reserved-Promised w q word true r db o k f = tt
reserved-Promised w q word false (err unique) db o k f = tt
reserved-Promised w q word false (err (fail n s)) db o k f = tt
reserved-Promised w q word false (err no_rows) db o k f = tt
reserved-Promised w q word false (err io) db o k f = tt
reserved-Promised w q word false (err (other s)) db o k f = tt
reserved-Promised w q word false (ok (m, db')) db o k f =
    issued-Promised w q word m db' (f.at (m, db') refl).ident o (k.at (m, db') refl)

booked-Promised :
    (c : Config) (w : Turn) (mid email : Text) (r : Result Text) (db : Db)
    → OthersAreSafe w mid
    → IsSafe db
    → Promised (ticket c w mid email) (booked c w mid email r db)
unfolding booked tx
booked-Promised c w mid email (err e) db o v = tt
booked-Promised c w mid email (ok word) db o v =
    let q = ticket c w mid email in
    reserved-Promised w q word w.fault_reserve (reserve q w.audit_reserve db) db o
      (reserve-IsSafe q w.audit_reserve db v) (reserve-IsReserved q w.audit_reserve db v)

-- A checkout from safe tables that returns a password, where the requests that commit in between
-- keep the tables safe and move no generation, has left its machine occupied with no safety hold,
-- and its generation live, pending and unopened, and it returns the time at which it began plus
-- the lifetime of a password.
pub issued_password_is_live :
    (c : Config) (w : Turn) (mid email : Text) (db db' : Db) (i : Issued)
    → OthersAreSafe w mid
    → IsSafe db
    → checkout c w mid email db ≡ (ok i, db')
    → IsHandedOut (ticket c w mid email) db' × (i.expires ≡ w.now + c.ttl)
unfolding checkout
issued_password_is_live c w mid email db db' i o v h =
    let p : Promised (ticket c w mid email) (checkout c w mid email db) =
      elim (Bool-cases (not (allowed c email))) [
        | inl refused ↦ rw refused tt
        | inr member ↦
            rw member (booked-Promised c w mid email (password w.draws 0 c.password_length) db o v)
      ] in
    subst (Promised (ticket c w mid email)) h p
