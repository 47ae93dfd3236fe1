-- ===== src/Core/Booking.antt =====
-- internal/core/checkout.go: `Checkout` whole, with `compensate`. The provisioner and what other
-- requests commit while this one waits are arguments.
pub mod Safety
pub mod Promise
use lab_gate.Prelude.{
  ℕ, ◌+◌, ◌/◌, Text, codes, lower, Option, Bool, true, false, not, if◌then◌else◌, Error, fail,
  unique, Result, ok, err,
}
use lab_gate.Store.{Machine, Db, tx}
use lab_gate.Config.{Config, allowed}
use lab_gate.Core.Checkout.{Ticket, reserve, activate, prepare, finish}
use lab_gate.Core.Password.{password}

pub record Issued : Type 0 where
  pub username : Text
  pub password : Text
  pub expires : ℕ

-- What one call meets: its clock, its random ids and draws, the answers of `Provisioner`, the faults
-- of its four transactions, and the commits of others before each but the first.
pub record Turn : Type 0 where
  pub now : ℕ
  pub now_active : ℕ
  pub now_failed : ℕ
  pub id : Text
  pub draws : ℕ → Option ℕ
  pub audit_reserve : Text
  pub audit_active : Text
  pub audit_failed : Text
  pub issues : Machine → Text → ℕ → Text → Bool
  pub locks : Machine → Text → Bool
  pub fault_reserve : Bool
  pub fault_active : Bool
  pub fault_prepare : Bool
  pub fault_finish : Bool
  pub during_issue : Db → Db
  pub before_prepare : Db → Db
  pub during_lock : Db → Db

reconciliation : Error
reconciliation = fail 503 "Provisioning failed; reconciliation required"

finished : Result (Unit {0}) × Db → Error × Db
unfolding reconciliation
finished (ok a, db) = (fail 502 "Machine provisioning failed; no password was issued", db)
finished (err e, db) = (reconciliation, db)

-- The lock over SSH, and the transaction that records whether it was confirmed.
prepared : Turn → Machine → Text → Result (Unit {0}) × Db → Error × Db
unfolding finished
prepared w target email (err e, db) = (reconciliation, db)
prepared w target email (ok a, db) = finished (
    tx w.fault_finish (finish target w.id email w.audit_failed w.now_failed (w.locks target w.id))
      (w.during_lock db))

-- A failed issue never returns a password.
pub compensate : Turn → Machine → Text → Db → Error × Db
unfolding prepared
compensate w target email db =
    prepared w target email
      (tx w.fault_prepare (prepare target w.id w.now_failed) (w.before_prepare db))

abbrev failed {ℓ} : {A : Type ℓ} → Error × Db → Result A × Db
failed (e, db) = (err e, db)

-- The second transaction, after the machine took the password.
activated : Turn → Machine → Ticket → Text → Result (Unit {0}) × Db → Result Issued × Db
unfolding compensate
activated w m q word (ok a, db) =
    (ok (record { username = codes "guest"; password = word; expires = q.expires }), db)
activated w m q word (err e, db) = failed (compensate w m q.email db)

reserved : Turn → Ticket → Text → Result Machine × Db → Result Issued × Db
unfolding activated
reserved w q word (err unique, db) = (err (fail 409 "Reservation conflict"), db)
reserved w q word (err e, db) = (err e, db)
reserved w q word (ok m, db) =
    if not (w.issues m w.id (q.expires / 1000) word)
    then failed (compensate w m q.email (w.during_issue db))
    else activated w m q word
        (tx w.fault_active (activate m q w.audit_active w.now_active) (w.during_issue db))

abbrev pub ticket : Config → Turn → Text → Text → Ticket
ticket c w mid email = record {
  mid = mid;
  id = w.id;
  email = lower email;
  now = w.now;
  expires = w.now + c.ttl;
}

booked : Config → Turn → Text → Text → Result Text → Db → Result Issued × Db
unfolding reserved
booked c w mid email (err e) db = (err e, db)
booked c w mid email (ok word) db =
    let q = ticket c w mid email in
    reserved w q word (tx w.fault_reserve (reserve q w.audit_reserve) db)

unfoldable pub checkout : Config → Turn → Text → Text → Db → Result Issued × Db
unfolding booked
checkout c w mid email db =
    if not (allowed c email)
    then (err (fail 403 "University account required"), db)
    else booked c w mid email (password w.draws 0 c.password_length) db
