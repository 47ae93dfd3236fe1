-- ===== src/Core/Booking/Safety.antt =====
-- The safety of the tables through internal/core/checkout.go, `Checkout`.
use lab_gate.Prelude.{
  ◌/◌, Text, Bool, true, false, not, ◌≡◌, refl, if◌then◌else◌, unique, no_rows, io, fail, other,
  Result, ok, err, Ensures, Bool-cases, inl, inr, subst, sym,
}
use lab_gate.Store.{Machine, Db, tx, settle}
use lab_gate.Config.{Config, allowed}
use lab_gate.Core.Invariant.{IsSafe, tx-IsSafe}
use lab_gate.Core.Revival.{IsOf}
use lab_gate.Core.Checkout.{is_null, Ticket, reserve, activate, prepare, finish}
use lab_gate.Core.Checkout.Safety.{reserve-IsSafe, activate-IsSafe, prepare-IsSafe, finish-IsSafe}
use lab_gate.Core.Checkout.Reserved.{IsReserved, reserve-IsReserved}
use lab_gate.Core.Password.{password}
use lab_gate.Core.Booking.{
  Turn, finished, prepared, compensate, activated, reserved, ticket, booked, checkout,
}

-- What the call assumes of the commits that come between its own: they keep the tables safe, and
-- they move no generation to another machine.
pub record OthersAreSafe (w : Turn) (mid : Text) : Type 0 where
  pub safe_issue : (db : Db) → IsSafe db → IsSafe (w.during_issue db)
  pub safe_prepare : (db : Db) → IsSafe db → IsSafe (w.before_prepare db)
  pub safe_lock : (db : Db) → IsSafe db → IsSafe (w.during_lock db)
  pub of_issue :
      (db : Db) → IsOf w.id mid db.credentials → IsOf w.id mid (w.during_issue db).credentials
  pub of_prepare :
      (db : Db) → IsOf w.id mid db.credentials → IsOf w.id mid (w.before_prepare db).credentials

finished-IsSafe : (r : Result (Unit {0}) × Db) → IsSafe r.1 → IsSafe (finished r).1
unfolding finished
finished-IsSafe (ok a, db) v = v
finished-IsSafe (err e, db) v = v

prepared-IsSafe :
    (w : Turn) (target : Machine) (email : Text) (r : Result (Unit {0}) × Db)
    → is_null target.pin ≡ false
    → ((db : Db) → IsSafe db → IsSafe (w.during_lock db))
    → IsSafe r.1
    → IsSafe (prepared w target email r).1
unfolding prepared
prepared-IsSafe w target email (err e, db) pinned others v = v
prepared-IsSafe w target email (ok a, db) pinned others v =
    let locked = w.locks target w.id in
    finished-IsSafe _ (
      tx-IsSafe w.fault_finish (finish target w.id email w.audit_failed w.now_failed locked)
        (w.during_lock db)
        (finish-IsSafe target w.id email w.audit_failed w.now_failed locked (w.during_lock db)
          pinned (others db v))
        (others db v))

compensate-IsSafe :
    (w : Turn) (target : Machine) (email : Text) (db : Db)
    → is_null target.pin ≡ false
    → OthersAreSafe w target.id
    → IsOf w.id target.id db.credentials
    → IsSafe db
    → IsSafe (compensate w target email db).1
unfolding compensate
compensate-IsSafe w target email db pinned o of v =
    prepared-IsSafe w target email _ pinned o.safe_lock (
      tx-IsSafe w.fault_prepare (prepare target w.id w.now_failed) (w.before_prepare db)
        (prepare-IsSafe target w.id w.now_failed (w.before_prepare db) (o.of_prepare db of)
          (o.safe_prepare db v))
        (o.safe_prepare db v))

-- Only a commit of the second transaction changes the tables before the compensation starts.
activated-IsSafe :
    (w : Turn) (m : Machine) (q : Ticket) (word : Text) (fault : Bool) (r : Result (Unit {0} × Db))
    (db : Db)
    → is_null m.pin ≡ false
    → OthersAreSafe w m.id
    → IsOf w.id m.id db.credentials
    → IsSafe db
    → Ensures (λ x. IsSafe x.1) r
    → IsSafe (activated w m q word (if fault then (err io, db) else settle r db)).1
unfolding activated
activated-IsSafe w m q word true r db pinned o of v k =
    compensate-IsSafe w m q.email db pinned o of v
activated-IsSafe w m q word false (ok (a, db')) db pinned o of v k = k.at (a, db') refl
activated-IsSafe w m q word false (err e) db pinned o of v k =
    compensate-IsSafe w m q.email db pinned o of v

-- The part of a checkout that follows a committed reservation.
issued-IsSafe :
    (w : Turn) (q : Ticket) (word : Text) (m : Machine) (db : Db)
    → is_null m.pin ≡ false
    → OthersAreSafe w m.id
    → IsOf w.id m.id db.credentials
    → IsSafe db
    → IsSafe (reserved w q word (ok m, db)).1
unfolding reserved tx
issued-IsSafe w q word m db pinned o of v =
    elim (Bool-cases (not (w.issues m w.id (q.expires / 1000) word))) [
      | inl refused ↦ rw refused (
          compensate-IsSafe w m q.email (w.during_issue db) pinned o (o.of_issue db of)
            (o.safe_issue db v))
      | inr answered ↦ rw answered (
          activated-IsSafe w m q word w.fault_active
            (activate m q w.audit_active w.now_active (w.during_issue db)) (w.during_issue db)
            pinned o (o.of_issue db of) (o.safe_issue db v)
            (activate-IsSafe m q w.audit_active w.now_active (w.during_issue db)
              (o.safe_issue db v)))
    ]

reserved-IsSafe :
    (w : Turn) (q : Ticket) (word : Text) (fault : Bool) (r : Result (Machine × Db)) (db : Db)
    → OthersAreSafe w q.mid
    → q.id ≡ w.id
    → IsSafe db
    → Ensures (λ x. IsSafe x.1) r
    → Ensures (λ x. IsReserved q db x.0 x.1) r
    → IsSafe (reserved w q word (if fault then (err io, db) else settle r db)).1
unfolding reserved
reserved-IsSafe w q word true r db o i v k f = v
reserved-IsSafe w q word false (err unique) db o i v k f = v
reserved-IsSafe w q word false (err (fail n s)) db o i v k f = v
reserved-IsSafe w q word false (err no_rows) db o i v k f = v
reserved-IsSafe w q word false (err io) db o i v k f = v
reserved-IsSafe w q word false (err (other s)) db o i v k f = v
reserved-IsSafe w q word false (ok (m, db')) db o i v k f =
    let facts = f.at (m, db') refl in
    issued-IsSafe w q word m db' facts.pinned (subst (OthersAreSafe w) (sym facts.ident) o)
      (subst (λ z. IsOf z m.id db'.credentials) i
        (subst (λ z. IsOf q.id z db'.credentials) (sym facts.ident) facts.of))
      (k.at (m, db') refl)

booked-IsSafe :
    (c : Config) (w : Turn) (mid email : Text) (r : Result Text) (db : Db)
    → OthersAreSafe w mid
    → IsSafe db
    → IsSafe (booked c w mid email r db).1
unfolding booked tx
booked-IsSafe c w mid email (err e) db o v = v
booked-IsSafe c w mid email (ok word) db o v =
    let q = ticket c w mid email in
    reserved-IsSafe w q word w.fault_reserve (reserve q w.audit_reserve db) db o refl v
      (reserve-IsSafe q w.audit_reserve db v) (reserve-IsReserved q w.audit_reserve db v)

-- From safe tables, and if the requests that commit in between keep the tables safe and move no
-- generation to another machine, a checkout leaves the tables safe, whatever the provisioner
-- answers and whichever of its transactions fails.
pub checkout-IsSafe :
    (c : Config) (w : Turn) (mid email : Text) (db : Db)
    → OthersAreSafe w mid
    → IsSafe db
    → IsSafe (checkout c w mid email db).1
unfolding checkout
checkout-IsSafe c w mid email db o v = elim (Bool-cases (not (allowed c email))) [
  | inl refused ↦ rw refused v
  | inr member ↦
      rw member (booked-IsSafe c w mid email (password w.draws 0 c.password_length) db o v)
]
