-- ===== src/Tests/Reservations.antt =====
-- The theorems on reservations at the fixture.
use lab_gate.Prelude.{
  ◌+◌, Text, codes, [], ◌∷◌, none, some, true, false, ◌≡◌, ◌≢◌, refl, String, inl, lower,
  has_suffix, fail, ok, err, select, text_eq, nat_eq,
}
use lab_gate.Store.{
  occupied, Machine, Credential, Db, unique_keys, insert_credential, audit, machine, AuditRow,
  Event, tx,
}
use lab_gate.Config.{allowed}
use lab_gate.Core.Invariant.{IsSafe}
use lab_gate.Core.Checkout.{
  reserve, activate, reservable, pending, has_reservation, is_reserved, is_pending,
}
use lab_gate.Core.Checkout.Exclusive.{reserve_once}
use lab_gate.Core.Checkout.Activated.{IsHandedOut}
use lab_gate.Core.Password.{password}
use lab_gate.Core.Booking.{Issued, ticket, checkout}
use lab_gate.Core.Booking.Safety.{checkout-IsSafe}
use lab_gate.Core.Booking.Promise.{issued_password_is_live}
use lab_gate.Core.Expiry.{Meeting, expire, commit_expiry, released, held}
use lab_gate.Core.Expiry.Lapsed.{Lapses, expire-Lapses}
use lab_gate.Core.Expiry.Safety.{expire-IsSafe}
use lab_gate.Core.Expiry.Sessions.{
  in_session, expiry_keeps_sessions, unlocked_expiry_writes_nothing,
}
use lab_gate.Core.Report.{Report, Endpoint}
use lab_gate.Core.Webhook.{webhook}
use lab_gate.Core.Webhook.Safety.{webhook-IsSafe}
use lab_gate.Tests.Fixture.{
  desk, in_use, lapsed, tables, tables-IsSafe, config, turn, unreachable, alone, alone_unreachable,
}

abbrev student : Text
student = codes "A@ubu.ac.th"

-- The tables after the reservation, and after the machine took the password.
abbrev reserved_row : Machine
reserved_row = record desk { status = occupied }

abbrev generation : Credential
generation = pending (ticket config turn (codes "m1") student)

abbrev entry : AuditRow
entry = record {
  id = codes "a1";
  machine_id = some (codes "m1");
  email = some (codes "a@ubu.ac.th");
  event = Event.checkout;
  detail = [];
  created = 2000000;
}

abbrev after_reserve : Db
after_reserve = record {
  machines = reserved_row ∷ in_use ∷ [];
  credentials = lapsed ∷ generation ∷ [];
  audit = entry ∷ [];
}

reserves :
    reserve (ticket config turn (codes "m1") student) (codes "a1") tables
    ≡ ok (reserved_row, after_reserve)
unfolding reserve reservable pending has_reservation machine insert_credential audit unique_keys
    lower text_eq nat_eq
reserves = refl

reserve_once_example :
    (s : String) × (reserve
        (ticket config turn (codes "m1") (codes "c@ubu.ac.th"))
        (codes "a9")
        after_reserve
      ≡ err (fail 409 s))
reserve_once_example =
    reserve_once config turn turn (codes "m1") (codes "m1") student (codes "c@ubu.ac.th")
      (codes "a1") (codes "a9") tables after_reserve reserved_row tables-IsSafe reserves (inl refl)

checkout-IsSafe_example : IsSafe (checkout config unreachable (codes "m1") student tables).1
checkout-IsSafe_example =
    checkout-IsSafe config unreachable (codes "m1") student tables alone_unreachable tables-IsSafe

abbrev issued : Issued
issued = record { username = codes "guest"; password = codes "ABCDE"; expires = 2180000 }

abbrev after_checkout : Db
after_checkout = record {
  machines = reserved_row ∷ in_use ∷ [];
  credentials = lapsed ∷ record generation { version = 1 } ∷ [];
  audit =
      entry ∷ record entry { id = codes "a2"; event = Event.provision_ok; created = 2000100 } ∷ [];
}

checks_out : checkout config turn (codes "m1") student tables ≡ (ok issued, after_checkout)
unfolding checkout reserve activate tx allowed has_suffix password reservable pending
    has_reservation is_reserved is_pending machine insert_credential audit unique_keys lower text_eq
    nat_eq
checks_out = refl

issued_password_is_live_example :
    IsHandedOut (ticket config turn (codes "m1") student) after_checkout
    × (issued.expires ≡ turn.now + config.ttl)
issued_password_is_live_example =
    issued_password_is_live config turn (codes "m1") student tables after_checkout issued alone
      tables-IsSafe checks_out

-- The lapsed generation of the second machine, whose lock is confirmed or not.
abbrev sweep : Meeting
sweep = record {
  before_machine = λ db. db;
  before_commit = λ db. db;
  locks = λ m id. true;
  fault = false;
  audit_id = codes "a1";
  audit_id' = codes "a2";
}

abbrev unlocked : Meeting
unlocked = record sweep { locks = λ m id. false }

expire-IsSafe_example : IsSafe (expire sweep lapsed.id 2000000 tables).1
expire-IsSafe_example =
    expire-IsSafe sweep lapsed.id 2000000 tables (λ db v. v) (λ db v. v) tables-IsSafe

tables_are_keyed : unique_keys tables ≡ true
tables_are_keyed = (let safe = tables-IsSafe in safe.keyed)

expire-Lapses_example :
    Lapses sweep lapsed.id 2000000 tables (expire sweep lapsed.id 2000000 tables)
expire-Lapses_example = expire-Lapses sweep lapsed.id 2000000 tables tables_are_keyed

unlocked_expiry_writes_nothing_example :
    ((expire unlocked lapsed.id 2000000 tables).1 ≡ tables)
    × ((expire unlocked lapsed.id 2000000 tables).0 ≢ ok released)
    × ((expire unlocked lapsed.id 2000000 tables).0 ≢ ok held)
unlocked_expiry_writes_nothing_example =
    unlocked_expiry_writes_nothing unlocked lapsed.id 2000000 tables (λ m. refl)

expiry_keeps_sessions_example :
    select in_session
      (tx false
        (commit_expiry in_use lapsed lapsed.id (codes "a1") (codes "a2") 2000000)
        tables).1.credentials
    ≡ select in_session tables.credentials
expiry_keeps_sessions_example =
    expiry_keeps_sessions false in_use lapsed lapsed.id (codes "a1") (codes "a2") 2000000 tables

-- The second machine reports that its session has opened.
abbrev opened : Report
opened = record {
  id = some lapsed.id;
  version = some 2;
  locked = none;
  active = none;
  state = none;
}

webhook-IsSafe_example :
    IsSafe
      (webhook false
        (codes "t2")
        Endpoint.session_open
        opened
        (codes "a1")
        (codes "a2")
        2000000
        tables).1
webhook-IsSafe_example =
    webhook-IsSafe false (codes "t2") Endpoint.session_open opened (codes "a1") (codes "a2") 2000000
      tables tables-IsSafe
