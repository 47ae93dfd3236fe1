-- ===== src/Tests/Enrolling.antt =====
-- The theorems on enrollment at the fixture: a machine is enrolled, and one is hidden.
use lab_gate.Prelude.{
  Text, codes, ok, Bool, true, false, some, ◌||◌, ◌==◌, ◌≡◌, refl, text_eq, nat_eq,
}
use lab_gate.Core.Invariant.{IsSafe}
use lab_gate.Core.Enrollment.{Identity, enroll, set_hidden, visibility}
use lab_gate.Core.Enrollment.Safety.{enroll-IsSafe}
use lab_gate.Core.Enrollment.Hiding.{Leaves, visibility-Leaves}
use lab_gate.Store.{tx}
use lab_gate.Tests.Fixture.{tables, tables-IsSafe}

abbrev valid_ip : Text → Bool
valid_ip p = p == codes "100.64.0.1" || p == codes "100.64.0.9"

abbrev valid_pin : Text → Bool
valid_pin p = p == codes "SHA256:1" || p == codes "SHA256:9"

abbrev identity : Identity
identity = record {
  name = codes "Desk 9";
  ip = codes "100.64.0.9";
  pin = codes "SHA256:9";
  machine_id = codes "m1";
  expected_name = codes "Desk 1";
  expected_ip = codes "100.64.0.1";
  expected_pin = some (codes "SHA256:1");
}

enroll-IsSafe_example :
    IsSafe
      (enroll valid_ip valid_pin false identity false
        (codes "m9")
        (codes "t9")
        (codes "admin@ubu.ac.th")
        (codes "a1")
        2000000
        tables).1
enroll-IsSafe_example =
    enroll-IsSafe valid_ip valid_pin false identity false (codes "m9") (codes "t9")
      (codes "admin@ubu.ac.th") (codes "a1") 2000000 tables tables-IsSafe

visibility-Leaves_example :
    Leaves
      (codes "m1")
      true
      (codes "admin@ubu.ac.th")
      (codes "a1")
      2000000
      tables
      (visibility false (codes "m1") true (codes "admin@ubu.ac.th") (codes "a1") 2000000 tables)
visibility-Leaves_example =
    visibility-Leaves false (codes "m1") true (codes "admin@ubu.ac.th") (codes "a1") 2000000 tables

-- That change is made.
one_hidden :
    (visibility false (codes "m1") true (codes "admin@ubu.ac.th") (codes "a1") 2000000 tables).0
    ≡ ok true
unfolding visibility set_hidden lab_gate.Store.machine lab_gate.Store.audit
    lab_gate.Store.constrained lab_gate.Store.unique_keys lab_gate.Store.distinct tx text_eq nat_eq
one_hidden = refl
