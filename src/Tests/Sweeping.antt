-- ===== src/Tests/Sweeping.antt =====
-- The theorems on a sweep at the fixture, where one generation has lapsed.
use lab_gate.Prelude.{true, false, codes, refl}
use lab_gate.Core.Invariant.{IsSafe}
use lab_gate.Core.Sweep.{Queries, Round, sweep}
use lab_gate.Core.Sweep.Safety.{sweep-IsSafe}
use lab_gate.Core.Sweep.Counts.{IsAlone, IsAccounted, sweep-IsAccounted}
use lab_gate.Tests.Fixture.{tables, tables-IsSafe}

abbrev round : Round
round = record {
  between = λ db. db;
  now = 2000100;
  meeting = record {
    before_machine = λ db. db;
    before_commit = λ db. db;
    locks = λ m id. true;
    fault = false;
    audit_id = codes "a1";
    audit_id' = codes "a2";
  };
}

abbrev queries : Queries
queries = record { before_active = λ db. db; before_ids = λ db. db }

round-IsAlone : IsAlone round
round-IsAlone = record { between = λ db. refl; reading = λ db. refl; locking = λ db. refl }

sweep-IsSafe_example : IsSafe (sweep queries (λ i. round) 2000000 tables).1
sweep-IsSafe_example =
    sweep-IsSafe queries (λ i. round) 2000000 tables (λ db v. v) (λ db v. v)
      (λ i. record { between = λ db v. v; reading = λ db v. v; locking = λ db v. v }) tables-IsSafe

sweep-IsAccounted_example : IsAccounted 2000000 tables (sweep queries (λ i. round) 2000000 tables)
sweep-IsAccounted_example =
    sweep-IsAccounted queries (λ i. round) 2000000 tables (λ db. refl) (λ db. refl)
      (λ i. round-IsAlone) tables-IsSafe
