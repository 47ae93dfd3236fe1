-- ===== src/Core/Sweep/Safety.antt =====
-- The safety of the tables through internal/core/checkout.go, `Sweep`.
use lab_gate.Prelude.{ℕ, suc, List, [], ◌∷◌, Text, Result, ok, err}
use lab_gate.Store.{Db}
use lab_gate.Core.Invariant.{IsSafe}
use lab_gate.Core.Expiry.{Expiry, expire}
use lab_gate.Core.Expiry.Safety.{expire-IsSafe}
use lab_gate.Core.Sweep.{Counters, Round, Swept, counted, expire_all, due_ids, Queries, sweep}

-- What commits before, and while, an expiry waits keeps the tables safe.
pub record RoundIsSafe (r : Round) : Type 0 where
  pub between : (db : Db) → IsSafe db → IsSafe (r.between db)
  pub reading : (db : Db) → IsSafe db → IsSafe (r.meeting.before_machine db)
  pub locking : (db : Db) → IsSafe db → IsSafe (r.meeting.before_commit db)

counted-IsSafe :
    (next : Counters → Db → Swept) (k : Counters) (r : Result Expiry × Db)
    → ((k' : Counters) (db : Db) → IsSafe db → IsSafe (next k' db).1)
    → IsSafe r.1
    → IsSafe (counted next k r).1
unfolding counted
counted-IsSafe next k (err e, db) h v = v
counted-IsSafe next k (ok x, db) h v = h _ db v

expire_all-IsSafe :
    (rounds : ℕ → Round) (i : ℕ) (ids : List Text) (k : Counters) (db : Db)
    → ((j : ℕ) → RoundIsSafe (rounds j))
    → IsSafe db
    → IsSafe (expire_all rounds i ids k db).1
unfolding expire_all
expire_all-IsSafe rounds i [] k db o v = v
expire_all-IsSafe rounds i (id ∷ ids) k db o v =
    counted-IsSafe (λ k' db'. expire_all rounds (suc i) ids k' db') k
      (expire (rounds i).meeting id (rounds i).now ((rounds i).between db))
      (λ k' db' safe. expire_all-IsSafe rounds (suc i) ids k' db' o safe)
      (expire-IsSafe (rounds i).meeting id (rounds i).now _ (o i).reading (o i).locking
        ((o i).between db v))

-- A sweep leaves safe tables safe, if the requests that commit between its queries, and between and
-- during its expiries, do.
pub sweep-IsSafe :
    (q : Queries) (rounds : ℕ → Round) (now : ℕ) (db : Db)
    → ((d : Db) → IsSafe d → IsSafe (q.before_active d))
    → ((d : Db) → IsSafe d → IsSafe (q.before_ids d))
    → ((j : ℕ) → RoundIsSafe (rounds j))
    → IsSafe db
    → IsSafe (sweep q rounds now db).1
unfolding sweep
sweep-IsSafe q rounds now db active ids o v =
    expire_all-IsSafe rounds 0 (due_ids now (q.before_ids (q.before_active db))) _
      (q.before_ids (q.before_active db)) o (ids _ (active db v))
