-- ===== src/Core/Sweep/Counts.antt =====
-- internal/core/checkout.go, `Sweep`: its counters, where no other request commits.
use lab_gate.Prelude.{
  ℕ, zero, suc, ◌+◌, ◌-◌, ◌≤◌, pos, difference, ◌≡◌, ◌≢◌, refl, sym, List, [], ◌∷◌, ◌++◌, map, Bool,
  Text, Result, ok, err, select, count, take, length, Bool-cases, inl, inr, arith, ap, subst, ◌∙◌,
  true, nat_eq,
}
use lab_gate.Store.{Credential, Db, live, unique_keys}
use lab_gate.Core.Checkout.{revoke_at}
use lab_gate.Core.Invariant.{IsSafe}
use lab_gate.Core.Expiry.{Expiry, held, released, Meeting, expire}
use lab_gate.Core.Expiry.Safety.{expire-IsSafe}
use lab_gate.Core.Expiry.Lapsed.{IsRevoked, Lapses, keeps, revokes, expire-Lapses}
use lab_gate.Core.Sweep.{
  initial, Counters, Queries, Round, Swept, is_due, is_overrun, is_before, insert, order, due_ids,
  tally, counted, expire_all, sweep,
}

-- No other request commits before or while an expiry waits.
pub record IsAlone (r : Round) : Type 0 where
  pub between : (db : Db) → r.between db ≡ db
  pub reading : (db : Db) → r.meeting.before_machine db ≡ db
  pub locking : (db : Db) → r.meeting.before_commit db ≡ db

-- How many generations the answer of an expiry says that it revoked.
gain : Result Expiry → ℕ
gain (ok Expiry.released) = 1
gain (ok Expiry.held) = 1
gain (ok Expiry.retry) = 0
gain (ok Expiry.active) = 0
gain (ok Expiry.already_released) = 0
gain (err e) = 0

gain_none : (r : Result Expiry) → r ≢ ok released → r ≢ ok held → gain r ≡ 0
unfolding gain
gain_none (ok Expiry.released) n n' = absurd (n refl)
gain_none (ok Expiry.held) n n' = absurd (n' refl)
gain_none (ok Expiry.retry) n n' = refl
gain_none (ok Expiry.active) n n' = refl
gain_none (ok Expiry.already_released) n n' = refl
gain_none (err e) n n' = refl

one_less :
    (a : Credential) (now : ℕ) (pre post : List Credential)
    → live a ≡ true
    → count live (pre ++ revoke_at now a ∷ post) + 1 ≡ count live (pre ++ a ∷ post)
one_less a now [] post h = rw h (omega arith)
one_less a now (c ∷ pre) post h = ground (arith, one_less a now pre post h)

revoked_one :
    (id mid : Text) (now : ℕ) (x : Expiry) (db db' : Db)
    → IsRevoked id mid now x db db'
    → count live db'.credentials + 1 ≡ count live db.credentials
revoked_one id mid now x db db' r =
    let one = r.alone in rw (one.after, one.before) (one_less r.row now one.pre one.post r.running)

expire-gain :
    (w : Meeting) (id : Text) (now : ℕ) (db : Db)
    → ((d : Db) → w.before_machine d ≡ d)
    → ((d : Db) → w.before_commit d ≡ d)
    → unique_keys db ≡ true
    → count live (expire w id now db).1.credentials + gain (expire w id now db).0
      ≡ count live db.credentials
expire-gain w id now db m c keys = go (expire w id now db) (
    expire-Lapses w id now db
      (subst (λ (d : Db). unique_keys d ≡ true) (sym (c (w.before_machine db) ∙ m db)) keys))
  where
    same : w.before_commit (w.before_machine db) ≡ db
    same = c (w.before_machine db) ∙ m db

    unchanged :
        (r : Result Expiry × Db)
        → r.1 ≡ db
        → gain r.0 ≡ 0
        → count live r.1.credentials + gain r.0 ≡ count live db.credentials
    unchanged r e g = rw (e, g) (omega arith)

    go :
        (r : Result Expiry × Db)
        → Lapses w id now db r
        → count live r.1.credentials + gain r.0 ≡ count live db.credentials
    go r (keeps n n' (inl e)) = unchanged r (e ∙ m db) (gain_none r.0 n n')
    go r (keeps n n' (inr e)) = unchanged r (e ∙ same) (gain_none r.0 n n')
    go r (revokes mach x l e k) =
        let less : count live r.1.credentials + 1 ≡ count live db.credentials =
          revoked_one id mach.id now x db r.1
            (subst (λ (d : Db). IsRevoked id mach.id now x d r.1) same k) in
        rw (e, said x k) less
      where
        said :
            (x : Expiry)
            → IsRevoked id mach.id now x (w.before_commit (w.before_machine db)) r.1
            → gain (ok x) ≡ 1
        said x k = elim k.freed [
          | inl (h, ms) ↦ rw h (unfold gain in refl)
          | inr (h, ms, idle) ↦ rw h (unfold gain in refl)
        ]

-- From the counters `k` and the tables `db`, at most `n` expiries may have led to `r`.
record Follows (n : ℕ) (k : Counters) (db : Db) (r : Swept) : Type 0 where
  taken : r.0.1.revoked + r.0.1.pending ≤ k.revoked + k.pending + n
  gone : count live r.1.credentials + r.0.1.revoked ≡ count live db.credentials + k.revoked
  waiting : r.0.1.deferred ≡ k.deferred
  running : r.0.1.active ≡ k.active

tally-gain :
    (x : Expiry) (k : Counters)
    → ((tally x k).revoked ≡ k.revoked + gain (ok x))
      × ((tally x k).revoked + (tally x k).pending ≤ k.revoked + k.pending + 1)
      × ((tally x k).deferred ≡ k.deferred)
      × ((tally x k).active ≡ k.active)
unfolding tally gain
tally-gain Expiry.released k = (refl, omega arith, refl, refl)
tally-gain Expiry.held k = (refl, omega arith, refl, refl)
tally-gain Expiry.retry k = (omega arith, omega arith, refl, refl)
tally-gain Expiry.active k = (omega arith, omega arith, refl, refl)
tally-gain Expiry.already_released k = (omega arith, omega arith, refl, refl)

counted-Follows :
    (n : ℕ) (next : Counters → Db → Swept) (k : Counters) (db : Db) (r : Result Expiry × Db)
    → count live r.1.credentials + gain r.0 ≡ count live db.credentials
    → ((k' : Counters) → Follows n k' r.1 (next k' r.1))
    → Follows (suc n) k db (counted next k r)
unfolding counted gain
counted-Follows n next k db (err e, db') g h = record {
  taken = omega arith;
  gone = omega (arith, g);
  waiting = refl;
  running = refl;
}
counted-Follows n next k db (ok x, db') g h =
    let (revoked, taken, waiting, running) = tally-gain x k in
    let rest = h (tally x k) in
    record {
      taken = omega (arith, taken, rest.taken);
      gone = omega (arith, g, revoked, rest.gone);
      waiting = rest.waiting ∙ waiting;
      running = rest.running ∙ running;
    }

module _ (rounds : ℕ → Round) (alone : (j : ℕ) → IsAlone (rounds j)) where
  expire_all-Follows :
      (i : ℕ) (ids : List Text) (k : Counters) (db : Db)
      → IsSafe db
      → Follows (length ids) k db (expire_all rounds i ids k db)
  unfolding expire_all
  expire_all-Follows i [] k db v = record {
    taken = omega arith;
    gone = refl;
    waiting = refl;
    running = refl;
  }
  expire_all-Follows i (id ∷ ids) k db v =
      let a = alone i in
      let w = (rounds i).meeting in
      let now = (rounds i).now in
      let v' : IsSafe ((rounds i).between db) = subst IsSafe (sym (a.between db)) v in
      let next : IsSafe (expire w id now ((rounds i).between db)).1 =
        expire-IsSafe w id now _ (λ d s. subst IsSafe (sym (a.reading d)) s)
          (λ d s. subst IsSafe (sym (a.locking d)) s) v' in
      counted-Follows (length ids) (λ k' db'. expire_all rounds (suc i) ids k' db') k db
        (expire w id now ((rounds i).between db))
        (expire-gain w id now ((rounds i).between db) a.reading a.locking v'.keyed
          ∙ ap (λ (d : Db). count live d.credentials) (a.between db))
        (λ k'. expire_all-Follows (suc i) ids k' _ next)

length-insert : (c : Credential) (cs : List Credential) → length (insert c cs) ≡ suc (length cs)
unfolding insert
length-insert c [] = refl
length-insert c (d ∷ ds) = elim (Bool-cases (is_before c d)) [
  | inl first ↦ rw first refl
  | inr later ↦ rw later (ap suc (length-insert c ds))
]

length-order : (cs : List Credential) → length (order cs) ≡ length cs
unfolding order
length-order [] = refl
length-order (c ∷ cs) = length-insert c (order cs) ∙ ap suc (length-order cs)

length-select : (p : Credential → Bool) (cs : List Credential) → length (select p cs) ≡ count p cs
length-select p [] = refl
length-select p (c ∷ cs) = elim (Bool-cases (p c)) [
  | inl hit ↦ rw hit (ap suc (length-select p cs))
  | inr miss ↦ rw miss (length-select p cs)
]

length-ids :
    (n : ℕ) (cs : List Credential)
    → difference (length cs) (length (map (λ c. c.id) (take n cs))) ≡ pos (length cs - n)
length-ids zero cs = ground arith
length-ids (suc n) [] = ap pos (omega arith)
length-ids (suc n) (c ∷ cs) = ground (arith, length-ids n cs)

few_ids : (n : ℕ) (cs : List Credential) → length (map (λ c. c.id) (take n cs)) ≤ n
few_ids zero cs = omega arith
few_ids (suc n) [] = omega arith
few_ids (suc n) (c ∷ cs) = (let h = few_ids n cs in omega arith)

due_ids-length : (now : ℕ) (db : Db) → length (due_ids now db) ≤ 4
unfolding due_ids
due_ids-length now db = few_ids 4 (order (select (is_due now) db.credentials))

left_over :
    (now : ℕ) (db : Db)
    → difference (count (is_due now) db.credentials) (length (due_ids now db))
      ≡ pos (count (is_due now) db.credentials - 4)
unfolding due_ids
left_over now db =
    let cs = select (is_due now) db.credentials in
    subst (λ n. difference n (length (due_ids now db)) ≡ pos (n - 4))
      (length-order cs ∙ length-select (is_due now) db.credentials) (length-ids 4 (order cs))

-- The counters of a sweep, against the tables before and after it.
pub record IsAccounted (now : ℕ) (db : Db) (r : Swept) : Type 0 where
  gone : count live r.1.credentials + r.0.1.revoked ≡ count live db.credentials
  few : r.0.1.revoked + r.0.1.pending ≤ 4
  waiting : r.0.1.deferred ≡ pos (count (is_due now) db.credentials - 4)
  running : r.0.1.active ≡ count (is_overrun now) db.credentials

-- Where no other request commits during a sweep of safe tables, then however it ends: the number of
-- generations that it reports as revoked is the number by which the live ones are fewer after it; with
-- those it reports as pending they are at most four; deferred are the live, unopened and lapsed
-- generations beyond four; and active are the live and opened ones whose time is over.
pub sweep-IsAccounted :
    (q : Queries) (rounds : ℕ → Round) (now : ℕ) (db : Db)
    → ((d : Db) → q.before_active d ≡ d)
    → ((d : Db) → q.before_ids d ≡ d)
    → ((j : ℕ) → IsAlone (rounds j))
    → IsSafe db
    → IsAccounted now db (sweep q rounds now db)
unfolding sweep initial
sweep-IsAccounted q rounds now db opening ids alone v =
    rw (opening db, ids db)
      (let f = expire_all-Follows rounds alone 0 (due_ids now db) (initial now db db db) db v in
        record {
          gone = omega (arith, f.gone);
          few = omega (arith, f.taken, due_ids-length now db);
          waiting = f.waiting ∙ left_over now db;
          running = f.running;
        })
