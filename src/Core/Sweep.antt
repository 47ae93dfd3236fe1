-- ===== src/Core/Sweep.antt =====
-- internal/core/checkout.go, `Sweep`: up to four lapsed generations are expired, oldest first.
pub mod Counts
pub mod Safety
use lab_gate.Prelude.{
  ℕ, suc, ◌+◌, ℤ, difference, ltb, leb, precedes, Text, List, [], ◌∷◌, map, Option, none, some,
  Bool, true, false, not, ◌&&◌, ◌||◌, ◌==◌, nat_eq, if◌then◌else◌, select, count, take, length,
  Error, Result, ok, err,
}
use lab_gate.Store.{Credential, Db, live}
use lab_gate.Core.Checkout.{is_null}
use lab_gate.Core.Expiry.{Expiry, released, held, retry, Meeting, expire}

-- The counters of `SweepResult`, in its order.
pub record Counters : Type 0 where
  pub revoked : ℕ
  pub released : ℕ
  pub pending : ℕ
  pub deferred : ℤ
  pub active : ℕ

-- revoked_at IS NULL AND session_opened_at IS NULL AND expires_at<=?
abbrev pub is_due : ℕ → Credential → Bool
is_due now c = live c && is_null c.opened && leb c.expires now

-- revoked_at IS NULL AND session_opened_at IS NOT NULL AND expires_at<=?
abbrev pub is_overrun : ℕ → Credential → Bool
is_overrun now c = live c && not (is_null c.opened) && leb c.expires now

-- ORDER BY expires_at,id
pub is_before : Credential → Credential → Bool
unfolding precedes
is_before c d = ltb c.expires d.expires || c.expires == d.expires && precedes c.id d.id

pub insert : Credential → List Credential → List Credential
unfolding is_before
insert c [] = c ∷ []
insert c (d ∷ ds) = let rest = insert c ds in if is_before c d then c ∷ d ∷ ds else d ∷ rest

pub order : List Credential → List Credential
unfolding insert
order [] = []
order (c ∷ cs) = insert c (order cs)

pub due_ids : ℕ → Db → List Text
unfolding order
due_ids now db = map (λ c. c.id) (take 4 (order (select (is_due now) db.credentials)))

-- What an expiry adds to the counters.
pub tally : Expiry → Counters → Counters
tally Expiry.released k = record k { revoked = k.revoked + 1; released = k.released + 1 }
tally Expiry.held k = record k { revoked = k.revoked + 1 }
tally Expiry.retry k = record k { pending = k.pending + 1 }
tally e k = k

-- What happens around the expiries of a sweep, one after the other: the commits before each, its
-- time, and what it meets.
pub record Round : Type 0 where
  pub between : Db → Db
  pub now : ℕ
  pub meeting : Meeting

-- An expiry that fails ends the sweep with the counters so far.
abbrev pub Swept : Type 0
Swept = (Option Error × Counters) × Db

pub counted : (Counters → Db → Swept) → Counters → Result Expiry × Db → Swept
unfolding tally
counted next k (err e, db) = ((some e, k), db)
counted next k (ok x, db) = next (tally x k) db

pub expire_all : (ℕ → Round) → ℕ → List Text → Counters → Db → Swept
unfolding counted
expire_all rounds i [] k db = ((none, k), db)
expire_all rounds i (id ∷ ids) k db =
    counted (λ k' db'. expire_all rounds (suc i) ids k' db') k
      (expire (rounds i).meeting id (rounds i).now ((rounds i).between db))

-- What commits between the three queries of a sweep.
pub record Queries : Type 0 where
  pub before_active : Db → Db
  pub before_ids : Db → Db

-- The counters before the first expiry, where the queries read the tables one after the other.
pub initial : ℕ → Db → Db → Db → Counters
unfolding due_ids
initial now counting opened listing = record {
  revoked = 0;
  released = 0;
  pending = 0;
  deferred = difference (count (is_due now) counting.credentials) (length (due_ids now listing));
  active = count (is_overrun now) opened.credentials;
}

pub sweep : Queries → (ℕ → Round) → ℕ → Db → Swept
unfolding due_ids expire_all initial
sweep q rounds now db =
    let opened = q.before_active db in
    let listing = q.before_ids opened in
    expire_all rounds 0 (due_ids now listing) (initial now db opened listing) listing
