-- ===== src/Core/Expiry.antt =====
-- internal/core/checkout.go, `Expire`: what is read outside the transaction, the lock over SSH, and
-- the transaction that follows a confirmed lock.
pub mod Safety
pub mod Sessions
pub mod Lapsed
use lab_gate.Prelude.{
  ℕ, ltb, Text, codes, some, Bool, not, ◌&&◌, ◌||◌, ◌==◌, text_eq, nat_eq, if◌then◌else◌, length,
  no_rows, Result, ok, err, ◌>>=◌,
}
use lab_gate.Store.{
  Machine, Credential, Event, Db, live, is_credential, has_id, machine, credential, current,
  set_machines, set_credentials, audit, tx,
}
use lab_gate.Core.Hold.{same}
use lab_gate.Core.Checkout.{is_null, moved, revoke_at, free}

-- The status of the reply; only `released` frees the machine.
pub data Expiry : Type 0 where
  already_released active retry held released : Expiry

-- What the reads find: an answer at once, or the generation and its machine, to be locked.
pub data Reading : Type 0 where
  answer : Expiry → Reading
  lapsed : Credential → Machine → Reading

-- The two reads are separate queries, of the databases `db` and `db'`.
pub read_lapsed : Text → ℕ → Db → Db → Result Reading
read_lapsed id now db db' = elim (credential id db) [
  | err no_rows ↦ ok (answer already_released)
  | err e ↦ err e
  | ok c ↦
      if not (is_null c.revoked)
      then ok (answer already_released)
      else if not (is_null c.opened)
      then ok (answer active)
      else if ltb now c.expires
      then ok (answer retry)
      else (machine c.machine_id db' >>= λ m. ok (lapsed c m))
]

-- WHERE id=? AND revoked_at IS NULL AND session_opened_at IS NULL
pub is_unopened : Text → Credential → Bool
is_unopened id c = is_credential id c && live c && is_null c.opened

-- Revoke the generation, and free its machine unless something else holds it.
pub expire_row : Machine → Text → ℕ → Db → Expiry × Db
expire_row row id now db =
    let revoked = set_credentials (is_unopened id) (revoke_at now) db in
    if length (current row.id revoked) == 0 && (is_null row.hold || same row.hold (some id))
    then (released, set_machines (has_id row.id) free revoked)
    else (held, revoked)

-- The transaction: the generation and the machine are read again.
pub commit_expiry : Machine → Credential → Text → Text → Text → ℕ → Db → Result (Expiry × Db)
commit_expiry m c id audit_id audit_id' now db = do
  latest ← credential id db
  if not (is_null latest.opened) && is_null latest.revoked
      then ok (active, db)
      else if not (is_null latest.revoked) || ltb now latest.expires
      then ok (already_released, db)
      else do
        row ← machine m.id db
        if moved m row then ok (retry, db) else do
          let settled = expire_row row id now db
          forced ←
              audit audit_id m.id c.email Event.force_revoke
                (codes "Expired generation locked over SSH.") now settled.1
          timed ←
              audit audit_id' m.id c.email Event.password_timeout
                (codes "Password timed out before physical login.") now forced
          ok (settled.0, timed)

-- What one call meets: the commits of others before each step, the outcome of the lock, a fault.
pub record Meeting : Type 0 where
  pub before_machine : Db → Db
  pub before_commit : Db → Db
  pub locks : Machine → Text → Bool
  pub fault : Bool
  pub audit_id : Text
  pub audit_id' : Text

after_lock : Meeting → Reading → Text → ℕ → Db → Result Expiry × Db
after_lock w (answer a) id now db = (ok a, db)
after_lock w (lapsed c m) id now db =
    if is_null m.pin || not (w.locks m id)
    then (ok retry, db)
    else tx w.fault (commit_expiry m c id w.audit_id w.audit_id' now) (w.before_commit db)

after_read : Meeting → Result Reading → Text → ℕ → Db → Result Expiry × Db
unfolding after_lock
after_read w (err e) id now db = (err e, db)
after_read w (ok found) id now db = after_lock w found id now db

pub expire : Meeting → Text → ℕ → Db → Result Expiry × Db
unfolding after_read
expire w id now db =
    after_read w (read_lapsed id now db (w.before_machine db)) id now (w.before_machine db)
