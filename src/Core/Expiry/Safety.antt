-- ===== src/Core/Expiry/Safety.antt =====
-- The safety of the tables through internal/core/checkout.go, `Expire`.
use lab_gate.Prelude.{
  ℕ, ltb, Text, some, false, not, ◌&&◌, ◌||◌, ◌==◌, ◌≡◌, refl, text_eq, nat_eq, length, first,
  Result, ok, err, Ensures, Ensures-ok, Ensures-if, Ensures-bind, Ensures-then, Bool-cases, inl,
  inr, arith,
}
use lab_gate.Store.{
  Machine, Credential, Event, Db, has_id, machine, credential, current, set_credentials,
}
use lab_gate.Store.Rows.{machine-eq-ok, current-IsIdle}
use lab_gate.Core.Invariant.{
  IsSafe, set_row-IsSafe, set_credentials-IsSafe, audit-IsSafe, tx-IsSafe, free-KeepsKeys,
  revoke_at-Keeps, revoke_at-IsSafe, same-pinned,
}
use lab_gate.Core.Hold.{same}
use lab_gate.Core.Checkout.{is_null, moved, revoke_at, free}
use lab_gate.Core.Expiry.{
  Expiry, active, already_released, retry, is_unopened, expire_row, commit_expiry, Meeting, Reading,
  answer, lapsed, read_lapsed, after_lock, after_read, expire,
}

expire_row-IsSafe :
    (row : Machine) (id : Text) (now : ℕ) (db : Db)
    → first (has_id row.id) db.machines ≡ some row
    → is_null row.pin ≡ false
    → IsSafe db
    → IsSafe (expire_row row id now db).1
unfolding expire_row
expire_row-IsSafe row id now db e pinned v =
    let revoked = set_credentials (is_unopened id) (revoke_at now) db in
    let safe =
      set_credentials-IsSafe (is_unopened id) (revoke_at now) db (revoke_at-Keeps now)
        (λ c _ h. revoke_at-IsSafe now c) v in
    elim (Bool-cases
      (length (current row.id revoked) == 0 && (is_null row.hold || same row.hold (some id)))) [
        | inl clear ↦ rw clear (
            set_row-IsSafe row free revoked free-KeepsKeys e
              (λ _. record {
                unheld = refl;
                pinned = pinned;
                idle = current-IsIdle row.id revoked (ground arith);
              })
              safe)
        | inr other ↦ rw other safe
      ]

-- The transaction of an expiry keeps the tables safe.
pub commit_expiry-IsSafe :
    (m : Machine) (c : Credential) (id audit_id audit_id' : Text) (now : ℕ) (db : Db)
    → is_null m.pin ≡ false
    → IsSafe db
    → Ensures (λ r. IsSafe r.1) (commit_expiry m c id audit_id audit_id' now db)
unfolding commit_expiry
commit_expiry-IsSafe m c id audit_id audit_id' now db pinned v =
    let Q : Expiry × Db → Type 0 = λ r. IsSafe r.1 in
    Ensures-bind Q (credential id db) _ λ latest _.
      Ensures-if Q (not (is_null latest.opened) && is_null latest.revoked) _ _
        (λ _. Ensures-ok Q (active, db) v)
        λ _.
          Ensures-if Q (not (is_null latest.revoked) || ltb now latest.expires) _ _
            (λ _. Ensures-ok Q (already_released, db) v)
            λ _. Ensures-bind Q (machine m.id db) _ λ row found.
              Ensures-if Q (moved m row) _ _ (λ _. Ensures-ok Q (retry, db) v)
                λ here.
                  let (e, _) = machine-eq-ok m.id db found in
                  let pin = same-pinned row.pin m.pin (ground arith) pinned in
                  let settled = expire_row-IsSafe row id now db e pin v in
                  Ensures-then Q
                    (audit-IsSafe audit_id m.id c.email Event.force_revoke _ now
                      (expire_row row id now db).1 settled)
                    λ forced w.
                      Ensures-then Q
                        (audit-IsSafe audit_id' m.id c.email Event.password_timeout _ now forced w)
                        λ timed u. Ensures-ok Q ((expire_row row id now db).0, timed) u

after_lock-IsSafe :
    (w : Meeting) (found : Reading) (id : Text) (now : ℕ) (db : Db)
    → ((db' : Db) → IsSafe db' → IsSafe (w.before_commit db'))
    → IsSafe db
    → IsSafe (after_lock w found id now db).1
unfolding after_lock
after_lock-IsSafe w (answer a) id now db others v = v
after_lock-IsSafe w (lapsed c m) id now db others v =
    elim (Bool-cases (is_null m.pin || not (w.locks m id))) [
      | inl kept ↦ rw kept v
      | inr locked ↦ rw locked (
          tx-IsSafe w.fault (commit_expiry m c id w.audit_id w.audit_id' now) (w.before_commit db)
            (commit_expiry-IsSafe m c id w.audit_id w.audit_id' now (w.before_commit db)
              (ground arith) (others db v))
            (others db v))
    ]

after_read-IsSafe :
    (w : Meeting) (r : Result Reading) (id : Text) (now : ℕ) (db : Db)
    → ((db' : Db) → IsSafe db' → IsSafe (w.before_commit db'))
    → IsSafe db
    → IsSafe (after_read w r id now db).1
unfolding after_read
after_read-IsSafe w (err e) id now db others v = v
after_read-IsSafe w (ok found) id now db others v = after_lock-IsSafe w found id now db others v

-- An expiry leaves safe tables safe, whether its machine confirms the lock or not and whether its
-- transaction commits or fails, if the requests that commit while it waits keep them safe.
pub expire-IsSafe :
    (w : Meeting) (id : Text) (now : ℕ) (db : Db)
    → ((db' : Db) → IsSafe db' → IsSafe (w.before_machine db'))
    → ((db' : Db) → IsSafe db' → IsSafe (w.before_commit db'))
    → IsSafe db
    → IsSafe (expire w id now db).1
unfolding expire
expire-IsSafe w id now db reads commits v =
    after_read-IsSafe w (read_lapsed id now db (w.before_machine db)) id now (w.before_machine db)
      commits (reads db v)
