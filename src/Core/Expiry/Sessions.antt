-- ===== src/Core/Expiry/Sessions.antt =====
-- internal/core/checkout.go, `Expire`: the generations in a session, and a lock that is not confirmed.
use lab_gate.Prelude.{
  ℕ, ltb, Text, List, [], ◌∷◌, some, Bool, true, false, not, ◌&&◌, ◌||◌, ◌==◌, ◌≡◌, ◌≢◌, refl,
  text_eq, nat_eq, length, Result, ok, err, Ensures, Ensures-ok, Ensures-if, Ensures-bind,
  Ensures-then, Bool-cases, inl, inr, arith,
}
use lab_gate.Store.{
  Machine, Credential, Event, Db, live, machine, credential, current, set_credentials, tx,
}
use lab_gate.Core.Invariant.{audit-keeps}
use lab_gate.Core.Hold.{same}
use lab_gate.Core.Checkout.{is_null, moved, revoke_at}
use lab_gate.Core.Expiry.{
  Expiry, active, already_released, retry, is_unopened, expire_row, commit_expiry, Meeting, Reading,
  answer, lapsed, read_lapsed, after_lock, after_read, expire,
}
use lab_gate.Prelude.{select, update}
use lab_gate.Core.Expiry.{released, held}
use lab_gate.Store.{settle}

-- The generations in a session: live, and opened.
abbrev pub in_session : Credential → Bool
in_session c = live c && not (is_null c.opened)

sessions-update :
    (id : Text) (now : ℕ) (cs : List Credential)
    → select in_session (update (is_unopened id) (revoke_at now) cs) ≡ select in_session cs
unfolding is_unopened
sessions-update id now [] = refl
sessions-update id now (c ∷ cs) = ground (arith, sessions-update id now cs)

sessions-expire_row :
    (row : Machine) (id : Text) (now : ℕ) (db : Db)
    → select in_session (expire_row row id now db).1.credentials ≡ select in_session db.credentials
unfolding expire_row
sessions-expire_row row id now db =
    let revoked = set_credentials (is_unopened id) (revoke_at now) db in
    elim (Bool-cases
      (length (current row.id revoked) == 0 && (is_null row.hold || same row.hold (some id)))) [
        | inl clear ↦ rw clear (sessions-update id now db.credentials)
        | inr other ↦ rw other (sessions-update id now db.credentials)
      ]

commit-sessions :
    (m : Machine) (c : Credential) (id audit_id audit_id' : Text) (now : ℕ) (db : Db)
    → Ensures
        (λ r. select in_session r.1.credentials ≡ select in_session db.credentials)
        (commit_expiry m c id audit_id audit_id' now db)
unfolding commit_expiry
commit-sessions m c id audit_id audit_id' now db =
    let Q : Expiry × Db → Type 0 =
      λ r. select in_session r.1.credentials ≡ select in_session db.credentials in
    Ensures-bind Q (credential id db) _ λ latest _.
      Ensures-if Q (not (is_null latest.opened) && is_null latest.revoked) _ _
        (λ _. Ensures-ok Q (active, db) refl)
        λ _.
          Ensures-if Q (not (is_null latest.revoked) || ltb now latest.expires) _ _
            (λ _. Ensures-ok Q (already_released, db) refl)
            λ _. Ensures-bind Q (machine m.id db) _ λ row found.
              Ensures-if Q (moved m row) _ _ (λ _. Ensures-ok Q (retry, db) refl)
                λ _.
                  let settled = expire_row row id now db in
                  Ensures-then Q
                    (audit-keeps audit_id m.id c.email Event.force_revoke _ now settled.1)
                    λ forced w.
                      Ensures-then Q
                        (audit-keeps audit_id' m.id c.email Event.password_timeout _ now forced)
                        λ timed u.
                          Ensures-ok Q (settled.0, timed)
                            (rw (u, w) (sessions-expire_row row id now db))

-- A transaction of an expiry ends no session: the generations in a session are the same, row for
-- row, whether it commits or fails.
pub expiry_keeps_sessions :
    (fault : Bool) (m : Machine) (c : Credential) (id audit_id audit_id' : Text) (now : ℕ) (db : Db)
    → select in_session (tx fault (commit_expiry m c id audit_id audit_id' now) db).1.credentials
      ≡ select in_session db.credentials
unfolding tx
expiry_keeps_sessions true m c id audit_id audit_id' now db = refl
expiry_keeps_sessions false m c id audit_id audit_id' now db =
    settled (commit_expiry m c id audit_id audit_id' now db)
      (commit-sessions m c id audit_id audit_id' now db)
  where
    settled :
        (r : Result (Expiry × Db))
        → Ensures (λ x. select in_session x.1.credentials ≡ select in_session db.credentials) r
        → select in_session (settle r db).1.credentials ≡ select in_session db.credentials
    settled (ok (a, db')) k = k.at (a, db') refl
    settled (err e) k = refl

-- The answers that are given at once are of a generation that is not locked here.
pub answers :
    (id : Text) (now : ℕ) (db db' : Db) (a : Expiry)
    → read_lapsed id now db db' ≡ ok (answer a)
    → (a ≢ released) × (a ≢ held)
unfolding read_lapsed
answers id now db db' a h = ground arith

no_lock :
    (w : Meeting) (r : Result Reading) (id : Text) (now : ℕ) (db : Db)
    → ((a : Expiry) → r ≡ ok (answer a) → (a ≢ released) × (a ≢ held))
    → ((m : Machine) → w.locks m id ≡ false)
    → ((after_read w r id now db).1 ≡ db)
      × ((after_read w r id now db).0 ≢ ok released)
      × ((after_read w r id now db).0 ≢ ok held)
unfolding after_read after_lock
no_lock w (err e) id now db k h = (refl, λ q. cc, λ q. cc)
no_lock w (ok (answer a)) id now db k h = ground (arith, k a refl)
no_lock w (ok (lapsed c m)) id now db k h = ground (arith, h m)

-- If the machine confirms no lock, an expiry writes nothing: the tables are those that the other
-- requests left, and it answers neither that it released the machine nor that it revoked the
-- generation.
pub unlocked_expiry_writes_nothing :
    (w : Meeting) (id : Text) (now : ℕ) (db : Db)
    → ((m : Machine) → w.locks m id ≡ false)
    → ((expire w id now db).1 ≡ w.before_machine db)
      × ((expire w id now db).0 ≢ ok released)
      × ((expire w id now db).0 ≢ ok held)
unfolding expire
unlocked_expiry_writes_nothing w id now db h =
    no_lock w (read_lapsed id now db (w.before_machine db)) id now (w.before_machine db)
      (answers id now db (w.before_machine db)) h
