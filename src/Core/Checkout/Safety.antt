-- ===== src/Core/Checkout/Safety.antt =====
-- The safety of the tables through the transactions of internal/core/checkout.go, `Checkout`.
use lab_gate.Prelude.{
  ℕ, ltb, Text, [], Option, some, Bool, true, false, not, ◌&&◌, ◌||◌, ◌==◌, ◌≡◌, ◌≢◌, refl, text_eq,
  nat_eq, if◌then◌else◌, All, All-update, length, count, count-first, first, first-eq-some, ok,
  Ensures, Ensures-ok, Ensures-err, Ensures-if, Ensures-bind, Ensures-then, Bool-cases, inl, inr,
  arith, sym, ◌∙◌,
}
use lab_gate.Store.{
  available, Machine, Credential, Event, Db, has_id, is_credential, machine, current, set_machines,
  set_credentials, constrained,
}
use lab_gate.Store.Keys.{keyed-ids}
use lab_gate.Store.Rows.{machine-eq-ok, current-IsIdle, only_row, first_by_key}
use lab_gate.Core.Invariant.{
  IsSafe, KeepsKeys, KeepsCredential, CredentialIsSafe, set_machines-IsSafe, set_row-IsSafe,
  set_credentials-IsSafe, audit-IsSafe, free-KeepsKeys, revoke_at-Keeps, revoke_at-IsSafe,
  same-pinned,
}
use lab_gate.Core.Revival.{
  IsSafeBut, IsOf, revive-IsSafeBut, IsSafe-IsSafeBut, set_machines-IsSafeBut,
  insert_credential-IsSafe,
}
use lab_gate.Core.Hold.{same}
use lab_gate.Core.Checkout.{
  is_null, moved, revoke_at, free, Ticket, reservable, occupy, pending, reserve, is_reserved,
  is_pending, activate, only, revive, hold_for, merge_others, prepare, release, finish,
  has_reservation,
}

pub occupy-KeepsKeys : KeepsKeys occupy
occupy-KeepsKeys = record {
  id = λ m. refl;
  name = λ m. refl;
  ip = λ m. refl;
  token = λ m. refl;
  pin = λ m. refl;
}

hold_for-KeepsKeys : (hold : Option Text) → KeepsKeys (hold_for hold)
hold_for-KeepsKeys hold = record {
  id = λ m. refl;
  name = λ m. refl;
  ip = λ m. refl;
  token = λ m. refl;
  pin = λ m. refl;
}

pending-IsSafe : (q : Ticket) → CredentialIsSafe (pending q)
unfolding pending
pending-IsSafe q = record {
  running = λ h. omega arith;
  ended = λ h. cc;
  reached = λ h. cc;
  active = λ h. absurd (omega arith);
}

pub reservable-id : (mid : Text) (now : ℕ) (m : Machine) → reservable mid now m ≡ true → m.id ≡ mid
unfolding reservable
reservable-id mid now m h = ground arith

-- One row was reservable, so the row with that id was, and it is offered no more.
pub claimed-off :
    (mid : Text) (now : ℕ) (db : Db)
    → IsSafe db
    → count (reservable mid now) db.machines ≡ 1
    → All
        (λ m. m.id ≡ mid → m.status ≢ available)
        (set_machines (reservable mid now) occupy db).machines
claimed-off mid now db v one =
    let (a, e) = count-first (reservable mid now) db.machines {n = 0} one in
    let hit = first-eq-some (reservable mid now) db.machines e in
    let ids = keyed-ids db v.keyed in
    All-update (λ m. m.id ≡ a.id → reservable mid now m ≡ true)
      (λ m. m.id ≡ mid → m.status ≢ available) (reservable mid now) occupy (λ m h p i. cc)
      (λ m h miss i. cc (h (i ∙ sym (reservable-id mid now a hit)), miss)) db.machines
      (only_row (λ m. m.id) (λ m. reservable mid now m ≡ true) a.id db.machines {c = a} ids
        (first_by_key (λ m. m.id) (reservable mid now) db.machines a ids e) hit)

-- The first transaction: the machine is claimed for a new generation.
pub reserve-IsSafe :
    (q : Ticket) (audit_id : Text) (db : Db)
    → IsSafe db
    → Ensures (λ r. IsSafe r.1) (reserve q audit_id db)
unfolding reserve pending
reserve-IsSafe q audit_id db v =
    let Q : Machine × Db → Type 0 = λ r. IsSafe r.1 in
    let claimed = set_machines (reservable q.mid q.now) occupy db in
    let safe =
      set_machines-IsSafe (reservable q.mid q.now) occupy db occupy-KeepsKeys (λ m e. cc) v in
    Ensures-if Q (ltb 0 (count (has_reservation q.email) db.credentials)) _ _ (λ _. Ensures-err Q _)
      λ _.
        Ensures-if Q (not (count (reservable q.mid q.now) db.machines == 1)) _ _
          (λ _. Ensures-err Q _)
          λ won. Ensures-bind Q (machine q.mid claimed) _ λ m _.
            Ensures-then Q
              (insert_credential-IsSafe (pending q) claimed
                (claimed-off q.mid q.now db v (ground arith)) (pending-IsSafe q) safe)
              λ inserted u.
                Ensures-then Q
                  (audit-IsSafe audit_id q.mid q.email Event.checkout [] q.now inserted u)
                  λ audited w. Ensures-ok Q (m, audited) w

confirm-Keeps : KeepsCredential (λ c. record c { version = 1 })
confirm-Keeps = record {
  id = λ c. refl;
  machine_id = λ c. refl;
  email = λ c. refl;
  shrinks = λ c h. h;
}

confirm-IsSafe :
    (q : Ticket) (c : Credential)
    → is_pending q c ≡ true
    → CredentialIsSafe c
    → CredentialIsSafe (record c { version = 1 })
unfolding is_pending
confirm-IsSafe q c hit s = record {
  running = λ h. omega arith;
  ended = λ h. ground arith;
  reached = λ h. ground arith;
  active = λ h. absurd (omega arith);
}

-- The second transaction: the generation becomes pending.
pub activate-IsSafe :
    (m : Machine) (q : Ticket) (audit_id : Text) (now : ℕ) (db : Db)
    → IsSafe db
    → Ensures (λ r. IsSafe r.1) (activate m q audit_id now db)
unfolding activate
activate-IsSafe m q audit_id now db v =
    let Q : Unit {0} × Db → Type 0 = λ r. IsSafe r.1 in
    let held = set_machines (is_reserved m) occupy db in
    let confirmed = set_credentials (is_pending q) (λ c. record c { version = 1 }) held in
    let safe : IsSafe confirmed =
      set_credentials-IsSafe (is_pending q) (λ c. record c { version = 1 }) held confirm-Keeps
        (confirm-IsSafe q)
        (set_machines-IsSafe (is_reserved m) occupy db occupy-KeepsKeys (λ m e. cc) v) in
    Ensures-if Q (not (count (is_reserved m) db.machines == 1)) _ _ (λ _. Ensures-err Q _)
      λ _.
        Ensures-if Q (not (count (is_pending q) db.credentials == 1)) _ _ (λ _. Ensures-err Q _)
          λ _.
            Ensures-then Q
              (audit-IsSafe audit_id q.mid q.email Event.provision_ok [] now confirmed safe)
              λ audited w. Ensures-ok Q (tt, audited) w

revive-CredentialIsSafe :
    (now : ℕ) (c : Credential) → CredentialIsSafe c → CredentialIsSafe (revive now c)
revive-CredentialIsSafe now c s = record {
  running = λ h. ground arith;
  ended = λ h. cc;
  reached = λ h. ground arith;
  active = λ h. ground arith;
}

prepared-IsSafe :
    (m : Machine) (id : Text) (hold : Option Text) (now : ℕ) (db : Db)
    → IsOf id m.id db.credentials
    → IsSafe db
    → (b : Bool)
    → Ensures
        (λ x. IsSafeBut m.id x)
        (if b then constrained (set_credentials (is_credential id) (revive now) db) else ok db)
prepared-IsSafe m id hold now db o v true = record {
  at = λ db' h.
      ((revive-IsSafeBut id m.id (revive now) db (λ c. refl) (revive-CredentialIsSafe now) o v).at
        db' h).1;
}
prepared-IsSafe m id hold now db o v false = Ensures-ok _ db (IsSafe-IsSafeBut m.id db v)

-- The first half of a compensation, of a generation that belongs to the machine.
pub prepare-IsSafe :
    (target : Machine) (id : Text) (now : ℕ) (db : Db)
    → IsOf id target.id db.credentials
    → IsSafe db
    → Ensures (λ r. IsSafe r.1) (prepare target id now db)
unfolding prepare
prepare-IsSafe target id now db o v =
    let Q : Unit {0} × Db → Type 0 = λ r. IsSafe r.1 in
    Ensures-bind Q (machine target.id db) _ λ m found.
      Ensures-if Q (moved target m) _ _ (λ _. Ensures-ok Q (tt, db) v)
        λ _.
          let hold = merge_others id m.hold (current m.id db) in
          let (_, i) = machine-eq-ok target.id db found in
          Ensures-then Q (prepared-IsSafe m id hold now db (simp i o) v (only id (current m.id db)))
            λ revived u.
              Ensures-ok Q (tt, set_machines (has_id m.id) (hold_for hold) revived)
                (set_machines-IsSafeBut m.id (hold_for hold) revived (hold_for-KeepsKeys hold)
                  (λ r e. cc) u)

release-IsSafe :
    (m : Machine) (id : Text) (now : ℕ) (db : Db)
    → first (has_id m.id) db.machines ≡ some m
    → is_null m.pin ≡ false
    → IsSafe db
    → IsSafe (release m id now db)
unfolding release
release-IsSafe m id now db e pinned v =
    let revoked = set_credentials (is_credential id) (revoke_at now) db in
    let safe =
      set_credentials-IsSafe (is_credential id) (revoke_at now) db (revoke_at-Keeps now)
        (λ c _ h. revoke_at-IsSafe now c) v in
    elim (Bool-cases
      (length (current m.id revoked) == 0 && (is_null m.hold || same m.hold (some id)))) [
        | inl clear ↦ rw clear (
            set_row-IsSafe m free revoked free-KeepsKeys e
              (λ _. record {
                unheld = refl;
                pinned = pinned;
                idle = current-IsIdle m.id revoked (ground arith);
              })
              safe)
        | inr blocked ↦ rw blocked safe
      ]

settled-IsSafe :
    (m : Machine) (id : Text) (now : ℕ) (db : Db)
    → first (has_id m.id) db.machines ≡ some m
    → is_null m.pin ≡ false
    → IsSafe db
    → (locked : Bool) → IsSafe (if locked then release m id now db else db)
settled-IsSafe m id now db e pinned v true = release-IsSafe m id now db e pinned v
settled-IsSafe m id now db e pinned v false = v

-- The second half of a compensation, for a machine whose pin is known.
pub finish-IsSafe :
    (target : Machine) (id email audit_id : Text) (now : ℕ) (locked : Bool) (db : Db)
    → is_null target.pin ≡ false
    → IsSafe db
    → Ensures (λ r. IsSafe r.1) (finish target id email audit_id now locked db)
unfolding finish
finish-IsSafe target id email audit_id now locked db pinned v =
    let Q : Unit {0} × Db → Type 0 = λ r. IsSafe r.1 in
    Ensures-bind Q (machine target.id db) _ λ m found.
      Ensures-if Q (moved target m) _ _ (λ _. Ensures-ok Q (tt, db) v)
        λ here.
          let (e, _) = machine-eq-ok target.id db found in
          let pin = same-pinned m.pin target.pin (ground arith) pinned in
          Ensures-then Q
            (audit-IsSafe audit_id m.id email Event.provision_fail _ now
              (if locked then release m id now db else db)
              (settled-IsSafe m id now db e pin v locked))
            λ audited w. Ensures-ok Q (tt, audited) w
