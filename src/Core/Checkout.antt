-- ===== src/Core/Checkout.antt =====
-- internal/core/checkout.go, `Checkout` and `compensate`: three transactions with an SSH call
-- between them, during which other requests commit.
pub mod Safety
pub mod Reserved
pub mod Activated
pub mod Exclusive
use lab_gate.Prelude.{
  ℕ, ◌+◌, ◌-◌, ltb, leb, Text, codes, lower, List, [], ◌∷◌, Option, none, some, Bool, true, false,
  not, ◌&&◌, ◌||◌, ◌==◌, text_eq, nat_eq, if◌then◌else◌, count, length, fail, other, Result, ok,
  err, ◌>>=◌,
}
use lab_gate.Store.{
  available, occupied, Machine, Credential, Event, Db, live, has_id, is_credential, machine,
  current, set_machines, set_credentials, insert_credential, constrained, audit, provision_ok,
  provision_fail,
}
use lab_gate.Core.Hold.{merge, same}

abbrev pub is_available : Machine → Bool
is_available m = elim m.status [ available ↦ true | _ ↦ false ]

abbrev pub is_occupied : Machine → Bool
is_occupied m = elim m.status [ occupied ↦ true | _ ↦ false ]

abbrev pub is_null {ℓ} : {A : Type ℓ} → Option A → Bool
is_null none = true
is_null (some a) = false

-- last_heartbeat BETWEEN now-120000 AND now+30000, which NULL is not.
abbrev pub is_fresh : ℕ → Option ℕ → Bool
is_fresh now none = false
is_fresh now (some t) = leb (now - 120000) t && leb t (now + 30000)

-- The WHERE of the UPDATE that claims a machine.
unfoldable pub reservable : Text → ℕ → Machine → Bool
reservable mid now m =
    has_id mid m
    && is_available m
    && not m.hidden
    && not (is_null m.pin)
    && is_null m.hold
    && is_fresh now m.heartbeat

abbrev pub occupy : Machine → Machine
occupy m = record m { status = occupied }

-- What a checkout has drawn before its first transaction; `email` is in lower case.
pub record Ticket : Type 0 where
  pub mid : Text
  pub id : Text
  pub email : Text
  pub now : ℕ
  pub expires : ℕ

unfoldable pub has_reservation : Text → Credential → Bool
has_reservation email c = lower c.email == email && live c

unfoldable pub pending : Ticket → Credential
pending q = record {
  id = q.id;
  machine_id = q.mid;
  email = q.email;
  created = q.now;
  expires = q.expires;
  revoked = none;
  opened = none;
  version = 0;
}

-- The first transaction: claim the machine and record the generation.
unfoldable pub reserve : Ticket → Text → Db → Result (Machine × Db)
reserve q audit_id db =
    if ltb 0 (count (has_reservation q.email) db.credentials)
    then err (fail 409 "You already have a reservation or active session")
    else if not (count (reservable q.mid q.now) db.machines == 1)
    then err (fail 409 "Machine is no longer available")
    else let claimed = set_machines (reservable q.mid q.now) occupy db in
      do
        m ← machine q.mid claimed
        inserted ← insert_credential (pending q) claimed
        audited ← audit audit_id q.mid q.email Event.checkout [] q.now inserted
        ok (m, audited)

-- `ssh_host_key_sha256=?` with the pin that the checkout read; NULL equals nothing.
abbrev pub pin_is : Option Text → Option Text → Bool
pin_is none row = false
pin_is (some p) none = false
pin_is (some p) (some r) = r == p

unfoldable pub is_reserved : Machine → Machine → Bool
is_reserved m row =
    has_id m.id row && row.ip == m.ip && pin_is m.pin row.pin && is_occupied row && is_null row.hold

unfoldable pub is_pending : Ticket → Credential → Bool
is_pending q c =
    is_credential q.id c && c.machine_id == q.mid && live c && is_null c.opened && leb c.version 1

-- The second transaction: the machine took the password, so the generation becomes pending.
unfoldable pub activate : Machine → Ticket → Text → ℕ → Db → Result (Unit {0} × Db)
activate m q audit_id now db =
    if not (count (is_reserved m) db.machines == 1)
    then err (other "reservation lost")
    else if not (count (is_pending q) db.credentials == 1)
    then err (other "pending generation lost")
    else let held = set_machines (is_reserved m) occupy db in
      let confirmed = set_credentials (is_pending q) (λ c. record c { version = 1 }) held in
      do audited ← audit audit_id q.mid q.email provision_ok [] now confirmed; ok (tt, audited)

abbrev pub moved : Machine → Machine → Bool
moved target m = not (m.ip == target.ip && same m.pin target.pin)

-- The hold of a machine joined with every live generation but `id`, then with `id`.
pub merge_others : Text → Option Text → List Text → Option Text
unfolding merge
merge_others id hold [] = merge hold id
merge_others id hold (v ∷ vs) = merge_others id (if v == id then hold else merge hold v) vs

abbrev pub only : Text → List Text → Bool
only id [] = true
only id (v ∷ []) = v == id
only id (v ∷ w ∷ vs) = false

-- Back to live, so that the sweep finds it, at the version that its session has reached.
abbrev pub revive : ℕ → Credential → Credential
revive now c = record c {
  revoked = none;
  expires = now;
  version = if is_null c.opened then 1 else 2;
}

abbrev pub revoke_at : ℕ → Credential → Credential
revoke_at now c = record c { revoked = some now; version = 3 }

abbrev pub hold_for : Option Text → Machine → Machine
hold_for hold m = record m { status = occupied; hold = hold }

abbrev pub free : Machine → Machine
free m = record m { status = available; hold = none }

-- The first half of a compensation: keep the machine occupied, and the generation findable.
pub prepare : Machine → Text → ℕ → Db → Result (Unit {0} × Db)
prepare target id now db = do
  m ← machine target.id db
  if moved target m then ok (tt, db) else do
    let ids = current m.id db
    let hold = merge_others id m.hold ids
    revived ←
        if only id ids
        then constrained (set_credentials (is_credential id) (revive now) db)
        else ok db
    ok (tt, set_machines (has_id m.id) (hold_for hold) revived)

-- After a confirmed lock: revoke the generation, and free the machine if nothing else holds it.
pub release : Machine → Text → ℕ → Db → Db
release m id now db =
    let revoked = set_credentials (is_credential id) (revoke_at now) db in
    if length (current m.id revoked) == 0 && (is_null m.hold || same m.hold (some id))
    then set_machines (has_id m.id) free revoked
    else revoked

-- The second half, once the endpoint has or has not confirmed its lock.
pub finish : Machine → Text → Text → Text → ℕ → Bool → Db → Result (Unit {0} × Db)
finish target id email audit_id now locked db = do
  m ← machine target.id db
  if moved target m then ok (tt, db) else do
    let settled = if locked then release m id now db else db
    audited ←
        audit audit_id m.id email provision_fail
          (codes "Provisioning failed; exact-generation compensation attempted.") now settled
    ok (tt, audited)
