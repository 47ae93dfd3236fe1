-- ===== src/Core/Enrollment.antt =====
-- internal/core/core.go, `Visibility` and `Enroll`. `ValidIP` and `ValidPin`, which parse with the
-- standard library, are parameters; the id and the token of a new machine are arguments.
pub mod Safety
pub mod Hiding
use lab_gate.Prelude.{
  ℕ, ltb, Text, codes, List, [], ◌∷◌, Option, none, some, Bool, true, false, not, ◌&&◌, ◌||◌, ◌==◌,
  text_eq, nat_eq, if◌then◌else◌, length, select, Error, fail, unique, no_rows, Result, ok, err,
  ◌>>=◌,
}
use lab_gate.Store.{
  available, offline, Machine, Event, Db, has_id, machine, current, set_machines, constrained,
  insert_machine, audit, tx, machine_hide, machine_restore, machine_rekey,
}
use lab_gate.Core.Hold.{same}
use lab_gate.Core.Identity.{credential_id, name_pattern}
use lab_gate.Core.Checkout.{is_null, is_available}

-- A machine that is not found is answered 404.
abbrev pub found_machine : Result Machine → Result Machine
found_machine (err no_rows) = err (fail 404 "Machine not found")
found_machine r = r

abbrev pub hide : Bool → Machine → Machine
hide h m = record m { hidden = h }

abbrev pub is_as : Bool → Bool → Bool
is_as a b = a && b || not a && not b

unfoldable pub set_hidden : Text → Bool → Text → Text → ℕ → Db → Result (Bool × Db)
set_hidden id h email audit_id now db = do
  m ← found_machine (machine id db)
  if is_as m.hidden h then ok (false, db) else do
    audited ←
        audit audit_id id email (if h then machine_hide else machine_restore)
          (codes "Visibility changed; lifecycle state preserved.") now
          (set_machines (has_id id) (hide h) db)
    ok (true, audited)

-- Whether the row was updated, or unchanged.
unfoldable pub visibility : Bool → Text → Bool → Text → Text → ℕ → Db → Result Bool × Db
unfolding set_hidden
visibility fault id h email audit_id now db = tx fault (set_hidden id h email audit_id now) db

-- The body of a request to enroll or to rekey.
pub record Identity : Type 0 where
  pub name : Text
  pub ip : Text
  pub pin : Text
  pub machine_id : Text
  pub expected_name : Text
  pub expected_ip : Text
  pub expected_pin : Option Text

-- The row of a machine under its new identity; it is on no offer until its next heartbeat.
abbrev pub replaced : Identity → Text → Machine → Machine
replaced v token m = record m {
  name = v.name;
  ip = v.ip;
  pin = some v.pin;
  token = token;
  heartbeat = none;
  status = offline;
}

abbrev pub enrolled : Identity → Text → Text → Machine
enrolled v id token = record {
  id = id;
  name = v.name;
  ip = v.ip;
  pin = some v.pin;
  token = token;
  status = offline;
  hidden = false;
  heartbeat = none;
  hold = none;
}

-- WHERE name=? OR tailscale_ip=? OR ssh_host_key_sha256=?
abbrev pub shares_identity : Identity → Machine → Bool
shares_identity v m = m.name == v.name || m.ip == v.ip || same m.pin (some v.pin)

abbrev pub has_identity : Identity → Machine → Bool
has_identity v m = m.name == v.name && m.ip == v.ip && same m.pin (some v.pin)

-- A machine that is enrolled already gives its token again.
pub enroll_among : List Machine → Identity → Text → Text → Db → Result (Text × Db)
enroll_among [] v id token db = do
  inserted ← insert_machine (enrolled v id token) db
  ok (token, inserted)
enroll_among (m ∷ []) v id token db =
    if has_identity v m
    then ok (m.token, db)
    else err (fail 409 "Machine identity conflict; use drained rekey")
enroll_among (m ∷ x ∷ ms) v id token db =
    err (fail 409 "Machine identity conflict; use drained rekey")

abbrev pub is_drained : Machine → Db → Bool
is_drained m db = is_available m && is_null m.hold && not (ltb 0 (length (current m.id db)))

abbrev pub is_expected : Identity → Machine → Bool
is_expected v m = m.name == v.expected_name && m.ip == v.expected_ip && same m.pin v.expected_pin

abbrev pub conflicted : Result Text × Db → Result Text × Db
conflicted (err unique, db) = (err (fail 409 "Machine identity conflict"), db)
conflicted r = r

module _ (valid_ip valid_pin : Text → Bool) where
  abbrev pin_fits : Option Text → Bool
  pin_fits none = true
  pin_fits (some p) = valid_pin p

  abbrev pub names_machine : Identity → Bool
  names_machine v =
      credential_id v.machine_id
      && name_pattern v.expected_name
      && valid_ip v.expected_ip
      && pin_fits v.expected_pin

  pub rekey_row : Identity → Text → Text → Text → ℕ → Db → Result (Text × Db)
  rekey_row v token email audit_id now db =
      if not (names_machine v)
      then err (fail 400 "Exact expected machine identity required")
      else do
        m ← found_machine (machine v.machine_id db)
        if not (is_expected v m)
            then err (fail 409 "Machine identity changed")
            else if not (is_drained m db)
            then err (fail 409 "Rekey requires an available drained machine without a safety hold")
            else do
              changed ← constrained (set_machines (has_id m.id) (replaced v token) db)
              audited ←
                  audit audit_id m.id email machine_rekey
                    (codes "Identity replaced; awaiting safe heartbeat.") now changed
              ok (token, audited)

  pub enroll_row : Identity → Bool → Text → Text → Text → Text → ℕ → Db → Result (Text × Db)
  unfolding rekey_row enroll_among
  enroll_row v rekey id token email audit_id now db =
      if rekey
      then rekey_row v token email audit_id now db
      else enroll_among (select (shares_identity v) db.machines) v id token db

  pub enroll : Bool → Identity → Bool → Text → Text → Text → Text → ℕ → Db → Result Text × Db
  unfolding enroll_row
  enroll fault v rekey id token email audit_id now db =
      if not (name_pattern v.name && valid_ip v.ip && valid_pin v.pin)
      then (
        err (fail 400 "Valid name, canonical Tailscale IPv4 and Ed25519 SHA256 pin required"),
        db,
      )
      else conflicted (tx fault (enroll_row v rekey id token email audit_id now) db)
