-- ===== src/Core/Sighting/Safety.antt =====
-- The safety of the tables through the heartbeats of machines that have no generation.
use lab_gate.Prelude.{
  ℕ, Text, Option, none, some, Bool, true, false, not, ◌&&◌, ◌==◌, ◌≡◌, refl, text_eq, nat_eq,
  if◌then◌else◌, length, first, first-eq-some, Bool-cases, Option-cases, inl, inr, arith, subst,
}
use lab_gate.Store.{
  Status, occupied, Machine, Credential, Db, live_on, has_id, is_credential, current,
}
use lab_gate.Store.Keys.{keyed-credential_ids}
use lab_gate.Store.Rows.{IsIdle, current-IsIdle, only_row, first_by_key}
use lab_gate.Core.Invariant.{
  IsSafe, KeepsKeys, set_machines-IsSafe, set_row-IsSafe, set_credentials-IsSafe, revoke_at-Keeps,
  revoke_at-IsSafe,
}
use lab_gate.Core.Revival.{IsOf}
use lab_gate.Core.Hold.{merge, conflict_hold}
use lab_gate.Core.Checkout.{revoke_at}
use lab_gate.Core.Sighting.{seen, see, free_status, revoke_all, known, idle_report}

pub seen-KeepsKeys :
    (now : ℕ) (status : Status) (hold : Option Text) → KeepsKeys (seen now status hold)
seen-KeepsKeys now status hold = record {
  id = λ m. refl;
  name = λ m. refl;
  ip = λ m. refl;
  token = λ m. refl;
  pin = λ m. refl;
}

pub revoke_all-IsSafe : (m : Machine) (now : ℕ) (db : Db) → IsSafe db → IsSafe (revoke_all m now db)
revoke_all-IsSafe m now db v =
    set_credentials-IsSafe (live_on m.id) (revoke_at now) db (revoke_at-Keeps now)
      (λ c _ h. revoke_at-IsSafe now c) v

-- The row is written with a status other than `available`.
pub see_busy-IsSafe :
    (m : Machine) (now : ℕ) (hold : Option Text) (db : Db)
    → IsSafe db
    → IsSafe (see m now occupied hold db)
see_busy-IsSafe m now hold db v =
    set_machines-IsSafe (has_id m.id) (seen now occupied hold) db (seen-KeepsKeys now occupied hold)
      (λ r e. cc) v

-- The row of an idle machine is freed, if it has a pin.
pub see_free-IsSafe :
    (m : Machine) (now : ℕ) (db : Db)
    → first (has_id m.id) db.machines ≡ some m
    → IsIdle m.id db.credentials
    → IsSafe db
    → IsSafe (see m now (free_status m.pin) none db)
see_free-IsSafe m now db e idle v =
    set_row-IsSafe m (seen now (free_status m.pin) none) db
      (seen-KeepsKeys now (free_status m.pin) none) e
      (λ a. record { unheld = refl; pinned = ground arith; idle = idle }) v

pub idle_report-IsSafe :
    (m : Machine) (locked : Bool) (now : ℕ) (db : Db)
    → first (has_id m.id) db.machines ≡ some m
    → IsSafe db
    → IsSafe (idle_report m locked now db)
unfolding idle_report
idle_report-IsSafe m locked now db e v =
    elim (Bool-cases (locked && length (current m.id db) == 0)) [
      | inl clear ↦ rw clear (see_free-IsSafe m now db e (current-IsIdle m.id db (ground arith)) v)
      | inr busy ↦ rw busy (rest locked)
    ]
  where
    rest :
        (b : Bool)
        → IsSafe (
            if not b
            then see m now occupied (merge m.hold conflict_hold) (revoke_all m now db)
            else see m now occupied m.hold db)
    rest true = see_busy-IsSafe m now m.hold db v
    rest false =
        see_busy-IsSafe m now (merge m.hold conflict_hold) (revoke_all m now db)
          (revoke_all-IsSafe m now db v)

-- The generation that is found belongs to the machine, as every row with its id does.
pub known-IsOf :
    (m : Machine) (id : Text) (db : Db) (c : Credential)
    → known m id db ≡ some c
    → IsSafe db
    → (c.id ≡ id) × IsOf c.id m.id db.credentials
unfolding known
known-IsOf m id db c e v = elim (Option-cases (first (is_credential id) db.credentials)) [
  | inl missing ↦ cc
  | inr (x, f) ↦
      let i = first-eq-some (is_credential id) db.credentials f in
      let same : x ≡ c = ground arith in
      let here : c.machine_id ≡ m.id = ground arith in
      let ident : c.id ≡ id = ground arith in
      (
        ident,
        only_row (λ r. r.id) (λ r. r.machine_id ≡ m.id) c.id db.credentials {c = c}
            (keyed-credential_ids db v.keyed)
            (subst (λ z. first (is_credential z.id) db.credentials ≡ some z) same
              (first_by_key (λ r. r.id) (is_credential id) db.credentials x
                (keyed-credential_ids db v.keyed) f))
            here,
      )
]
