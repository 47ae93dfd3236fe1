-- ===== src/Core/Enrollment/Safety.antt =====
-- The safety of the tables through internal/core/core.go, `Enroll` and `Visibility`.
use lab_gate.Prelude.{
  ℕ, Text, List, [], ◌∷◌, Bool, true, false, not, ◌≡◌, refl, fail, unique, no_rows, io, other,
  Result, ok, err, subst, sym, Ensures, Ensures-ok, Ensures-err, Ensures-if, Ensures-bind,
  Ensures-then, All, All-append, All-update, select, ◌&&◌, Bool-cases, inl, inr,
}
use lab_gate.Store.{
  Status, available, offline, Machine, Credential, Db, has_id, machine, unique_keys, constrained,
  insert_machine, tx, set_machines, machine_rekey,
}
use lab_gate.Store.Keys.{set_machines-keyed}
use lab_gate.Core.Invariant.{IsSafe, MachineIsSafe, audit-IsSafe, tx-IsSafe}
use lab_gate.Core.Identity.{name_pattern}
use lab_gate.Core.Enrollment.{
  found_machine, hide, is_as, set_hidden, visibility, Identity, replaced, enrolled, shares_identity,
  has_identity, enroll_among, is_drained, is_expected, names_machine, rekey_row, enroll_row, enroll,
  conflicted,
}

abbrev Kept : {A : Type 0} → A × Db → Type 0
Kept r = IsSafe r.1

-- Rows that the unique indexes take keep the tables safe if no machine among them is on offer anew.
constrained-IsSafe :
    (db db' : Db)
    → db'.credentials ≡ db.credentials
    → All (MachineIsSafe db'.credentials) db'.machines
    → IsSafe db
    → Ensures IsSafe (constrained db')
unfolding constrained
constrained-IsSafe db db' e rows v =
    Ensures-if IsSafe (unique_keys db') (ok db') (err unique)
      (λ keyed.
        Ensures-ok IsSafe db' (record {
          keyed = keyed;
          rows = rows;
          generations = subst (All _) (sym e) v.generations;
        }))
      (λ h. Ensures-err IsSafe unique)

off_offer : (cs : List Credential) (m : Machine) → m.status ≡ offline → MachineIsSafe cs m
off_offer cs m e h = absurd (apart m.status e h)
  where
    apart : (s : Status) → s ≡ offline → s ≡ available → ⊥
    apart s e h = cc

hidden-IsSafe :
    (id : Text) (h : Bool) (db : Db) → IsSafe db → IsSafe (set_machines (has_id id) (hide h) db)
hidden-IsSafe id h db v = record {
  keyed =
      set_machines-keyed (has_id id) (hide h) (λ m. refl) (λ m. refl) (λ m. refl) (λ m. refl)
        (λ m. refl) db v.keyed;
  rows =
      All-update (MachineIsSafe db.credentials) (MachineIsSafe db.credentials) (has_id id) (hide h)
        (λ m safe hit e. record {
          unheld = (safe e).unheld;
          pinned = (safe e).pinned;
          idle = (safe e).idle;
        })
        (λ m safe miss. safe) db.machines v.rows;
  generations = v.generations;
}

set_hidden-IsSafe :
    (id : Text) (h : Bool) (email audit_id : Text) (now : ℕ) (db : Db)
    → IsSafe db
    → Ensures Kept (set_hidden id h email audit_id now db)
unfolding set_hidden
set_hidden-IsSafe id h email audit_id now db v =
    Ensures-bind Kept (found_machine (machine id db)) _ λ m found.
      Ensures-if Kept (is_as m.hidden h) _ _ (λ same. Ensures-ok Kept (false, db) v)
        λ differs.
          Ensures-then Kept (audit-IsSafe audit_id id email _ _ now _ (hidden-IsSafe id h db v))
            λ audited safe. Ensures-ok Kept (true, audited) safe

-- A change of a machine's visibility leaves safe tables safe, also where it fails.
pub visibility-IsSafe :
    (fault : Bool) (id : Text) (h : Bool) (email audit_id : Text) (now : ℕ) (db : Db)
    → IsSafe db
    → IsSafe (visibility fault id h email audit_id now db).1
unfolding visibility
visibility-IsSafe fault id h email audit_id now db v =
    tx-IsSafe fault (set_hidden id h email audit_id now) db
      (set_hidden-IsSafe id h email audit_id now db v) v

enroll_among-IsSafe :
    (ms : List Machine) (v : Identity) (id token : Text) (db : Db)
    → IsSafe db
    → Ensures Kept (enroll_among ms v id token db)
unfolding enroll_among insert_machine
enroll_among-IsSafe [] v id token db safe =
    Ensures-then Kept
      (constrained-IsSafe db _ refl
        (All-append (MachineIsSafe db.credentials) db.machines (enrolled v id token ∷ []) safe.rows
          (off_offer db.credentials (enrolled v id token) refl, tt))
        safe)
      λ inserted kept. Ensures-ok Kept (token, inserted) kept
enroll_among-IsSafe (m ∷ []) v id token db safe =
    Ensures-if Kept (has_identity v m) _ _ (λ same. Ensures-ok Kept (m.token, db) safe)
      (λ other. Ensures-err Kept _)
enroll_among-IsSafe (m ∷ x ∷ ms) v id token db safe = Ensures-err Kept _

module _ (valid_ip valid_pin : Text → Bool) where
  rekey_row-IsSafe :
      (v : Identity) (token email audit_id : Text) (now : ℕ) (db : Db)
      → IsSafe db
      → Ensures Kept (rekey_row valid_ip valid_pin v token email audit_id now db)
  unfolding rekey_row
  rekey_row-IsSafe v token email audit_id now db safe =
      Ensures-if Kept (not (names_machine valid_ip valid_pin v)) _ _ (λ bad. Ensures-err Kept _)
        λ good. Ensures-bind Kept (found_machine (machine v.machine_id db)) _ λ m found.
          Ensures-if Kept (not (is_expected v m)) _ _ (λ bad. Ensures-err Kept _)
            λ expected.
              Ensures-if Kept (not (is_drained m db)) _ _ (λ bad. Ensures-err Kept _)
                λ drained.
                  Ensures-then Kept
                    (constrained-IsSafe db _ refl
                      (All-update (MachineIsSafe db.credentials) (MachineIsSafe db.credentials)
                        (has_id m.id) (replaced v token)
                        (λ r s hit. off_offer db.credentials (replaced v token r) refl)
                        (λ r s miss. s) db.machines safe.rows)
                      safe)
                    λ changed kept.
                      Ensures-then Kept
                        (audit-IsSafe audit_id m.id email machine_rekey _ now changed kept)
                        λ audited kept'. Ensures-ok Kept (token, audited) kept'

  enroll_row-IsSafe :
      (v : Identity) (rekey : Bool) (id token email audit_id : Text) (now : ℕ) (db : Db)
      → IsSafe db
      → Ensures Kept (enroll_row valid_ip valid_pin v rekey id token email audit_id now db)
  unfolding enroll_row
  enroll_row-IsSafe v rekey id token email audit_id now db safe =
      Ensures-if Kept rekey _ _ (λ on. rekey_row-IsSafe v token email audit_id now db safe)
        (λ off. enroll_among-IsSafe (select (shares_identity v) db.machines) v id token db safe)

  -- To enroll or rekey a machine leaves safe tables safe, also where it is refused or fails, and
  -- whatever texts are valid addresses and pins.
  pub enroll-IsSafe :
      (fault : Bool) (v : Identity) (rekey : Bool) (id token email audit_id : Text) (now : ℕ)
      (db : Db)
      → IsSafe db
      → IsSafe (enroll valid_ip valid_pin fault v rekey id token email audit_id now db).1
  unfolding enroll
  enroll-IsSafe fault v rekey id token email audit_id now db safe =
      elim (Bool-cases (not (name_pattern v.name && valid_ip v.ip && valid_pin v.pin))) [
        | inl bad ↦ rw bad safe
        | inr good ↦ rw good (
            settled
              (tx fault (enroll_row valid_ip valid_pin v rekey id token email audit_id now) db)
              (tx-IsSafe fault (enroll_row valid_ip valid_pin v rekey id token email audit_id now)
                db (enroll_row-IsSafe v rekey id token email audit_id now db safe) safe))
      ]
    where
      settled : (r : Result Text × Db) → IsSafe r.1 → IsSafe (conflicted r).1
      settled (ok t, d) s = s
      settled (err unique, d) s = s
      settled (err no_rows, d) s = s
      settled (err io, d) s = s
      settled (err (fail n t), d) s = s
      settled (err (other t), d) s = s
