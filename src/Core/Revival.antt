-- ===== src/Core/Revival.antt =====
-- Tables that are safe but for the machine of a generation that has just come to life, which the
-- same transaction then keeps from being offered.
use lab_gate.Prelude.{
  ℕ, Text, List, [], ◌∷◌, ◌++◌, true, false, ◌≡◌, ◌≢◌, refl, text_eq, All, All-mono, All-update,
  All-append, All-both, update, Ensures, arith,
}
use lab_gate.Store.{
  available, Machine, Credential, Event, Db, live_on, has_id, is_credential, audit, set_machines,
  set_credentials, unique_keys, insert_credential, constrained,
}
use lab_gate.Store.Keys.{
  set_machines-keyed, constrained-eq-ok, audit-eq-ok, insert_credential-eq-ok,
}
use lab_gate.Store.Rows.{IsIdle}
use lab_gate.Core.Invariant.{MachineIsSafe, CredentialIsSafe, IsSafe, KeepsKeys}

pub record IsSafeBut (mid : Text) (db : Db) : Type 0 where
  pub keyed : unique_keys db ≡ true
  pub rows : All (λ m. m.id ≢ mid → MachineIsSafe db.credentials m) db.machines
  pub generations : All CredentialIsSafe db.credentials

-- Every row of the generation `id` is one of machine `mid`.
abbrev pub IsOf : Text → Text → List Credential → Type 0
IsOf id mid cs = All (λ c. c.id ≡ id → c.machine_id ≡ mid) cs

IsIdle-elsewhere :
    (id mid x : Text) (f : Credential → Credential)
    → ((c : Credential) → (f c).machine_id ≡ c.machine_id)
    → x ≢ mid
    → (cs : List Credential) → IsOf id mid cs
    → IsIdle x cs
    → IsIdle x (update (is_credential id) f cs)
IsIdle-elsewhere id mid x f same away [] o h = tt
IsIdle-elsewhere id mid x f same away (c ∷ cs) o h =
    ground (arith, same c, o.0, IsIdle-elsewhere id mid x f same away cs o.1 h.1)

-- A generation comes to life, or goes on living.
pub revive-IsSafeBut :
    (id mid : Text) (f : Credential → Credential) (db : Db)
    → ((c : Credential) → (f c).machine_id ≡ c.machine_id)
    → ((c : Credential) → CredentialIsSafe c → CredentialIsSafe (f c))
    → IsOf id mid db.credentials
    → IsSafe db
    → Ensures
        (λ db'. (db'.machines ≡ db.machines) × IsSafeBut mid db')
        (constrained (set_credentials (is_credential id) f db))
revive-IsSafeBut id mid f db same safe o v = record {
  at = λ db' h.
      let changed = set_credentials (is_credential id) f db in
      let (e, k) = constrained-eq-ok changed h in
      rw e (
        refl,
        record {
          keyed = k;
          rows =
              All-mono (MachineIsSafe db.credentials)
                (λ m. m.id ≢ mid → MachineIsSafe changed.credentials m)
                (λ m s away a. record {
                  unheld = (s a).unheld;
                  pinned = (s a).pinned;
                  idle = IsIdle-elsewhere id mid m.id f same away db.credentials o (s a).idle;
                })
                db.machines v.rows;
          generations =
              All-update CredentialIsSafe CredentialIsSafe (is_credential id) f
                (λ c s hit. safe c s) (λ c s miss. s) db.credentials v.generations;
        },
      );
}

pub IsSafe-IsSafeBut : (mid : Text) (db : Db) → IsSafe db → IsSafeBut mid db
IsSafe-IsSafeBut mid db v = record {
  keyed = v.keyed;
  rows =
      All-mono (MachineIsSafe db.credentials) (λ m. m.id ≢ mid → MachineIsSafe db.credentials m)
        (λ m s _. s) db.machines v.rows;
  generations = v.generations;
}

pub audit-IsSafeBut :
    (x id mid email : Text) (event : Event) (detail : Text) (now : ℕ) (db : Db)
    → IsSafeBut x db
    → Ensures (λ db'. IsSafeBut x db') (audit id mid email event detail now db)
audit-IsSafeBut x id mid email event detail now db v = record {
  at = λ db' h.
      let (em, ec, k) = audit-eq-ok id mid email event detail now db h in
      record { keyed = k; rows = rw (em, ec) v.rows; generations = rw ec v.generations };
}

-- The machine is taken out of offer, and all of the tables are safe again.
pub set_machines-IsSafeBut :
    (mid : Text) (f : Machine → Machine) (db : Db)
    → KeepsKeys f
    → ((m : Machine) → (f m).status ≢ available)
    → IsSafeBut mid db
    → IsSafe (set_machines (has_id mid) f db)
set_machines-IsSafeBut mid f db k off v = record {
  keyed = set_machines-keyed (has_id mid) f k.id k.name k.ip k.token k.pin db v.keyed;
  rows =
      All-update (λ m. m.id ≢ mid → MachineIsSafe db.credentials m) (MachineIsSafe db.credentials)
        (has_id mid) f (λ m h hit e. absurd (off m e)) (λ m h miss. h (ground arith)) db.machines
        v.rows;
  generations = v.generations;
}

-- A generation is recorded for a machine that is not offered.
pub insert_credential-IsSafe :
    (c : Credential) (db : Db)
    → All (λ m. m.id ≡ c.machine_id → m.status ≢ available) db.machines
    → CredentialIsSafe c
    → IsSafe db
    → Ensures IsSafe (insert_credential c db)
insert_credential-IsSafe c db off safe v = record {
  at = λ db' h.
      let (em, ec, k) = insert_credential-eq-ok c db h in
      record {
        keyed = k;
        rows =
            rw (em, ec)
              (All-mono
                (λ m. MachineIsSafe db.credentials m × (m.id ≡ c.machine_id → m.status ≢ available))
                (MachineIsSafe (db.credentials ++ c ∷ []))
                (λ m (s, away) a. record {
                  unheld = (s a).unheld;
                  pinned = (s a).pinned;
                  idle =
                      All-append (λ x. live_on m.id x ≡ false) db.credentials (c ∷ []) (s a).idle
                        (ground (arith, λ (e : m.id ≡ c.machine_id). away e a), tt);
                })
                db.machines
                (All-both (MachineIsSafe db.credentials)
                  (λ m. m.id ≡ c.machine_id → m.status ≢ available) db.machines v.rows off));
        generations =
            rw ec (All-append CredentialIsSafe db.credentials (c ∷ []) v.generations (safe, tt));
      };
}
