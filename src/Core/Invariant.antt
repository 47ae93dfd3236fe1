-- ===== src/Core/Invariant.antt =====
-- The safety of the reservation tables: the keys of the schema, the counts on machines and
-- generations of `store.ValidateQuery`, and what the states of a generation mean.
use lab_gate.Prelude.{
  ℕ, ◌≤◌, Text, List, Option, none, some, Bool, true, false, ◌≡◌, ◌≢◌, refl, first, All-both, ok,
  err, Result, Ensures, text_eq, nat_eq, All, All-mono, All-update, update, arith,
}
use lab_gate.Store.{
  available, Machine, Credential, Event, Db, live, has_id, audit, settle, tx, set_machines,
  set_credentials, unique_keys,
}
use lab_gate.Store.Keys.{set_machines-keyed, set_credentials-keyed, keyed-ids, audit-eq-ok}
use lab_gate.Store.Rows.{IsIdle, IsIdle-update, only_row}
use lab_gate.Core.Hold.{same}
use lab_gate.Core.Checkout.{is_null, free, revoke_at}

-- A machine that is offered is held for nobody, has a pin, and has no live generation.
pub record IsOfferable (cs : List Credential) (m : Machine) : Type 0 where
  pub unheld : m.hold ≡ none
  pub pinned : is_null m.pin ≡ false
  pub idle : IsIdle m.id cs

abbrev pub MachineIsSafe : List Credential → Machine → Type 0
MachineIsSafe cs m = m.status ≡ available → IsOfferable cs m

-- Version 3 is the end, and version 2 is a session that has opened.
pub record CredentialIsSafe (c : Credential) : Type 0 where
  pub running : live c ≡ true → c.version ≤ 2
  pub ended : live c ≡ false → c.version ≡ 3
  pub reached : is_null c.opened ≡ false → 2 ≤ c.version
  pub active : c.version ≡ 2 → is_null c.opened ≡ false

pub record IsSafe (db : Db) : Type 0 where
  pub keyed : unique_keys db ≡ true
  pub rows : All (MachineIsSafe db.credentials) db.machines
  pub generations : All CredentialIsSafe db.credentials

-- No key of a machine is written.
pub record KeepsKeys (f : Machine → Machine) : Type 0 where
  pub id : (m : Machine) → (f m).id ≡ m.id
  pub name : (m : Machine) → (f m).name ≡ m.name
  pub ip : (m : Machine) → (f m).ip ≡ m.ip
  pub token : (m : Machine) → (f m).token ≡ m.token
  pub pin : (m : Machine) → (f m).pin ≡ m.pin

pub set_machines-IsSafe :
    (p : Machine → Bool) (f : Machine → Machine) (db : Db)
    → KeepsKeys f
    → ((m : Machine) → (f m).status ≢ available)
    → IsSafe db
    → IsSafe (set_machines p f db)
set_machines-IsSafe p f db k off v = record {
  keyed = set_machines-keyed p f k.id k.name k.ip k.token k.pin db v.keyed;
  rows =
      All-update (MachineIsSafe db.credentials) (MachineIsSafe db.credentials) p f
        (λ m h hit e. absurd (off m e)) (λ m h miss. h) db.machines v.rows;
  generations = v.generations;
}

-- One machine's row is written, at its id.
pub set_row-IsSafe :
    (m : Machine) (f : Machine → Machine) (db : Db)
    → KeepsKeys f
    → first (has_id m.id) db.machines ≡ some m
    → MachineIsSafe db.credentials (f m)
    → IsSafe db
    → IsSafe (set_machines (has_id m.id) f db)
set_row-IsSafe m f db k e safe v = record {
  keyed = set_machines-keyed (has_id m.id) f k.id k.name k.ip k.token k.pin db v.keyed;
  rows =
      All-update
        (λ r. MachineIsSafe db.credentials r × (r.id ≡ m.id → MachineIsSafe db.credentials (f r)))
        (MachineIsSafe db.credentials) (has_id m.id) f (λ r (_, h) hit. h (ground arith))
        (λ r (h, _) miss. h) db.machines
        (All-both (MachineIsSafe db.credentials)
          (λ r. r.id ≡ m.id → MachineIsSafe db.credentials (f r)) db.machines v.rows
          (only_row (λ r. r.id) (λ r. MachineIsSafe db.credentials (f r)) m.id db.machines {c = m}
            (keyed-ids db v.keyed) e safe));
  generations = v.generations;
}

pub record KeepsCredential (f : Credential → Credential) : Type 0 where
  pub id : (c : Credential) → (f c).id ≡ c.id
  pub machine_id : (c : Credential) → (f c).machine_id ≡ c.machine_id
  pub email : (c : Credential) → (f c).email ≡ c.email
  pub shrinks : (c : Credential) → live (f c) ≡ true → live c ≡ true

-- Generations change, and none comes to life.
pub set_credentials-IsSafe :
    (p : Credential → Bool) (f : Credential → Credential) (db : Db)
    → KeepsCredential f
    → ((c : Credential) → p c ≡ true → CredentialIsSafe c → CredentialIsSafe (f c))
    → IsSafe db
    → IsSafe (set_credentials p f db)
set_credentials-IsSafe p f db k safe v = record {
  keyed = set_credentials-keyed p f k.id k.machine_id k.email k.shrinks db v.keyed;
  rows =
      All-mono (MachineIsSafe db.credentials) (MachineIsSafe (update p f db.credentials))
        (λ m h e. record {
          unheld = (h e).unheld;
          pinned = (h e).pinned;
          idle =
              IsIdle-update m.id p f (λ c _ q. ground (arith, k.machine_id c, k.shrinks c))
                db.credentials (h e).idle;
        })
        db.machines v.rows;
  generations =
      All-update CredentialIsSafe CredentialIsSafe p f (λ c h hit. safe c hit h) (λ c h miss. h)
        db.credentials v.generations;
}

-- The tables of a database that another operation left as they were.
pub IsSafe-tables :
    (db db' : Db)
    → db'.machines ≡ db.machines
    → db'.credentials ≡ db.credentials
    → unique_keys db' ≡ true
    → IsSafe db
    → IsSafe db'
IsSafe-tables db db' em ec k v = record {
  keyed = k;
  rows = rw (em, ec) v.rows;
  generations = rw ec v.generations;
}

pub audit-IsSafe :
    (id mid email : Text) (event : Event) (detail : Text) (now : ℕ) (db : Db)
    → IsSafe db
    → Ensures IsSafe (audit id mid email event detail now db)
audit-IsSafe id mid email event detail now db v = record {
  at = λ db' h.
      let (em, ec, k) = audit-eq-ok id mid email event detail now db h in
      IsSafe-tables db db' em ec k v;
}

pub settle-IsSafe {ℓ} :
    {A : Type ℓ} (r : Result (A × Db)) (db : Db)
    → Ensures (λ x. IsSafe x.1) r
    → IsSafe db
    → IsSafe (settle r db).1
settle-IsSafe (ok (a, db')) db h v = h.at (a, db') refl
settle-IsSafe (err e) db h v = v

-- A transaction leaves a safe database if its body does where it succeeds.
pub tx-IsSafe {ℓ} :
    {A : Type ℓ} (fault : Bool) (f : Db → Result (A × Db)) (db : Db)
    → Ensures (λ x. IsSafe x.1) (f db)
    → IsSafe db
    → IsSafe (tx fault f db).1
unfolding tx
tx-IsSafe true f db h v = v
tx-IsSafe false f db h v = settle-IsSafe (f db) db h v

pub free-KeepsKeys : KeepsKeys free
free-KeepsKeys = record {
  id = λ m. refl;
  name = λ m. refl;
  ip = λ m. refl;
  token = λ m. refl;
  pin = λ m. refl;
}

pub revoke_at-Keeps : (now : ℕ) → KeepsCredential (revoke_at now)
revoke_at-Keeps now = record {
  id = λ c. refl;
  machine_id = λ c. refl;
  email = λ c. refl;
  shrinks = λ c h. cc;
}

pub revoke_at-IsSafe : (now : ℕ) (c : Credential) → CredentialIsSafe (revoke_at now c)
revoke_at-IsSafe now c = record {
  running = λ h. cc;
  ended = λ h. refl;
  reached = λ h. omega arith;
  active = λ h. absurd (omega arith);
}

-- A machine read again has a pin, if the pin that it is compared with is one.
pub same-pinned : (a b : Option Text) → same a b ≡ true → is_null b ≡ false → is_null a ≡ false
same-pinned none none s p = cc
same-pinned none (some b) s p = cc
same-pinned (some a) none s p = refl
same-pinned (some a) (some b) s p = refl

-- An audit entry leaves the generations as they were.
pub audit-keeps :
    (id mid email : Text) (event : Event) (detail : Text) (now : ℕ) (db : Db)
    → Ensures (λ db'. db'.credentials ≡ db.credentials) (audit id mid email event detail now db)
audit-keeps id mid email event detail now db = record {
  at = λ db' h. (audit-eq-ok id mid email event detail now db h).1;
}
