-- ===== src/Store/Keys.antt =====
-- The unique keys through the statements that are not checked against them.
use lab_gate.Prelude.{
  ℕ, Text, lower, ◌++◌, List, [], ◌∷◌, map, Bool, true, false, ◌≡◌, refl, ap, ◌==◌, text_eq, any,
  select, update, arith, ok,
}
use lab_gate.Store.{
  Machine, Credential, Db, live, distinct, pins, keyed_machines, keyed_credentials, unique_keys,
  constrained, set_machines, set_credentials, insert_credential, audit, Event,
}

pub map-update {ℓ κ} :
    {A : Type ℓ} {B : Type κ} (g : A → B) (p : A → Bool) (f : A → A)
    → ((a : A) → g (f a) ≡ g a)
    → (xs : List A) → map g (update p f xs) ≡ map g xs
map-update g p f same [] = refl
map-update g p f same (x ∷ xs) = ground (arith, same x, map-update g p f same xs)

pins-update :
    (p : Machine → Bool) (f : Machine → Machine)
    → ((m : Machine) → (f m).pin ≡ m.pin)
    → (ms : List Machine) → pins (update p f ms) ≡ pins ms
unfolding pins
pins-update p f same [] = refl
pins-update p f same (m ∷ ms) = ground (arith, same m, pins-update p f same ms)

-- The rows that count after a change counted before it, under the same key.
module _ (key : Credential → Text) (p : Credential → Bool) (f : Credential → Credential)
    (same : (c : Credential) → key (f c) ≡ key c)
    (shrinks : (c : Credential) → live (f c) ≡ true → live c ≡ true) where
  any-select-update :
      (x : Text) (cs : List Credential)
      → any (λ y. y == x) (map key (select live cs)) ≡ false
      → any (λ y. y == x) (map key (select live (update p f cs))) ≡ false
  any-select-update x [] h = refl
  any-select-update x (c ∷ cs) h = ground (arith, same c, shrinks c, any-select-update x cs)

  distinct-select-update :
      (cs : List Credential)
      → distinct (map key (select live cs)) ≡ true
      → distinct (map key (select live (update p f cs))) ≡ true
  unfolding distinct
  distinct-select-update [] h = refl
  distinct-select-update (c ∷ cs) h =
      ground (arith, same c, shrinks c, any-select-update (key c) cs, distinct-select-update cs)

-- An UPDATE that writes no key of a machine.
pub set_machines-keyed :
    (p : Machine → Bool) (f : Machine → Machine)
    → ((m : Machine) → (f m).id ≡ m.id)
    → ((m : Machine) → (f m).name ≡ m.name)
    → ((m : Machine) → (f m).ip ≡ m.ip)
    → ((m : Machine) → (f m).token ≡ m.token)
    → ((m : Machine) → (f m).pin ≡ m.pin)
    → (db : Db) → unique_keys db ≡ true
    → unique_keys (set_machines p f db) ≡ true
unfolding unique_keys keyed_machines
set_machines-keyed p f ids names ips tokens same db h =
    rw
      (
        map-update (λ m. m.id) p f ids db.machines,
        map-update (λ m. m.name) p f names db.machines,
        map-update (λ m. m.ip) p f ips db.machines,
        map-update (λ m. m.token) p f tokens db.machines,
        pins-update p f same db.machines,
      )
      h

-- An UPDATE that writes no key of a generation, and makes none live.
pub set_credentials-keyed :
    (p : Credential → Bool) (f : Credential → Credential)
    → ((c : Credential) → (f c).id ≡ c.id)
    → ((c : Credential) → (f c).machine_id ≡ c.machine_id)
    → ((c : Credential) → (f c).email ≡ c.email)
    → ((c : Credential) → live (f c) ≡ true → live c ≡ true)
    → (db : Db) → unique_keys db ≡ true
    → unique_keys (set_credentials p f db) ≡ true
unfolding unique_keys keyed_credentials
set_credentials-keyed p f ids mids emails shrinks db h =
    rw (map-update (λ c. c.id) p f ids db.credentials) (
      ground (
        arith,
        distinct-select-update (λ c. c.machine_id) p f mids shrinks db.credentials,
        distinct-select-update (λ c. lower c.email) p f (λ c. ap lower (emails c)) shrinks
            db.credentials,
      ))

pub constrained-eq-ok :
    (db : Db) {db' : Db} → constrained db ≡ ok db' → (db' ≡ db) × (unique_keys db ≡ true)
unfolding constrained
constrained-eq-ok db h = ground arith

-- An audit entry leaves the other tables alone.
pub audit-eq-ok :
    (id mid email : Text) (event : Event) (detail : Text) (now : ℕ) (db : Db) {db' : Db}
    → audit id mid email event detail now db ≡ ok db'
    → (db'.machines ≡ db.machines) × (db'.credentials ≡ db.credentials) × (unique_keys db' ≡ true)
unfolding audit
audit-eq-ok id mid email event detail now db h = ground arith

pub insert_credential-eq-ok :
    (c : Credential) (db : Db) {db' : Db}
    → insert_credential c db ≡ ok db'
    → (db'.machines ≡ db.machines)
      × (db'.credentials ≡ db.credentials ++ c ∷ [])
      × (unique_keys db' ≡ true)
unfolding insert_credential
insert_credential-eq-ok c db h = ground arith

pub keyed-ids : (db : Db) → unique_keys db ≡ true → distinct (map (λ m. m.id) db.machines) ≡ true
unfolding unique_keys keyed_machines
keyed-ids db h = ground arith

pub keyed-credential_ids :
    (db : Db) → unique_keys db ≡ true → distinct (map (λ c. c.id) db.credentials) ≡ true
unfolding unique_keys keyed_credentials
keyed-credential_ids db h = ground arith

pub keyed-live :
    (db : Db)
    → unique_keys db ≡ true
    → (distinct (map (λ c. c.machine_id) (select live db.credentials)) ≡ true)
      × (distinct (map (λ c. lower c.email) (select live db.credentials)) ≡ true)
unfolding unique_keys keyed_credentials
keyed-live db h = ground arith
