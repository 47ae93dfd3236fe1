-- ===== src/Store.antt =====
-- internal/store and the row types of internal/core/core.go: the tables as lists of rows, the SQL
-- statements as functions on them, and a transaction.
pub mod Keys
pub mod Rows
use lab_gate.Prelude.{
  ℕ, Text, lower, List, [], ◌∷◌, ◌++◌, map, Option, none, some, Bool, true, false, not, ◌&&◌, ◌==◌,
  text_eq, option_eq, if◌then◌else◌, any, select, first, update, take, unique, no_rows, io, Result,
  ok, err,
}

pub data Status : Type 0 where
  available occupied offline : Status

-- A row of `machines`; `hold` is the column safety_hold_credential_id.
pub record Machine : Type 0 where
  pub id : Text
  pub name : Text
  pub ip : Text
  pub pin : Option Text
  pub token : Text
  pub status : Status
  pub hidden : Bool
  pub heartbeat : Option ℕ
  pub hold : Option Text

-- A row of `guest_credentials`; `revoked` and `opened` are NULL until the event.
pub record Credential : Type 0 where
  pub id : Text
  pub machine_id : Text
  pub email : Text
  pub created : ℕ
  pub expires : ℕ
  pub revoked : Option ℕ
  pub opened : Option ℕ
  pub version : ℕ

pub data Event : Type 0 where
  checkout provision_ok provision_fail force_revoke password_timeout : Event
  session_open session_close machine_hide machine_restore machine_rekey login logout : Event

pub record AuditRow : Type 0 where
  pub id : Text
  pub machine_id : Option Text
  pub email : Option Text
  pub event : Event
  pub detail : Text
  pub created : ℕ

pub record Db : Type 0 where
  pub machines : List Machine
  pub credentials : List Credential
  pub audit : List AuditRow

-- `revoked_at IS NULL`, alone and together with `machine_id=?`.
abbrev pub live : Credential → Bool
live c = elim c.revoked [ none ↦ true | some t ↦ false ]

abbrev pub live_on : Text → Credential → Bool
live_on mid c = c.machine_id == mid && live c

abbrev pub has_id : Text → Machine → Bool
has_id id m = m.id == id

abbrev pub is_credential : Text → Credential → Bool
is_credential id c = c.id == id

abbrev pub found {ℓ} : {A : Type ℓ} → Option A → Result A
found none = err no_rows
found (some a) = ok a

-- SELECT … FROM machines WHERE id=?
unfoldable pub machine : Text → Db → Result Machine
machine id db = found (first (has_id id) db.machines)

-- SELECT … FROM guest_credentials WHERE id=?
unfoldable pub credential : Text → Db → Result Credential
credential id db = found (first (is_credential id) db.credentials)

-- SELECT id FROM guest_credentials WHERE machine_id=? AND revoked_at IS NULL
unfoldable pub current : Text → Db → List Text
current mid db = map (λ c. c.id) (select (live_on mid) db.credentials)

-- UPDATE … SET … WHERE …, of the columns that no unique index reads
abbrev pub set_machines : (Machine → Bool) → (Machine → Machine) → Db → Db
set_machines p f db = record db { machines = update p f db.machines }

abbrev pub set_credentials : (Credential → Bool) → (Credential → Credential) → Db → Db
set_credentials p f db = record db { credentials = update p f db.credentials }

unfoldable pub distinct : List Text → Bool
distinct [] = true
distinct (x ∷ xs) = not (any (λ y. y == x) xs) && distinct xs

pub pins : List Machine → List Text
pins [] = []
pins (m ∷ ms) = elim m.pin [ none ↦ pins ms | some p ↦ p ∷ pins ms ]

-- The primary keys and the unique indexes of the schema, table by table.
pub keyed_machines : List Machine → Bool
unfolding distinct pins
keyed_machines ms =
    distinct (map (λ m. m.id) ms)
    && distinct (map (λ m. m.name) ms)
    && distinct (map (λ m. m.ip) ms)
    && distinct (map (λ m. m.token) ms)
    && distinct (pins ms)

pub keyed_credentials : List Credential → Bool
unfolding distinct
keyed_credentials cs =
    distinct (map (λ c. c.id) cs)
    && distinct (map (λ c. c.machine_id) (select live cs))
    && distinct (map (λ c. lower c.email) (select live cs))

pub keyed_audit : List AuditRow → Bool
unfolding distinct
keyed_audit entries = distinct (map (λ a. a.id) entries)

unfoldable pub unique_keys : Db → Bool
unfolding keyed_machines keyed_credentials keyed_audit
unique_keys db =
    keyed_machines db.machines && keyed_credentials db.credentials && keyed_audit db.audit

-- What a statement that writes an indexed column returns: the rows, or the constraint's error.
unfoldable pub constrained : Db → Result Db
constrained db = if unique_keys db then ok db else err unique

unfoldable pub insert_machine : Machine → Db → Result Db
unfolding constrained
insert_machine m db = constrained (record db { machines = db.machines ++ m ∷ [] })

unfoldable pub insert_credential : Credential → Db → Result Db
unfolding constrained
insert_credential c db = constrained (record db { credentials = db.credentials ++ c ∷ [] })

-- "" is stored as NULL, and the detail is cut at 500 bytes.
abbrev pub nullable : Text → Option Text
nullable [] = none
nullable (c ∷ s) = some (c ∷ s)

unfoldable pub audit : Text → Text → Text → Event → Text → ℕ → Db → Result Db
unfolding constrained
audit id mid email event detail now db = constrained (record db { audit = db.audit ++ row ∷ [] })
  where
    row : AuditRow
    row = record {
      id = id;
      machine_id = nullable mid;
      email = nullable email;
      event = event;
      detail = take 500 detail;
      created = now;
    }

-- What a transaction leaves: its result, and the tables, changed only if it committed.
abbrev pub settle {ℓ} : {S : Type 0} {A : Type ℓ} → Result (A × S) → S → Result A × S
settle (ok (a, s')) s = (ok a, s')
settle (err e) s = (err e, s)

-- `fault` is set where the database fails at some statement or at the commit.
unfoldable pub tx {ℓ} : {S : Type 0} {A : Type ℓ} → Bool → (S → Result (A × S)) → S → Result A × S
tx fault f s = if fault then (err io, s) else settle (f s) s
