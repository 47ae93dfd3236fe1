-- ===== src/Core/Listing.antt =====
-- internal/core/core.go, `List`: the machines that are shown, in the order of their names. An index
-- numbers the readings of the clock and those of the tables, which other requests may change between.
pub mod Privacy
use lab_gate.Prelude.{
  ℕ, zero, suc, ◌+◌, leb, precedes, Text, codes, List, [], ◌∷◌, Option, none, some, Bool, true,
  false, not, ◌&&◌, ◌||◌, ◌==◌, text_eq, if◌then◌else◌, select, first, map, Result, ok, err, ◌>>=◌,
  io,
}
use lab_gate.Store.{Status, available, occupied, Machine, Credential, Db, live_on}

-- `Reservation`; a generation that was opened is active, any other pending.
pub record Reservation : Type 0 where
  pub id : Text
  pub email : Text
  pub is_active : Bool
  pub created : ℕ
  pub expires : ℕ
  pub opened : Option ℕ
  pub version : ℕ

-- A row with what `List` adds to it.
pub record Listed : Type 0 where
  pub machine : Machine
  pub online : Bool
  pub reservation : Option Reservation

-- ORDER BY, on a text column
unfoldable pub place_by {ℓ} : {A : Type ℓ} → (A → Text) → A → List A → List A
place_by key a [] = a ∷ []
place_by key a (b ∷ bs) =
    let rest = place_by key a bs in if precedes (key a) (key b) then a ∷ b ∷ bs else b ∷ rest

unfoldable pub order_by {ℓ} : {A : Type ℓ} → (A → Text) → List A → List A
unfolding place_by
order_by key [] = []
order_by key (a ∷ more) = place_by key a (order_by key more)

abbrev pub last_heartbeat : Option ℕ → ℕ
last_heartbeat none = 0
last_heartbeat (some t) = t

-- A machine is online from 30 s before its last heartbeat to two minutes after it.
abbrev pub is_online : ℕ → Option ℕ → Bool
is_online now heartbeat =
    let t = last_heartbeat heartbeat in leb now (t + 120000) && leb t (now + 30000)

-- The rows that are shown; the clock is read for each of them.
unfoldable pub scanned : Bool → (ℕ → ℕ) → ℕ → List Machine → List Listed
scanned admin clock i [] = []
scanned admin clock i (m ∷ ms) =
    let shown : Listed = record {
      machine = m;
      online = is_online (clock i) m.heartbeat;
      reservation = none;
    } in
    let rest = scanned admin clock (suc i) ms in
    let others = scanned admin clock i ms in if not admin && m.hidden then others else shown ∷ rest

abbrev pub reservation_of : Credential → Reservation
reservation_of c = record {
  id = c.id;
  email = c.email;
  is_active = elim c.opened [ none ↦ false | some t ↦ true ];
  created = c.created;
  expires = c.expires;
  opened = c.opened;
  version = c.version;
}

abbrev pub reserved_by : Option Credential → Option Reservation
reserved_by none = none
reserved_by (some c) = some (reservation_of c)

-- For an administrator: the live generation of each machine. A query that fails ends the listing.
unfoldable pub with_reservations : (ℕ → Option Db) → ℕ → List Listed → Result (List Listed)
with_reservations tables i [] = ok []
with_reservations tables i (l ∷ ls) = elim (tables i) [
  | none ↦ err io
  | some db ↦ do
    rest ← with_reservations tables (suc i) ls
    ok (record l { reservation = reserved_by (first (live_on l.machine.id) db.credentials) } ∷ rest)
]

abbrev pub is_offered : Machine → Bool
is_offered m = elim m.status [ available ↦ elim m.pin [ none ↦ false | some p ↦ true ] | _ ↦ false ]

-- For anyone else: whether it is on offer, and neither its address nor its pin nor its hold.
abbrev pub blanked : Listed → Listed
blanked l = record l {
  machine = record (l.machine) {
    status = if is_offered (l.machine) then available else occupied;
    ip = [];
    pin = none;
    hold = none;
  };
}

unfoldable pub list : Bool → (ℕ → ℕ) → (ℕ → Option Db) → Result (List Listed)
unfolding order_by scanned with_reservations
list admin clock tables = elim (tables 0) [
  | none ↦ err io
  | some db ↦
      (let out = scanned admin clock 0 (order_by (λ m. m.name) db.machines) in
        if admin then with_reservations tables 1 out else ok (map blanked out))
]
