-- ===== src/Core/Listing/Privacy.antt =====
-- What the route /api/machines of internal/server/server.go shows of the listing.
use lab_gate.Prelude.{
  ℕ, suc, precedes, Text, List, [], ◌∷◌, Option, some, Bool, false, if◌then◌else◌, map, Result, ok,
  ◌>>=◌, ◌≡◌, refl, sym, ap, ◌∙◌, Bool-cases, inl, inr,
}
use lab_gate.Store.{Status, available, occupied, Machine, Db}
use lab_gate.Core.Listing.{
  Listed, place_by, order_by, is_online, scanned, is_offered, blanked, list,
}

-- A machine as the route shows it.
pub record Shown : Type 0 where
  pub id : Text
  pub name : Text
  pub status : Status
  pub online : Bool
  pub heartbeat : Option ℕ

abbrev pub shown : Listed → Shown
shown l = record {
  id = l.machine.id;
  name = l.machine.name;
  status = l.machine.status;
  online = l.online;
  heartbeat = l.machine.heartbeat;
}

unfoldable pub list_machines : (ℕ → ℕ) → (ℕ → Option Db) → Result (List Shown)
list_machines clock tables = do ls ← list false clock tables; ok (map shown ls)

-- The columns that are for anyone: of the pin, only whether there is one.
pub record Public : Type 0 where
  id : Text
  name : Text
  offered : Bool
  hidden : Bool
  heartbeat : Option ℕ

abbrev pub public : Machine → Public
public m = record {
  id = m.id;
  name = m.name;
  offered = is_offered m;
  hidden = m.hidden;
  heartbeat = m.heartbeat;
}

-- The listing, made of these columns alone.
scan_public : (ℕ → ℕ) → ℕ → List Public → List Shown
scan_public clock i [] = []
scan_public clock i (p ∷ ps) =
    let one : Shown = record {
      id = p.id;
      name = p.name;
      status = if p.offered then available else occupied;
      online = is_online (clock i) p.heartbeat;
      heartbeat = p.heartbeat;
    } in
    let rest = scan_public clock (suc i) ps in
    let others = scan_public clock i ps in if p.hidden then others else one ∷ rest

scanned-public :
    (clock : ℕ → ℕ) (i : ℕ) (ms : List Machine)
    → map shown (map blanked (scanned false clock i ms)) ≡ scan_public clock i (map public ms)
unfolding scanned scan_public
scanned-public clock i [] = refl
scanned-public clock i (m ∷ ms) = elim (Bool-cases m.hidden) [
  | inl hidden ↦ rw hidden (scanned-public clock i ms)
  | inr plain ↦ rw plain (let rest = scanned-public clock (suc i) ms in cc rest)
]

map-place_by :
    (m : Machine) (ms : List Machine)
    → map public (place_by (λ x. x.name) m ms) ≡ place_by (λ x. x.name) (public m) (map public ms)
unfolding place_by
map-place_by m [] = refl
map-place_by m (x ∷ ms) = elim (Bool-cases (precedes m.name x.name)) [
  | inl before ↦ rw before refl
  | inr behind ↦ rw behind (ap (λ r. public x ∷ r) (map-place_by m ms))
]

map-order_by :
    (ms : List Machine)
    → map public (order_by (λ x. x.name) ms) ≡ order_by (λ x. x.name) (map public ms)
unfolding order_by
map-order_by [] = refl
map-order_by (m ∷ ms) =
    map-place_by m (order_by (λ x. x.name) ms)
    ∙ ap (place_by (λ x. x.name) (public m)) (map-order_by ms)

list_machines-public :
    (clock : ℕ → ℕ) (tables : ℕ → Option Db) (db : Db)
    → tables 0 ≡ some db
    → list_machines clock tables
      ≡ ok (scan_public clock 0 (order_by (λ x. x.name) (map public db.machines)))
unfolding list_machines list
list_machines-public clock tables db e =
    rw (e, list, list_machines)
      (ap ok (
        scanned-public clock 0 (order_by (λ x. x.name) db.machines)
        ∙ ap (scan_public clock 0) (map-order_by db.machines)))

-- What anyone is shown of the machines depends on nothing but the clock and, of each machine in the
-- order of the table, its id, its name, whether it is hidden and whether it is on offer, and its
-- heartbeat: where the tables are read, and agree in these, the listing is the same under the same
-- clock, however the tables differ in addresses, pins, tokens, holds, generations and the log, as
-- long as no machine's offer differs.
pub shown_alike :
    (clock : ℕ → ℕ) (tables tables' : ℕ → Option Db) (db db' : Db)
    → tables 0 ≡ some db
    → tables' 0 ≡ some db'
    → map public db.machines ≡ map public db'.machines
    → list_machines clock tables ≡ list_machines clock tables'
shown_alike clock tables tables' db db' e e' same =
    list_machines-public clock tables db e
    ∙ ap (λ ps. ok (scan_public clock 0 (order_by (λ x. x.name) ps))) same
    ∙ sym (list_machines-public clock tables' db' e')
