-- ===== src/Core/Enrollment/Hiding.antt =====
-- internal/core/core.go, `Visibility`: the row, the other rows and the log after a change.
use lab_gate.Prelude.{
  ℕ, Text, codes, List, [], ◌∷◌, ◌++◌, some, Bool, true, false, not, ==_iff, text_eq, ◌≡◌, ◌↔◌,
  refl, subst, ap, if◌then◌else◌, select, update, first, fail, unique, no_rows, io, other, Result,
  ok, err, Ensures, Ensures-ok, Ensures-if, Ensures-bind, arith,
}
use lab_gate.Store.{
  Machine, AuditRow, Db, has_id, machine, set_machines, audit, nullable, settle, tx, machine_hide,
  machine_restore,
}
use lab_gate.Store.Keys.{constrained-eq-ok}
use lab_gate.Store.Rows.{machine-eq-ok, first-update}
use lab_gate.Core.Enrollment.{found_machine, hide, is_as, set_hidden, visibility}

-- The entry of the log.
abbrev entry : Text → Bool → Text → Text → ℕ → AuditRow
entry id h email audit_id now = record {
  id = audit_id;
  machine_id = nullable id;
  email = nullable email;
  event = if h then machine_hide else machine_restore;
  detail = codes "Visibility changed; lifecycle state preserved.";
  created = now;
}

-- The machine's row has the column as asked, and is else as it was; so are the rows of the other
-- machines, and the generations. The log has one entry more if the column had another value.
pub record IsHiddenAs (id : Text) (h : Bool) (email audit_id : Text) (now : ℕ) (changed : Bool)
    (db db' : Db) : Type 0 where
  row : Machine
  found : machine id db ≡ ok row
  change : (changed ≡ false) ↔ (row.hidden ≡ h)
  read : machine id db' ≡ ok (record row { hidden = h })
  others :
      select (λ m. not (has_id id m)) db'.machines ≡ select (λ m. not (has_id id m)) db.machines
  generations : db'.credentials ≡ db.credentials
  logged :
      db'.audit ≡ (if changed then db.audit ++ entry id h email audit_id now ∷ [] else db.audit)

-- What is left where the call returns, and where it fails.
unfoldable pub Leaves : Text → Bool → Text → Text → ℕ → Db → Result Bool × Db → Type 0
Leaves id h email audit_id now db (ok changed, db') =
    IsHiddenAs id h email audit_id now changed db db'
Leaves id h email audit_id now db (err e, db') = db' ≡ db

as_iff : (a b : Bool) → is_as a b ≡ true → a ≡ b
as_iff true true h = refl
as_iff true false h = cc
as_iff false true h = cc
as_iff false false h = refl

as_self : (a : Bool) → is_as a a ≡ true
as_self true = refl
as_self false = refl

select_others :
    (id : Text) (f : Machine → Machine)
    → ((m : Machine) → (f m).id ≡ m.id)
    → (ms : List Machine)
    → select (λ m. not (has_id id m)) (update (has_id id) f ms) ≡ select (λ m. not (has_id id m)) ms
select_others id f same [] = refl
select_others id f same (m ∷ ms) = ground (arith, same m, select_others id f same ms)

found-ok : (r : Result Machine) (m : Machine) → found_machine r ≡ ok m → r ≡ ok m
found-ok (ok x) m h = h
found-ok (err no_rows) m h = cc
found-ok (err io) m h = cc
found-ok (err unique) m h = cc
found-ok (err (fail n t)) m h = cc
found-ok (err (other t)) m h = cc

logged_entry :
    (id : Text) (h : Bool) (email audit_id : Text) (now : ℕ) (db : Db) {db' : Db}
    → audit audit_id id email
        (if h then machine_hide else machine_restore)
        (codes "Visibility changed; lifecycle state preserved.")
        now
        db
      ≡ ok db'
    → db' ≡ record db { audit = db.audit ++ entry id h email audit_id now ∷ [] }
unfolding audit
logged_entry id h email audit_id now db e = (constrained-eq-ok _ e).0

row_hidden :
    (id : Text) (h : Bool) (db : Db) (m : Machine)
    → machine id db ≡ ok m
    → machine id (set_machines (has_id id) (hide h) db) ≡ ok (record m { hidden = h })
unfolding machine
row_hidden id h db m e =
    let (found, same) = machine-eq-ok id db e in
    let there : first (has_id id) db.machines ≡ some m =
      subst (λ (k : Text). first (has_id k) db.machines ≡ some m) same found in
    rw
      (
        first-update (λ x. x.id) id (has_id id) (hide h) (λ x. refl) db.machines m there,
        (==_iff m.id id).1 same,
      )
      refl

abbrev Set : Text → Bool → Text → Text → ℕ → Db → Bool × Db → Type 0
Set id h email audit_id now db x = IsHiddenAs id h email audit_id now x.0 db x.1

set_hidden-IsHiddenAs :
    (id : Text) (h : Bool) (email audit_id : Text) (now : ℕ) (db : Db)
    → Ensures (Set id h email audit_id now db) (set_hidden id h email audit_id now db)
unfolding set_hidden
set_hidden-IsHiddenAs id h email audit_id now db =
    let Q : Bool × Db → Type 0 = Set id h email audit_id now db in
    Ensures-bind Q (found_machine (machine id db)) _ λ m e.
      let row : machine id db ≡ ok m = found-ok (machine id db) m e in
      Ensures-if Q (is_as m.hidden h) _ _
        (λ same.
          let eq : m.hidden ≡ h = as_iff m.hidden h same in
          Ensures-ok Q (false, db)
            (record {
              row = m;
              found = row;
              change = (λ q. eq, λ q. refl);
              read = subst (λ (b : Bool). machine id db ≡ ok (record m { hidden = b })) eq row;
              others = refl;
              generations = refl;
              logged = refl;
            }))
        λ differs. Ensures-bind Q _ _ λ audited k.
          let left : audited ≡ record (set_machines (has_id id) (hide h) db) {
            audit = db.audit ++ entry id h email audit_id now ∷ [];
          } =
            logged_entry id h email audit_id now (set_machines (has_id id) (hide h) db) k in
          Ensures-ok Q (true, audited)
            (record {
              row = m;
              found = row;
              change = (λ q. cc, λ q. cc (differs, as_self h, ap (λ b. is_as b h) q));
              read = rw left (unfold machine in row_hidden id h db m row);
              others = rw left (select_others id (hide h) (λ x. refl) db.machines);
              generations = rw left refl;
              logged = rw left refl;
            })

settled :
    (id : Text) (h : Bool) (email audit_id : Text) (now : ℕ) (db : Db) (r : Result (Bool × Db))
    → Ensures (Set id h email audit_id now db) r
    → Leaves id h email audit_id now db (settle r db)
unfolding Leaves
settled id h email audit_id now db (ok (changed, db')) k = k.at (changed, db') refl
settled id h email audit_id now db (err e) k = refl

-- A change of visibility that returns has set the column of the machine with this id, and nothing
-- else of it; it leaves the rows of all other machines and the generations as they were, returns
-- whether the column had another value, and only if it had, appends to the log the one entry that
-- says so. A change that fails leaves the tables as they were.
pub visibility-Leaves :
    (fault : Bool) (id : Text) (h : Bool) (email audit_id : Text) (now : ℕ) (db : Db)
    → Leaves id h email audit_id now db (visibility fault id h email audit_id now db)
unfolding visibility tx
visibility-Leaves true id h email audit_id now db = unfold Leaves in refl
visibility-Leaves false id h email audit_id now db =
    settled id h email audit_id now db (set_hidden id h email audit_id now db)
      (set_hidden-IsHiddenAs id h email audit_id now db)
