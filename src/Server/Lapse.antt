-- ===== src/Server/Lapse.antt =====
-- internal/server/server.go, the route /api/checkout/expire: a user gives back a password that has
-- lapsed.
use lab_gate.Prelude.{
  ◌≡◌, ◌≤◌, refl, ap, some-injective, ==_iff, Bool-cases, inl, inr, first-eq-some, fail, unique,
  other, nat_eq, arith, ℕ, ltb, Text, lower, Option, none, some, Bool, true, false, ◌&&◌, ◌==◌,
  text_eq, if◌then◌else◌, first, no_rows, io, Error, Result, ok, err,
}
use lab_gate.Store.{Machine, Credential, Db, live, machine}

-- The answer, or the generation that `Expire` is called for.
pub data Lapse : Type 0 where
  already_released held : Lapse
  not_yet : ℕ → Lapse
  expires : Text → Lapse
  faulty : Error → Lapse

-- machine_id=? AND LOWER(student_email)=? AND revoked_at IS NULL
abbrev pub is_own : Text → Text → Credential → Bool
is_own mid email c = c.machine_id == mid && lower c.email == lower email && live c

abbrev pub is_held : Result Machine → Lapse
is_held (ok m) = elim m.hold [ none ↦ already_released | some id ↦ held ]
is_held (err no_rows) = already_released
is_held (err e) = faulty e

-- Either query may fail.
abbrev pub lapse_of : Bool → ℕ → Text → Db → Option Credential → Lapse
lapse_of unheld now mid db none = is_held (if unheld then err io else machine mid db)
lapse_of unheld now mid db (some c) = if ltb now c.expires then not_yet c.expires else expires c.id

unfoldable pub lapse : Bool → Bool → ℕ → Text → Text → Db → Lapse
lapse unread unheld now mid email db =
    if unread
    then faulty io
    else lapse_of unheld now mid db (first (is_own mid email) db.credentials)

-- A generation whose password may be expired for a user.
pub record IsOwnLapsed (now : ℕ) (mid email : Text) (db : Db) (id : Text) : Type 0 where
  row : Credential
  is_row : first (is_own mid email) db.credentials ≡ some row
  named : row.id ≡ id
  on_machine : row.machine_id ≡ mid
  of_user : lower row.email ≡ lower email
  is_live : live row ≡ true
  over : row.expires ≤ now

abbrev asked : Lapse → Option Text
asked (expires id) = some id
asked l = none

held-asked : (r : Result Machine) → asked (is_held r) ≡ none
held-asked (ok m) =
    elim m.hold as (λ h. asked (elim h [ none ↦ already_released | some id ↦ held ]) ≡ none) [
      | none ↦ refl
      | some id ↦ refl
    ]
held-asked (err no_rows) = refl
held-asked (err (fail code message)) = refl
held-asked (err unique) = refl
held-asked (err io) = refl
held-asked (err (other message)) = refl

-- A password is expired for a user only if it is the user's own on that machine, is not revoked, and
-- its time is over.
pub expires-IsOwnLapsed :
    (unread unheld : Bool) (now : ℕ) (mid email : Text) (db : Db) (id : Text)
    → lapse unread unheld now mid email db ≡ expires id
    → IsOwnLapsed now mid email db id
unfolding lapse
expires-IsOwnLapsed true unheld now mid email db id h =
    let none_asked : none ≡ some id = ap asked h in cc
expires-IsOwnLapsed false unheld now mid email db id h =
    go (first (is_own mid email) db.credentials) refl h
  where
    early : ◌≡◌ {A = Option Text} none (some id) → ⊥
    early x = cc

    go :
        (c : Option Credential)
        → first (is_own mid email) db.credentials ≡ c
        → lapse_of unheld now mid db c ≡ expires id
        → IsOwnLapsed now mid email db id
    go none e k =
        let none_asked : asked (lapse_of unheld now mid db none) ≡ some id = ap asked k in
        let nothing = held-asked (if unheld then err io else machine mid db) in
        cc (none_asked, nothing)
    go (some c) e k =
        let own = first-eq-some (is_own mid email) db.credentials {a = c} e in
        let same = ap asked k in
        elim (Bool-cases (ltb now c.expires)) [
          | inl later ↦ absurd (early (rw later at same))
          | inr over ↦ record {
            row = c;
            is_row = e;
            named = some-injective _ _ (rw over at same);
            on_machine = (==_iff _ _).0 (ground (arith, own));
            of_user = (==_iff _ _).0 (ground (arith, own));
            is_live = ground (arith, own);
            over = ground (arith, over);
          }
        ]
