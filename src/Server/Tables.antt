-- ===== src/Server/Tables.antt =====
-- The tables of internal/migration/migrate.go that internal/server/auth.go keeps beside the
-- machines' ones: sessions, pairings and users.
pub mod Transactions
use lab_gate.Prelude.{
  ℕ, Text, lower, List, [], ◌∷◌, ◌++◌, map, Option, none, some, Bool, true, false, not, ◌&&◌, ◌||◌,
  ◌==◌, text_eq, nat_eq, if◌then◌else◌, select, any, unique, Result, ok, err, ◌>>=◌,
}
use lab_gate.Store.{Db, Event, AuditRow, distinct, audit}

pub data Kind : Type 0 where
  web cli : Kind

abbrev pub is_web : Kind → Bool
is_web web = true
is_web cli = false

-- `User`
pub record User : Type 0 where
  pub email : Text
  pub name : Text
  pub kind : Kind

-- A row of `go_sessions`.
pub record Login : Type 0 where
  pub token_hash : Text
  pub user : User
  pub expires : ℕ

-- Who approved a pairing, and when: its columns email, name and approved_at, set together.
pub record Approval : Type 0 where
  pub email : Text
  pub name : Text
  pub at : ℕ

-- A row of `go_pairings`.
pub record Pairing : Type 0 where
  pub id : Text
  pub secret_hash : Text
  pub code : Text
  pub expires : ℕ
  pub approval : Option Approval

-- A row of `user`.
pub record Person : Type 0 where
  pub id : Text
  pub name : Text
  pub email : Text
  pub created : ℕ

pub record Site : Type 0 where
  pub db : Db
  pub logins : List Login
  pub pairings : List Pairing
  pub people : List Person

abbrev pub is_unapproved : Pairing → Bool
is_unapproved p = elim p.approval [ none ↦ true | some a ↦ false ]

-- DELETE … WHERE …
abbrev pub remove {ℓ} : {A : Type ℓ} → (A → Bool) → List A → List A
remove p = select (λ a. not (p a))

-- What an INSERT leaves, if the keys are still unique.
abbrev pub stored : Bool → Site → Result Site
stored keyed s = if keyed then ok s else err unique

-- INSERT under the primary key, and under the unique code of a pairing and email of a user
unfoldable pub insert_login : Login → Site → Result Site
insert_login l s =
    stored (distinct (map (λ x. x.token_hash) (s.logins ++ l ∷ [])))
      (record s { logins = s.logins ++ l ∷ [] })

unfoldable pub insert_pairing : Pairing → Site → Result Site
insert_pairing p s =
    stored
      (distinct (map (λ x. x.id) (s.pairings ++ p ∷ []))
        && distinct (map (λ x. x.code) (s.pairings ++ p ∷ [])))
      (record s { pairings = s.pairings ++ p ∷ [] })

unfoldable pub insert_person : Person → Site → Result Site
insert_person p s =
    stored
      (distinct (map (λ x. x.id) (s.people ++ p ∷ []))
        && distinct (map (λ x. x.email) (s.people ++ p ∷ [])))
      (record s { people = s.people ++ p ∷ [] })

-- `core.Audit` in a transaction on these tables.
unfoldable pub log_event : Text → Text → Event → Text → ℕ → Site → Result Site
log_event id email event detail now s = do
  db ← audit id [] email event detail now s.db
  ok (record s { db = db })
