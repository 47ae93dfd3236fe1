-- ===== src/Server/Tables/Transactions.antt =====
-- The transactions and the statements on the tables of internal/server/auth.go.
use lab_gate.Prelude.{
  Text, List, [], ◌∷◌, ◌++◌, Bool, true, false, unique, Result, ok, err, Ensures, Ensures-ok,
  Ensures-err, Ensures-bind, ◌≡◌, refl, ℕ,
}
use lab_gate.Store.{Event, tx, settle, audit}
use lab_gate.Server.Tables.{
  Site, Login, Pairing, Person, insert_login, insert_pairing, insert_person, log_event, stored,
}

-- What holds before a transaction and after its statements holds of what it leaves.
pub tx-keeps {ℓ κ} :
    {S : Type 0} {A : Type ℓ} (P : S → Type κ) (fault : Bool) (f : S → Result (A × S)) (s : S)
    → P s
    → Ensures (λ x. P x.1) (f s)
    → P (tx fault f s).1
unfolding tx
tx-keeps P true f s h e = h
tx-keeps {S} {A} P false f s h e = go (f s) e
  where
    go : (r : Result (A × S)) → Ensures (λ x. P x.1) r → P (settle r s).1
    go (ok x) e = e.at x refl
    go (err z) e = h

-- A transaction that returns a value has run its statements.
pub tx-ok {ℓ} :
    {S : Type 0} {A : Type ℓ} (fault : Bool) (f : S → Result (A × S)) (s s' : S) (a : A)
    → tx fault f s ≡ (ok a, s')
    → f s ≡ ok (a, s')
unfolding tx
tx-ok true f s s' a h = cc
tx-ok {S} {A} false f s s' a h = go (f s) h
  where
    go : (r : Result (A × S)) → settle r s ≡ (ok a, s') → r ≡ ok (a, s')
    go (ok x) e = cc
    go (err z) e = cc

module _ {κ} (P : List Login → List Pairing → Type κ) where
  -- The sessions and the pairings that a step leaves.
  abbrev pub Leaves : Result Site → Type κ
  Leaves = Ensures (λ s. P s.logins s.pairings)

  stored-Leaves : (keyed : Bool) (s : Site) → P s.logins s.pairings → Leaves (stored keyed s)
  stored-Leaves true s h = Ensures-ok (λ x. P x.logins x.pairings) s h
  stored-Leaves false s h = Ensures-err (λ x. P x.logins x.pairings) unique

  pub insert_login-Leaves :
      (l : Login) (s : Site) → P (s.logins ++ l ∷ []) s.pairings → Leaves (insert_login l s)
  unfolding insert_login
  insert_login-Leaves l s h = stored-Leaves _ (record s { logins = s.logins ++ l ∷ [] }) h

  pub insert_pairing-Leaves :
      (p : Pairing) (s : Site) → P s.logins (s.pairings ++ p ∷ []) → Leaves (insert_pairing p s)
  unfolding insert_pairing
  insert_pairing-Leaves p s h = stored-Leaves _ (record s { pairings = s.pairings ++ p ∷ [] }) h

  pub insert_person-Leaves :
      (p : Person) (s : Site) → P s.logins s.pairings → Leaves (insert_person p s)
  unfolding insert_person
  insert_person-Leaves p s h = stored-Leaves _ (record s { people = s.people ++ p ∷ [] }) h

  pub log_event-Leaves :
      (id email : Text) (event : Event) (detail : Text) (now : ℕ) (s : Site)
      → P s.logins s.pairings
      → Leaves (log_event id email event detail now s)
  unfolding log_event
  log_event-Leaves id email event detail now s h =
      Ensures-bind (λ x. P x.logins x.pairings) (audit id [] email event detail now s.db)
        (λ db. ok (record s { db = db }))
        (λ db e. Ensures-ok (λ x. P x.logins x.pairings) (record s { db = db }) h)
