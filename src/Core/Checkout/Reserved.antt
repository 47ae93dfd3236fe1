-- ===== src/Core/Checkout/Reserved.antt =====
-- internal/core/checkout.go, the first transaction of `Checkout`: the machine and the new row.
use lab_gate.Prelude.{
  ℕ, ltb, Text, List, [], ◌∷◌, none, some, true, false, not, ◌==◌, ◌≡◌, ◌≢◌, refl, text_eq, nat_eq,
  All, count, count-first, first, first-eq-some, ok, Ensures, Ensures-ok, Ensures-err, Ensures-if,
  Ensures-bind, arith, sym, ◌∙◌,
}
use lab_gate.Store.{
  available, occupied, Machine, Credential, Event, Db, has_id, machine, set_machines,
  insert_credential, audit,
}
use lab_gate.Store.Keys.{keyed-ids}
use lab_gate.Store.Rows.{machine-eq-ok}
use lab_gate.Core.Invariant.{IsSafe}
use lab_gate.Core.Revival.{IsOf}
use lab_gate.Core.Checkout.{is_null, Ticket, reservable, occupy, pending, reserve, has_reservation}
use lab_gate.Core.Checkout.Safety.{claimed-off, reservable-id}
use lab_gate.Store.Keys.{insert_credential-eq-ok, audit-eq-ok, keyed-credential_ids}
use lab_gate.Store.Rows.{first-update_found, absent_append}
use lab_gate.Prelude.{All-append, All-mono, ◌++◌, map, some-injective, subst}
use lab_gate.Store.{unique_keys, distinct}

-- The machine was free, and its row, which is returned, is now occupied; the generation is live.
pub record IsReserved (q : Ticket) (db : Db) (m : Machine) (db' : Db) : Type 0 where
  pub ident : m.id ≡ q.mid
  pub pinned : is_null m.pin ≡ false
  pub unheld : m.hold ≡ none
  pub taken : m.status ≡ occupied
  pub row : first (has_id q.mid) db'.machines ≡ some m
  pub off : All (λ r. r.id ≡ q.mid → r.status ≢ available) db'.machines
  pub recorded : db'.credentials ≡ db.credentials ++ pending q ∷ []
  pub of : IsOf q.id q.mid db'.credentials

reservable_facts :
    (mid : Text) (now : ℕ) (m : Machine)
    → reservable mid now m ≡ true
    → (is_null m.pin ≡ false) × (m.hold ≡ none) × (m.status ≡ available)
unfolding reservable
reservable_facts mid now m h = ground arith

claimed_row :
    (q : Ticket) (db : Db) (m a : Machine)
    → IsSafe db
    → first (reservable q.mid q.now) db.machines ≡ some a
    → machine q.mid (set_machines (reservable q.mid q.now) occupy db) ≡ ok m
    → (m ≡ occupy a)
      × (reservable q.mid q.now a ≡ true)
      × (first (has_id q.mid) (set_machines (reservable q.mid q.now) occupy db).machines ≡ some m)
claimed_row q db m a v e found =
    let p = reservable q.mid q.now in
    let hit = first-eq-some p db.machines e in
    let (h, i) = machine-eq-ok q.mid (set_machines p occupy db) found in
    let row : first (has_id q.mid) (set_machines p occupy db).machines ≡ some m =
      subst (λ z. first (has_id z) (set_machines p occupy db).machines ≡ some m) i h in
    let there : first (has_id q.mid) (set_machines p occupy db).machines ≡ some (occupy a) =
      first-update_found (λ x. x.id) q.mid p occupy (λ x. refl) db.machines a (keyed-ids db v.keyed)
        e (reservable-id q.mid q.now a hit) in
    (some-injective m (occupy a) (sym row ∙ there), hit, row)

recorded-IsOf :
    (q : Ticket) (cs : List Credential) (db' : Db)
    → db'.credentials ≡ cs ++ pending q ∷ []
    → unique_keys db' ≡ true
    → IsOf q.id q.mid db'.credentials
unfolding pending
recorded-IsOf q cs db' e k = rw e (
    All-append (λ c. c.id ≡ q.id → c.machine_id ≡ q.mid) cs (pending q ∷ [])
      (All-mono (λ c. c.id ≢ q.id) (λ c. c.id ≡ q.id → c.machine_id ≡ q.mid)
        (λ c away i. absurd (away i)) cs
        (absent_append (λ c. c.id) cs (pending q)
          (subst (λ z. distinct (map (λ c. c.id) z) ≡ true) e (keyed-credential_ids db' k))))
      (λ i. refl, tt))

IsReserved-facts :
    (q : Ticket) (audit_id : Text) (db : Db) (m a : Machine) (inserted audited : Db)
    → IsSafe db
    → count (reservable q.mid q.now) db.machines ≡ 1
    → first (reservable q.mid q.now) db.machines ≡ some a
    → machine q.mid (set_machines (reservable q.mid q.now) occupy db) ≡ ok m
    → insert_credential (pending q) (set_machines (reservable q.mid q.now) occupy db) ≡ ok inserted
    → audit audit_id q.mid q.email Event.checkout [] q.now inserted ≡ ok audited
    → IsReserved q db m audited
IsReserved-facts q audit_id db m a inserted audited v one e found h g =
    let claimed = set_machines (reservable q.mid q.now) occupy db in
    let (same_row, hit, row) = claimed_row q db m a v e found in
    let (pinned, unheld, _) = reservable_facts q.mid q.now a hit in
    let (im, ic, _) = insert_credential-eq-ok (pending q) claimed h in
    let (am, ac, k) = audit-eq-ok audit_id q.mid q.email Event.checkout [] q.now inserted g in
    record {
      ident = rw same_row (reservable-id q.mid q.now a hit);
      pinned = rw same_row pinned;
      unheld = rw same_row unheld;
      taken = rw same_row refl;
      row = rw (am ∙ im) row;
      off = rw (am ∙ im) (claimed-off q.mid q.now db v one);
      recorded = ac ∙ ic;
      of = recorded-IsOf q db.credentials audited (ac ∙ ic) k;
    }

-- A reservation that succeeds.
pub reserve-IsReserved :
    (q : Ticket) (audit_id : Text) (db : Db)
    → IsSafe db
    → Ensures (λ r. IsReserved q db r.0 r.1) (reserve q audit_id db)
unfolding reserve
reserve-IsReserved q audit_id db v =
    let Q : Machine × Db → Type 0 = λ r. IsReserved q db r.0 r.1 in
    let claimed = set_machines (reservable q.mid q.now) occupy db in
    Ensures-if Q (ltb 0 (count (has_reservation q.email) db.credentials)) _ _ (λ _. Ensures-err Q _)
      λ _.
        Ensures-if Q (not (count (reservable q.mid q.now) db.machines == 1)) _ _
          (λ _. Ensures-err Q _)
          λ won.
            let one : count (reservable q.mid q.now) db.machines ≡ 1 = ground arith in
            let (a, e) = count-first (reservable q.mid q.now) db.machines {n = 0} one in
            Ensures-bind Q (machine q.mid claimed) _ λ m found.
              Ensures-bind Q (insert_credential (pending q) claimed) _ λ inserted h.
                Ensures-bind Q (audit audit_id q.mid q.email Event.checkout [] q.now inserted) _
                  λ audited g.
                    Ensures-ok Q (m, audited)
                      (IsReserved-facts q audit_id db m a inserted audited v one e found h g)
