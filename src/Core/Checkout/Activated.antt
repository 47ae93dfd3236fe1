-- ===== src/Core/Checkout/Activated.antt =====
-- internal/core/checkout.go, the second transaction of `Checkout`.
use lab_gate.Prelude.{
  ℕ, Text, [], none, some, true, not, ◌==◌, ◌≡◌, refl, text_eq, nat_eq, count, count-first, first,
  first-eq-some, ok, Ensures, Ensures-ok, Ensures-err, Ensures-if, Ensures-bind, arith, ◌∙◌,
}
use lab_gate.Store.{
  Status, Machine, Credential, Event, Db, live, has_id, is_credential, set_machines,
  set_credentials, audit,
}
use lab_gate.Store.Keys.{keyed-ids}
use lab_gate.Core.Invariant.{IsSafe}
use lab_gate.Core.Checkout.{Ticket, occupy, is_reserved, is_pending, activate}
use lab_gate.Store.Keys.{audit-eq-ok, keyed-credential_ids}
use lab_gate.Store.Rows.{first-update_found}

-- The machine is occupied and held for nobody; the generation is its live, pending one.
pub record IsHandedOut (q : Ticket) (db : Db) : Type 0 where
  pub machine : Machine
  pub machine_found : first (has_id q.mid) db.machines ≡ some machine
  pub occupied : machine.status ≡ Status.occupied
  pub unheld : machine.hold ≡ none
  pub generation : Credential
  pub generation_found : first (is_credential q.id) db.credentials ≡ some generation
  pub on_machine : generation.machine_id ≡ q.mid
  pub live : generation.revoked ≡ none
  pub pending : generation.version ≡ 1
  pub unopened : generation.opened ≡ none

reserved_row :
    (m a : Machine)
    → is_reserved m a ≡ true
    → (a.id ≡ m.id) × (a.status ≡ Status.occupied) × (a.hold ≡ none)
unfolding is_reserved
reserved_row m a h = ground arith

pending_row :
    (q : Ticket) (c : Credential)
    → is_pending q c ≡ true
    → (c.id ≡ q.id) × (c.machine_id ≡ q.mid) × (c.revoked ≡ none) × (c.opened ≡ none)
unfolding is_pending
pending_row q c h = ground arith

handed_out :
    (m a : Machine) (q : Ticket) (c : Credential) (audit_id : Text) (now : ℕ) (db audited : Db)
    → m.id ≡ q.mid
    → IsSafe db
    → first (is_reserved m) db.machines ≡ some a
    → first (is_pending q) db.credentials ≡ some c
    → audit audit_id q.mid q.email Event.provision_ok [] now (
        set_credentials
          (is_pending q)
          (λ c. record c { version = 1 })
          (set_machines (is_reserved m) occupy db))
      ≡ ok audited
    → IsHandedOut q audited
handed_out m a q c audit_id now db audited i v e e' g =
    let (j, taken, unheld) = reserved_row m a (first-eq-some (is_reserved m) db.machines e) in
    let (k, on, live, unopened) =
      pending_row q c (first-eq-some (is_pending q) db.credentials e') in
    let (am, ac, _) = audit-eq-ok audit_id q.mid q.email Event.provision_ok [] now _ g in
    record {
      machine = occupy a;
      machine_found = rw am (
          first-update_found (λ x. x.id) q.mid (is_reserved m) occupy (λ x. refl) db.machines a
            (keyed-ids db v.keyed) e (j ∙ i));
      occupied = refl;
      unheld = unheld;
      generation = record c { version = 1 };
      generation_found = rw ac (
          first-update_found (λ x. x.id) q.id (is_pending q) (λ c. record c { version = 1 })
            (λ x. refl) db.credentials c (keyed-credential_ids db v.keyed) e' k);
      on_machine = on;
      live = live;
      pending = refl;
      unopened = unopened;
    }

pub activate-IsHandedOut :
    (m : Machine) (q : Ticket) (audit_id : Text) (now : ℕ) (db : Db)
    → m.id ≡ q.mid
    → IsSafe db
    → Ensures (λ r. IsHandedOut q r.1) (activate m q audit_id now db)
unfolding activate
activate-IsHandedOut m q audit_id now db i v =
    let Q : Unit {0} × Db → Type 0 = λ r. IsHandedOut q r.1 in
    let held = set_machines (is_reserved m) occupy db in
    let confirmed = set_credentials (is_pending q) (λ c. record c { version = 1 }) held in
    Ensures-if Q (not (count (is_reserved m) db.machines == 1)) _ _ (λ _. Ensures-err Q _)
      λ one.
        Ensures-if Q (not (count (is_pending q) db.credentials == 1)) _ _ (λ _. Ensures-err Q _)
          λ one'.
            let (a, e) = count-first (is_reserved m) db.machines {n = 0} (ground arith) in
            let (c, e') = count-first (is_pending q) db.credentials {n = 0} (ground arith) in
            Ensures-bind Q (audit audit_id q.mid q.email Event.provision_ok [] now confirmed) _
              λ audited g.
                Ensures-ok Q (tt, audited) (handed_out m a q c audit_id now db audited i v e e' g)
