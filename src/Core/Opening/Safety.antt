-- ===== src/Core/Opening/Safety.antt =====
-- The safety of the tables through the reports of live sessions (internal/core/lifecycle.go).
use lab_gate.Prelude.{
  ℕ, ltb, Text, [], Bool, true, false, not, ◌≡◌, refl, text_eq, nat_eq, if◌then◌else◌, Ensures,
  Ensures-ok, Ensures-if, Ensures-then, Option-cases, inl, inr, arith,
}
use lab_gate.Store.{occupied, Machine, Credential, Event, Db, current}
use lab_gate.Core.Invariant.{
  IsSafe, KeepsCredential, CredentialIsSafe, set_credentials-IsSafe, audit-IsSafe,
}
use lab_gate.Core.Revival.{
  IsSafeBut, IsOf, revive-IsSafeBut, IsSafe-IsSafeBut, set_machines-IsSafeBut, audit-IsSafeBut,
}
use lab_gate.Core.Hold.{merge}
use lab_gate.Core.Report.{Endpoint, is_heartbeat}
use lab_gate.Core.Sighting.{Reply, seen, revoke_all, known, activated, already_active}
use lab_gate.Core.Opening.{
  merge_all, unsafe_report, open_at, confirm_pending, opening_hold, open_generation,
  confirm_generation, live_report, accepts, open_report,
}
use lab_gate.Core.Sighting.Safety.{seen-KeepsKeys, revoke_all-IsSafe, see_busy-IsSafe, known-IsOf}

unsafe_report-IsSafe :
    (m : Machine) (id : Text) (pending exists : Bool) (audit_id : Text) (now : ℕ) (db : Db)
    → IsSafe db
    → Ensures (λ r. IsSafe r.1) (unsafe_report m id pending exists audit_id now db)
unfolding unsafe_report
unsafe_report-IsSafe m id pending exists audit_id now db v =
    Ensures-then (λ (r : Reply × Db). IsSafe r.1)
      (audit-IsSafe audit_id m.id [] Event.session_open _ now _ (
        see_busy-IsSafe m now (merge (merge_all m.hold (current m.id db)) id) (revoke_all m now db)
          (revoke_all-IsSafe m now db v)))
      λ audited w. Ensures-ok _ _ w

open_at-CredentialIsSafe :
    (now : ℕ) (c : Credential) → CredentialIsSafe c → CredentialIsSafe (open_at now c)
open_at-CredentialIsSafe now c s = record {
  running = λ h. omega arith;
  ended = λ h. cc;
  reached = λ h. omega arith;
  active = λ h. ground arith;
}

open_generation-IsSafe :
    (m : Machine) (c : Credential) (audit_id : Text) (now : ℕ) (db : Db)
    → IsOf c.id m.id db.credentials
    → IsSafe db
    → Ensures (λ r. IsSafeBut m.id r.1) (open_generation m c audit_id now db)
unfolding open_generation
open_generation-IsSafe m c audit_id now db o v =
    let Q : Reply × Db → Type 0 = λ r. IsSafeBut m.id r.1 in
    Ensures-if Q (not (ltb c.version 2)) _ _
      (λ _. Ensures-ok Q (already_active, db) (IsSafe-IsSafeBut m.id db v))
      λ _.
        Ensures-then Q
          (revive-IsSafeBut c.id m.id (open_at now) db (λ c. refl) (open_at-CredentialIsSafe now) o
            v)
          λ opened (_, u).
            Ensures-then Q
              (audit-IsSafeBut m.id audit_id m.id c.email Event.session_open _ now opened u)
              λ audited w. Ensures-ok Q (activated, audited) w

confirm-Keeps : KeepsCredential (λ c. record c { version = 1 })
confirm-Keeps = record {
  id = λ c. refl;
  machine_id = λ c. refl;
  email = λ c. refl;
  shrinks = λ c h. h;
}

confirm-IsSafe :
    (id : Text) (c : Credential)
    → confirm_pending id c ≡ true
    → CredentialIsSafe c
    → CredentialIsSafe (record c { version = 1 })
confirm-IsSafe id c hit s = record {
  running = λ h. omega arith;
  ended = λ h. ground (arith, s.ended h);
  reached = λ h. ground (arith, s.reached h);
  active = λ h. absurd (omega arith);
}

accepted-IsSafe :
    (m : Machine) (c : Credential) (pending : Bool) (audit_id : Text) (now : ℕ) (db : Db)
    → IsOf c.id m.id db.credentials
    → IsSafe db
    → Ensures
        (λ r. IsSafeBut m.id r.1)
        (if pending then confirm_generation c db else open_generation m c audit_id now db)
accepted-IsSafe m c true audit_id now db o v = Ensures-ok _ _ (
    IsSafe-IsSafeBut m.id _ (
      set_credentials-IsSafe (confirm_pending c.id) (λ c. record c { version = 1 }) db confirm-Keeps
        (confirm-IsSafe c.id) v))
accepted-IsSafe m c false audit_id now db o v = open_generation-IsSafe m c audit_id now db o v

live_report-IsSafe :
    (m : Machine) (c : Credential) (beat pending : Bool) (audit_id : Text) (now : ℕ) (db : Db)
    → IsOf c.id m.id db.credentials
    → IsSafe db
    → Ensures (λ r. IsSafe r.1) (live_report m c beat pending audit_id now db)
unfolding live_report
live_report-IsSafe m c beat pending audit_id now db o v =
    Ensures-then (λ (r : Reply × Db). IsSafe r.1) (accepted-IsSafe m c pending audit_id now db o v)
      λ r u.
        let hold = opening_hold beat r.0 m.hold c.id in
        Ensures-ok _ _ (
          set_machines-IsSafeBut m.id (seen now occupied hold) r.1
            (seen-KeepsKeys now occupied hold) (λ x e. cc) u)

pub open_report-IsSafe :
    (m : Machine) (e : Endpoint) (pending : Bool) (id audit_id : Text) (now : ℕ) (db : Db)
    → IsSafe db
    → Ensures (λ r. IsSafe r.1) (open_report m e pending id audit_id now db)
unfolding open_report
open_report-IsSafe m e pending id audit_id now db v = elim (Option-cases (known m id db)) [
  | inl missing ↦
      rw (missing, open_report) (unsafe_report-IsSafe m id pending false audit_id now db v)
  | inr (c, here) ↦
      rw (here, open_report)
        (Ensures-if _ (accepts pending c) _ _
          (λ _.
            live_report-IsSafe m c (is_heartbeat e) pending audit_id now db
              (known-IsOf m id db c here v).1 v)
          (λ _. unsafe_report-IsSafe m id pending true audit_id now db v))
]
