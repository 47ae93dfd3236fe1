-- ===== src/Core/Closing/Safety.antt =====
-- The safety of the tables through the reports that a generation has ended (internal/core/lifecycle.go).
use lab_gate.Prelude.{
  ℕ, ltb, Text, Option, none, some, Bool, true, not, ◌&&◌, ◌||◌, ◌==◌, ◌≡◌, refl, text_eq, nat_eq,
  length, first, Ensures, Ensures-ok, Ensures-if, Ensures-then, Bool-cases, inl, inr, arith,
}
use lab_gate.Store.{Machine, Credential, Event, Db, live, has_id, is_credential, current}
use lab_gate.Store.Rows.{current-IsIdle}
use lab_gate.Core.Invariant.{
  IsOfferable, IsSafe, MachineIsSafe, set_row-IsSafe, set_credentials-IsSafe, audit-IsSafe,
  revoke_at-Keeps, revoke_at-IsSafe,
}
use lab_gate.Core.Hold.{same}
use lab_gate.Core.Checkout.{is_null, revoke_at}
use lab_gate.Core.Report.{Report, Endpoint, is_heartbeat}
use lab_gate.Core.Sighting.{Reply, seen, see, known}
use lab_gate.Core.Closing.{
  close_generation, is_changed, is_known, audit_timeout, audit_terminal, terminal_hold,
  terminal_status, terminal_report,
}
use lab_gate.Core.Sighting.Safety.{seen-KeepsKeys}
use lab_gate.Prelude.{All-first}

close_generation-IsSafe :
    (c : Option Credential) (id : Text) (now : ℕ) (db : Db)
    → IsSafe db
    → IsSafe (close_generation c id now db)
close_generation-IsSafe none id now db v = v
close_generation-IsSafe (some c) id now db v = elim (Bool-cases (ltb c.version 3)) [
  | inl live ↦ rw live (
      set_credentials-IsSafe (is_credential id) (revoke_at now) db (revoke_at-Keeps now)
        (λ c _ h. revoke_at-IsSafe now c) v)
  | inr ended ↦ rw ended v
]

close_generation-machines :
    (c : Option Credential) (id : Text) (now : ℕ) (db : Db)
    → (close_generation c id now db).machines ≡ db.machines
close_generation-machines none id now db = refl
close_generation-machines (some c) id now db = ground arith

audit_timeout-IsSafe :
    (m : Machine) (e : Endpoint) (c : Option Credential) (audit_id : Text) (now : ℕ) (db : Db)
    → IsSafe db
    → Ensures IsSafe (audit_timeout m e c audit_id now db)
unfolding audit_timeout
audit_timeout-IsSafe m Endpoint.credential_expired (some c) audit_id now db v =
    Ensures-if IsSafe (ltb c.version 3 && is_null c.opened) _ _
      (λ _. audit-IsSafe audit_id m.id c.email Event.password_timeout _ now db v)
      (λ _. Ensures-ok IsSafe db v)
audit_timeout-IsSafe m Endpoint.credential_expired none audit_id now db v = Ensures-ok IsSafe db v
audit_timeout-IsSafe m Endpoint.heartbeat c audit_id now db v = Ensures-ok IsSafe db v
audit_timeout-IsSafe m Endpoint.session_open c audit_id now db v = Ensures-ok IsSafe db v
audit_timeout-IsSafe m Endpoint.session_close c audit_id now db v = Ensures-ok IsSafe db v

audit_terminal-IsSafe :
    (m : Machine) (e : Endpoint) (r : Report) (c : Option Credential) (audit_id audit_id' : Text)
    (now : ℕ) (db : Db)
    → IsSafe db
    → Ensures IsSafe (audit_terminal m e r c audit_id audit_id' now db)
unfolding audit_terminal
audit_terminal-IsSafe m e r c audit_id audit_id' now db v =
    Ensures-if IsSafe (is_known c && not (is_changed c)) _ _ (λ _. Ensures-ok IsSafe db v)
      λ _.
        Ensures-then IsSafe (audit-IsSafe audit_id m.id _ _ _ now db v)
          λ entry w. audit_timeout-IsSafe m e c audit_id' now entry w

-- The status that is written offers the machine only if it is pinned, held for nobody and idle.
terminal-MachineIsSafe :
    (m : Machine) (changed beat : Bool) (id : Text) (now : ℕ) (db : Db)
    → MachineIsSafe db.credentials m
    → let ids = current m.id db in
      let hold = terminal_hold beat ids m.hold id in
      MachineIsSafe db.credentials
        (seen now (terminal_status changed (same m.hold (some id) || beat) ids hold m) hold m)
unfolding terminal_hold terminal_status
terminal-MachineIsSafe m changed beat id now db safe a =
    elim (Bool-cases (changed || (same m.hold (some id) || beat))) [
      | inl acts ↦
          let idle : (length (current m.id db) == 0) ≡ true = ground arith in
          record {
            unheld = ground arith;
            pinned = ground arith;
            idle = current-IsIdle m.id db idle;
          }
      | inr none_acts ↦
          let offered : IsOfferable db.credentials m = safe (ground arith) in
          record {
            unheld = ground (arith, offered.unheld);
            pinned = offered.pinned;
            idle = offered.idle;
          }
    ]

pub terminal_report-IsSafe :
    (m : Machine) (e : Endpoint) (r : Report) (id audit_id audit_id' : Text) (now : ℕ) (db : Db)
    → first (has_id m.id) db.machines ≡ some m
    → IsSafe db
    → Ensures (λ x. IsSafe x.1) (terminal_report m e r id audit_id audit_id' now db)
unfolding terminal_report
terminal_report-IsSafe m e r id audit_id audit_id' now db here v =
    let c = known m id db in
    let closing = close_generation c id now db in
    let safe : IsSafe closing = close_generation-IsSafe c id now db v in
    let found : first (has_id m.id) closing.machines ≡ some m =
      rw (close_generation-machines c id now db) here in
    let row : MachineIsSafe closing.credentials m =
      All-first (MachineIsSafe closing.credentials) (has_id m.id) closing.machines m safe.rows
        found in
    let ids = current m.id closing in
    let hold = terminal_hold (is_heartbeat e) ids m.hold id in
    let status =
      terminal_status (is_changed c) (same m.hold (some id) || is_heartbeat e) ids hold m in
    Ensures-then (λ (x : Reply × Db). IsSafe x.1)
      (audit_terminal-IsSafe m e r c audit_id audit_id' now (see m now status hold closing) (
        set_row-IsSafe m (seen now status hold) closing (seen-KeepsKeys now status hold) found
          (terminal-MachineIsSafe m (is_changed c) (is_heartbeat e) id now closing row) safe))
      λ audited w. Ensures-ok _ _ w
