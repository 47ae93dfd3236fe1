-- ===== src/Core/Sighting.antt =====
-- internal/core/lifecycle.go, parts of `Webhook`: the replies, what a report writes to its machine's
-- row, and the heartbeat of a machine that has no generation.
pub mod Safety
use lab_gate.Prelude.{
  ℕ, Text, codes, Option, none, some, Bool, true, false, not, ◌&&◌, ◌==◌, text_eq, nat_eq,
  option_eq, if◌then◌else◌, length, first,
}
use lab_gate.Store.{
  Status, available, occupied, offline, Machine, Credential, Db, live_on, is_credential, has_id,
  current, set_machines, set_credentials,
}
use lab_gate.Core.Hold.{merge, conflict_hold}
use lab_gate.Core.Checkout.{revoke_at}
use lab_gate.Core.Report.{Report, Endpoint, heartbeat, session_open}

pub data Reply : Type 0 where
  observed activated already_active closed already_closed not_found stale unsafe_pending : Reply

-- UPDATE machines SET last_heartbeat=?,status=?,safety_hold_credential_id=? WHERE id=?
abbrev pub seen : ℕ → Status → Option Text → Machine → Machine
seen now status hold m = record m { heartbeat = some now; status = status; hold = hold }

abbrev pub see : Machine → ℕ → Status → Option Text → Db → Db
see m now status hold db = set_machines (has_id m.id) (seen now status hold) db

-- Free, if its pin is known: without one a machine stays offline.
abbrev pub free_status : Option Text → Status
free_status none = offline
free_status (some pin) = available

-- Every live generation of the machine is revoked.
abbrev pub revoke_all : Machine → ℕ → Db → Db
revoke_all m now db = set_credentials (live_on m.id) (revoke_at now) db

-- A heartbeat of a machine that has no generation.
pub idle_report : Machine → Bool → ℕ → Db → Db
idle_report m locked now db =
    if locked && length (current m.id db) == 0
    then see m now (free_status m.pin) none db
    else if not locked
    then see m now occupied (merge m.hold conflict_hold) (revoke_all m now db)
    else see m now occupied m.hold db

-- The generation `id`, if it is one of the machine.
pub known : Machine → Text → Db → Option Credential
known m id db = elim (first (is_credential id) db.credentials) [
  | none ↦ none
  | some c ↦ if c.machine_id == m.id then some c else none
]

abbrev pub matches_state : Report → Text → Bool
matches_state r s = r.state == some s

-- Which of the generation's states a report of this endpoint claims.
abbrev pub is_opening : Endpoint → Report → Bool
is_opening session_open r = true
is_opening heartbeat r = matches_state r (codes "active")
is_opening e r = false

abbrev pub is_pending_report : Endpoint → Report → Bool
is_pending_report heartbeat r = matches_state r (codes "pending")
is_pending_report e r = false
