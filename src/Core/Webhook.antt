-- ===== src/Core/Webhook.antt =====
-- internal/core/lifecycle.go, `Webhook`: one transaction for each report.
pub mod Safety
use lab_gate.Prelude.{
  ℕ, ltb, leb, Text, codes, List, [], ◌∷◌, Option, none, some, Bool, true, false, not, ◌&&◌, ◌||◌,
  ◌==◌, text_eq, nat_eq, option_eq, if◌then◌else◌, length, first, fail, Result, ok, err, ◌>>=◌,
}
use lab_gate.Store.{
  Status, available, occupied, offline, Machine, Credential, Event, Db, live_on, is_credential,
  has_id, current, set_machines, set_credentials, constrained, audit, tx,
}
use lab_gate.Core.Hold.{merge, reconcile, conflict_hold, same}
use lab_gate.Core.Checkout.{is_null, revoke_at}
use lab_gate.Core.Sighting.{Reply, observed, is_opening, is_pending_report, idle_report}
use lab_gate.Core.Report.{
  Report, Endpoint, heartbeat, session_open, session_close, credential_expired, is_heartbeat, valid,
}
use lab_gate.Core.Sighting.{
  Reply, observed, activated, already_active, closed, already_closed, not_found, stale,
  unsafe_pending, seen, see, free_status, revoke_all, known, matches_state, idle_report,
}
use lab_gate.Core.Opening.{open_report}
use lab_gate.Core.Closing.{terminal_report}

pub generation_report :
    Machine → Endpoint → Report → Text → Text → Text → ℕ → Db → Result (Reply × Db)
generation_report m e r id audit_id audit_id' now db =
    if is_opening e r || is_pending_report e r
    then open_report m e (is_pending_report e r) id audit_id now db
    else terminal_report m e r id audit_id audit_id' now db

abbrev locked_of : Option Bool → Bool
locked_of none = false
locked_of (some b) = b

pub machine_report : Machine → Endpoint → Report → Text → Text → ℕ → Db → Result (Reply × Db)
machine_report m e r audit_id audit_id' now db = elim r.id [
  | none ↦ ok (observed, idle_report m (locked_of r.locked) now db)
  | some id ↦ generation_report m e r id audit_id audit_id' now db
]

abbrev pub has_token : Text → Machine → Bool
has_token token m = m.token == token

-- The transaction, for the machine that owns the token.
pub receive : Text → Endpoint → Report → Text → Text → ℕ → Db → Result (Reply × Db)
receive token e r audit_id audit_id' now db = elim (first (has_token token) db.machines) [
  | none ↦ err (fail 401 "Unauthorized")
  | some m ↦ machine_report m e r audit_id audit_id' now db
]

pub webhook : Bool → Text → Endpoint → Report → Text → Text → ℕ → Db → Result Reply × Db
webhook fault token e r audit_id audit_id' now db =
    if not (valid e r)
    then (err (fail 400 "Invalid machine report or endpoint version"), db)
    else tx fault (receive token e r audit_id audit_id' now) db
