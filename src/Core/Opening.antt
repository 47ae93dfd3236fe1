-- ===== src/Core/Opening.antt =====
-- internal/core/lifecycle.go, parts of `Webhook`: a report that a session opened or that a generation
-- is pending, and `unsafe`, for one that the recorded generations contradict.
pub mod Safety
use lab_gate.Prelude.{
  ℕ, ltb, leb, Text, codes, List, [], ◌∷◌, Option, none, some, Bool, true, false, not, ◌&&◌,
  text_eq, nat_eq, option_eq, if◌then◌else◌, Result, ok, ◌>>=◌,
}
use lab_gate.Store.{
  occupied, Machine, Credential, Event, Db, is_credential, current, set_credentials, constrained,
  audit,
}
use lab_gate.Core.Hold.{merge, reconcile}
use lab_gate.Core.Checkout.{is_null}
use lab_gate.Core.Report.{Endpoint, is_heartbeat}
use lab_gate.Core.Sighting.{
  Reply, observed, activated, already_active, not_found, stale, unsafe_pending, see, revoke_all,
  known,
}

-- The hold joined with every live generation.
pub merge_all : Option Text → List Text → Option Text
merge_all hold [] = hold
merge_all hold (v ∷ vs) = merge_all (merge hold v) vs

abbrev unsafe_reply : Bool → Bool → Reply
unsafe_reply true exists = unsafe_pending
unsafe_reply false true = stale
unsafe_reply false false = not_found

-- A report that the recorded generations contradict.
pub unsafe_report : Machine → Text → Bool → Bool → Text → ℕ → Db → Result (Reply × Db)
unsafe_report m id pending exists audit_id now db =
    let hold = merge (merge_all m.hold (current m.id db)) id in
    do
      audited ←
          audit audit_id m.id [] Event.session_open
            (codes "Unsafe physical generation held for reconciliation.") now
            (see m now occupied hold (revoke_all m now db))
      ok (unsafe_reply pending exists, audited)

abbrev pub coalesce : Option ℕ → ℕ → Option ℕ
coalesce none now = some now
coalesce (some t) now = some t

-- The state `active`, which keeps the time of the first report.
abbrev pub open_at : ℕ → Credential → Credential
open_at now c = record c { version = 2; opened = coalesce c.opened now; revoked = none }

abbrev pub confirm_pending : Text → Credential → Bool
confirm_pending id c = is_credential id c && ltb c.version 1

abbrev pub opening_hold : Bool → Reply → Option Text → Text → Option Text
opening_hold true reply hold id = reconcile hold id
opening_hold false activated hold id = merge hold id
opening_hold false reply hold id = hold

-- A session that opened: the generation becomes active, once.
pub open_generation : Machine → Credential → Text → ℕ → Db → Result (Reply × Db)
open_generation m c audit_id now db = if not (ltb c.version 2) then ok (already_active, db) else do
  opened ← constrained (set_credentials (is_credential c.id) (open_at now) db)
  audited ←
      audit audit_id m.id c.email Event.session_open (codes "Physical guest session confirmed.") now
        opened
  ok (activated, audited)

abbrev pub confirm_generation : Credential → Db → Result (Reply × Db)
confirm_generation c db =
    ok (observed, set_credentials (confirm_pending c.id) (λ c. record c { version = 1 }) db)

-- A valid report of a live generation.
pub live_report : Machine → Credential → Bool → Bool → Text → ℕ → Db → Result (Reply × Db)
live_report m c beat pending audit_id now db = do
  r ← if pending then confirm_generation c db else open_generation m c audit_id now db
  ok (r.0, see m now occupied (opening_hold beat r.0 m.hold c.id) r.1)

-- A live generation that the report does not contradict.
abbrev pub accepts : Bool → Credential → Bool
accepts pending c = is_null c.revoked && (if pending then ltb c.version 2 else leb c.version 2)

pub open_report : Machine → Endpoint → Bool → Text → Text → ℕ → Db → Result (Reply × Db)
open_report m e pending id audit_id now db = elim (known m id db) [
  | none ↦ unsafe_report m id pending false audit_id now db
  | some c ↦
      if accepts pending c
      then live_report m c (is_heartbeat e) pending audit_id now db
      else unsafe_report m id pending true audit_id now db
]
