-- ===== src/Core/Closing.antt =====
-- internal/core/lifecycle.go, parts of `Webhook`: a report that a generation has ended.
pub mod Safety
use lab_gate.Prelude.{
  ℕ, ltb, Text, codes, List, [], Option, none, some, Bool, true, false, not, ◌&&◌, ◌||◌, ◌==◌,
  text_eq, nat_eq, option_eq, if◌then◌else◌, length, Result, ok, ◌>>=◌,
}
use lab_gate.Store.{
  Status, occupied, Machine, Credential, Event, Db, is_credential, current, set_credentials, audit,
}
use lab_gate.Core.Hold.{same}
use lab_gate.Core.Checkout.{is_null, revoke_at}
use lab_gate.Core.Report.{Report, Endpoint, session_close, credential_expired, is_heartbeat}
use lab_gate.Core.Sighting.{
  Reply, closed, already_closed, not_found, see, free_status, known, matches_state,
}

-- A close, a password deadline or a heartbeat in state `revoked` revokes the generation.
abbrev pub close_generation : Option Credential → Text → ℕ → Db → Db
close_generation none id now db = db
close_generation (some c) id now db =
    if ltb c.version 3 then set_credentials (is_credential id) (revoke_at now) db else db

abbrev pub is_changed : Option Credential → Bool
is_changed none = false
is_changed (some c) = ltb c.version 3

abbrev is_known : Option Credential → Bool
is_known none = false
is_known (some c) = true

abbrev terminal_event : Endpoint → Report → Event
terminal_event session_close r = Event.session_close
terminal_event credential_expired r = Event.force_revoke
terminal_event e r =
    if matches_state r (codes "revoked") then Event.force_revoke else Event.session_close

abbrev email_of : Option Credential → Text
email_of none = []
email_of (some c) = c.email

-- The second entry of a password deadline that no session preceded.
audit_timeout : Machine → Endpoint → Option Credential → Text → ℕ → Db → Result Db
audit_timeout m credential_expired (some c) audit_id now db =
    if ltb c.version 3 && is_null c.opened
    then audit audit_id m.id c.email Event.password_timeout
        (codes "Password timed out before physical login.") now db
    else ok db
audit_timeout m e c audit_id now db = ok db

audit_terminal : Machine → Endpoint → Report → Option Credential → Text → Text → ℕ → Db → Result Db
unfolding audit_timeout
audit_terminal m e r c audit_id audit_id' now db =
    if is_known c && not (is_changed c) then ok db else do
      entry ←
          audit audit_id m.id (email_of c) (terminal_event e r)
            (codes "Terminal generation report acknowledged.") now db
      audit_timeout m e c audit_id' now entry

-- The hold that is left, and the status that follows from it and from the live generations.
pub terminal_hold : Bool → List Text → Option Text → Text → Option Text
terminal_hold beat ids hold id =
    if same hold (some id) || beat && length ids == 0 then none else hold

pub terminal_status : Bool → Bool → List Text → Option Text → Machine → Status
terminal_status changed acts ids hold m =
    if changed || acts
    then if length ids == 0 && is_null hold then free_status m.pin else occupied
    else m.status

pub terminal_reply : Bool → Bool → Bool → Reply
terminal_reply closes exists idle =
    if closes || idle then closed else if exists then already_closed else not_found

-- A report that the generation `id` has ended.
pub terminal_report :
    Machine → Endpoint → Report → Text → Text → Text → ℕ → Db → Result (Reply × Db)
unfolding audit_terminal terminal_hold terminal_status terminal_reply
terminal_report m e r id audit_id audit_id' now db =
    let c = known m id db in
    let closing = close_generation c id now db in
    let ids = current m.id closing in
    let exact = same m.hold (some id) in
    let hold = terminal_hold (is_heartbeat e) ids m.hold id in
    let status = terminal_status (is_changed c) (exact || is_heartbeat e) ids hold m in
    do
      audited ← audit_terminal m e r c audit_id audit_id' now (see m now status hold closing)
      ok (
        terminal_reply (is_changed c || exact) (is_known c) (is_heartbeat e && length ids == 0),
        audited,
      )
