-- ===== src/Machine/Heartbeat.antt =====
-- internal/machine/network.go, `Heartbeat`: what an endpoint reports of itself.
pub mod Validity
use lab_gate.Prelude.{
  Option, none, some, Bool, true, false, not, ◌&&◌, Result, ok, err, text_eq, nat_eq, if◌then◌else◌,
}
use lab_gate.Core.Report.{Report, heartbeat}
use lab_gate.Machine.State.{pending, active, revoked, version, phase_name, State}
use lab_gate.Machine.Runtime.{
  File, absent, unreadable, holds, take_lock, sessions, secure, is_locked, post, Answer, yes, no,
  lost, Step, ◌>>=◌, done, failed, outcome, ask, look, must, clear_marker, recovery,
}

-- The report on a record, a lock and the sessions.
abbrev pub report_of : Option State → Bool → Bool → Report
report_of none shut in_session = record {
  id = none;
  version = none;
  locked = some shut;
  active = some in_session;
  state = none;
}
report_of (some s) shut in_session = record {
  id = some s.id;
  version = some (version s.phase);
  locked = some shut;
  active = some in_session;
  state = some (phase_name s.phase);
}

-- A required step without a record, whose failure is recorded.
abbrev pub or_recover : Result (Unit {0}) → Step (Unit {0})
or_recover (ok u) = done tt
or_recover (err e) = do _ ← recovery; failed "heartbeat"

abbrev pub secure_first : File State → Step (Option State)
secure_first (holds s) = done (some s)
secure_first absent = do
  _ ← outcome (must secure "secure") >>= or_recover
  _ ← outcome clear_marker >>= or_recover
  done none
secure_first unreadable = do
  _ ← outcome (must secure "secure") >>= or_recover
  _ ← outcome clear_marker >>= or_recover
  _ ← recovery
  failed "corrupt credential state"

abbrev pub is_active : Option State → Bool
is_active none = false
is_active (some s) = elim s.phase [ active ↦ true | _ ↦ false ]

-- With the sessions unknown, an active record is reported as active.
abbrev pub session_of : Option State → Answer → Step Bool
session_of s yes = done true
session_of s no = done false
session_of s lost = if is_active s then done true else failed "session inventory unknown"

abbrev pub lock_of : Answer → Step Bool
lock_of yes = done true
lock_of no = done false
lock_of lost = failed "unknown account lock state"

unfoldable pub beat : Step (Unit {0})
beat = do
  _ ← must take_lock "lock"
  f ← look (λ d. d.state)
  s ← secure_first f
  in_session ← ask sessions >>= session_of s
  locked ← ask is_locked >>= lock_of
  must (post heartbeat (report_of s locked in_session)) "webhook not acknowledged"

-- The lock and the sessions that go with a record.
abbrev pub fits : Option State → Bool → Bool → Bool
fits none locked in_session = not in_session
fits (some s) locked in_session = elim s.phase [
  | pending ↦ not in_session && not locked
  | active ↦ in_session && not locked
  | revoked ↦ not in_session && locked
]
