-- ===== src/Machine/Heartbeat/Validity.antt =====
-- The heartbeat of an endpoint (internal/machine/network.go) under `Report.Valid` of the server.
use lab_gate.Prelude.{Option, none, some, Bool, true, ◌≡◌, refl, text_eq, nat_eq}
use lab_gate.Core.Identity.{credential_id}
use lab_gate.Core.Report.{heartbeat, valid}
use lab_gate.Machine.State.{Phase, pending, active, revoked, State}
use lab_gate.Machine.Heartbeat.{report_of, fits}

-- A well-formed generation, when there is a record.
abbrev pub NamesGeneration : Option State → Type 0
NamesGeneration none = Unit {0}
NamesGeneration (some s) = credential_id s.id ≡ true

in_phase :
    (p : Phase) (s : State) (locked in_session : Bool)
    → s.phase ≡ p
    → credential_id s.id ≡ true
    → valid heartbeat (report_of (some s) locked in_session) ≡ fits (some s) locked in_session
unfolding valid text_eq nat_eq
in_phase pending s locked in_session e g = rw (g, e) refl
in_phase active s locked in_session e g = rw (g, e) refl
in_phase revoked s locked in_session e g = rw (g, e) refl

-- The server takes a heartbeat for valid exactly when the lock and the sessions that the endpoint
-- found are those of its record: none and unlocked while it is pending, open and unlocked while it
-- is active, none and locked once it is revoked, and no session without a record.
pub valid-report_of :
    (s : Option State) (locked in_session : Bool)
    → NamesGeneration s
    → valid heartbeat (report_of s locked in_session) ≡ fits s locked in_session
unfolding valid text_eq nat_eq
valid-report_of none locked in_session g = refl
valid-report_of (some s) locked in_session g = in_phase s.phase s locked in_session refl g
