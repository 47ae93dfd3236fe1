-- ===== src/Machine/Delivery.antt =====
-- internal/machine/network.go, `Flush`: the events of the outbox are sent in its order, and each is
-- removed once the server has acknowledged it.
pub mod Retention
pub mod Drain
pub mod Acceptance
use lab_gate.Prelude.{
  atoi, ℕ, ltb, Text, codes, List, [], ◌∷◌, Option, none, some, Bool, true, false, not, ◌&&◌, ◌||◌,
  ◌==◌, text_eq, nat_eq, if◌then◌else◌, all, length, is_digit, select, split, value, Error, other,
  Result, ok, err,
}
use lab_gate.Core.Identity.{credential_id}
use lab_gate.Core.Report.{Report, Endpoint, session_open, session_close, credential_expired}
use lab_gate.Machine.Runtime.{
  File, absent, unreadable, holds, take_lock, list_outbox, sync_outbox, post, remove, event_file,
  Entry, Answer, yes, no, lost, Disk, World, Step, ◌>>=◌, done, failed, ask, look, lift, change,
  must,
}
use lab_gate.Machine.Outbox.{numbered, is_event}

-- The endpoint of an event by its name.
abbrev pub event_endpoint : Text → Endpoint
event_endpoint s =
    if s == codes "session-open"
    then session_open
    else if s == codes "session-close"
    then session_close
    else credential_expired

-- {"credentialId": …, "stateVersion": …}
abbrev pub event_report : Text → ℕ → Report
event_report id ver = record {
  id = some id;
  version = some ver;
  locked = none;
  active = none;
  state = none;
}

abbrev versioned : Text → Text → Option ℕ → Result (Endpoint × Report)
versioned endpoint id none = err (other "invalid event version retained")
versioned endpoint id (some ver) =
    if is_event endpoint ver
    then ok (event_endpoint endpoint, event_report id ver)
    else err (other "invalid event version retained")

unfoldable pub event_of : List Text → Result (Endpoint × Report)
event_of (endpoint ∷ id ∷ ver ∷ []) =
    if credential_id id
    then versioned endpoint id (atoi ver)
    else err (other "invalid queued event retained")
event_of fields = err (other "invalid queued event retained")

-- What is sent for the content of an event's file.
unfoldable pub delivery : File Text → Result (Endpoint × Report)
unfolding event_of
delivery (holds v) = event_of (split 9 v)
delivery f = err (other "unreadable event")

abbrev pub has_name : Text → Entry → Bool
has_name name e = e.name == name

abbrev pub drop_entry : Text → Disk → Disk
drop_entry name d = record d { outbox = select (λ e. not (has_name name e)) d.outbox }

-- Send one event, and remove its file.
unfoldable pub send : Text → Endpoint × Report → Step (Unit {0})
send name (endpoint, report) = do
  _ ← must (post endpoint report) "webhook not acknowledged"
  _ ← change (remove (event_file name)) (drop_entry name)
  must sync_outbox "outbox"

unfoldable pub flush_numbered : Entry → Option ℕ → Step (Unit {0})
flush_numbered e none = done tt
flush_numbered e (some n) = lift (delivery e.content) >>= send e.name

unfoldable pub flush_entry : Entry → Step (Unit {0})
flush_entry e = lift (numbered e.name) >>= flush_numbered e

-- The files that were listed, one after the other, up to the first that fails.
unfoldable pub flush_all : List Entry → Step (Unit {0})
flush_all [] = done tt
flush_all (e ∷ es) = do _ ← flush_entry e; flush_all es

abbrev pub flush_listed : Step (Unit {0})
flush_listed = do _ ← must list_outbox "outbox"; es ← look (λ d. d.outbox); flush_all es

-- Another flush that holds the lock does the work.
abbrev pub flush_locked : Answer → Step (Unit {0})
flush_locked yes = flush_listed
flush_locked a = done tt

unfoldable pub flush : Step (Unit {0})
flush = ask take_lock >>= flush_locked
