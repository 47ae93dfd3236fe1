-- ===== src/Machine/Runtime.antt =====
-- internal/machine/files.go: the files of an endpoint, and the steps that read and write them. A
-- step may fail at any call to the system, and what it wrote before stays written.
pub mod Burial
pub mod Writing
pub mod Yielding
use lab_gate.Prelude.{
  ℕ, zero, suc, ltb, Text, List, [], ◌∷◌, Option, none, some, Bool, true, false, not, ◌==◌, ◌!=◌,
  text_eq, if◌then◌else◌, String, Error, other, Result, ok, err,
}
use lab_gate.Core.Identity.{credential_id}
use lab_gate.Core.Report.{Endpoint, Report}
use lab_gate.Machine.State.{Phase, revoked, State}

-- A file that is absent, one that holds a record, or one that cannot be read or parsed.
pub data File {ℓ} (A : Type ℓ) : Type ℓ where
  absent unreadable : File A
  holds : A → File A

-- The files that are written, below /var/lib/labgate and /run/labgate.
pub data Location : Type 0 where
  state_file marker_file recovery_file sequence_file : Location
  tombstone_file event_file : Text → Location

-- The calls whose answer lies with the system. The account commands of system.go, which write no
-- record, stand as one call each.
pub data Call : Type 0 where
  clock take_lock sessions secure kill make_home is_locked reset_authentication : Call
  set_password lock_account unlock_account : Call
  write remove : Location → Call
  list_outbox sync_outbox : Call
  post : Endpoint → Report → Call

-- Of a question: yes, no, or no answer. Of a write: it took place; it did not; it took place and
-- an error followed, as where the directory is not synced.
pub data Answer : Type 0 where
  yes no lost : Answer

-- A file of the outbox, under its name.
pub record Entry : Type 0 where
  pub name : Text
  pub content : File Text

-- The outbox in the order of its names, in which it is listed.
pub record Disk : Type 0 where
  pub state : File State
  pub tombstones : Text → File ℕ
  pub marker : File Text
  pub needs_recovery : Bool
  pub decommissioned : Bool
  pub password_length : File ℕ
  pub sequence : File Text
  pub outbox : List Entry
  pub history : List Call

-- What the system answers to a call after the calls so far, and the time it tells, in seconds.
pub record World : Type 0 where
  pub answer : Call → List Call → Answer
  pub time : List Call → ℕ

pub record Step {ℓ} (A : Type ℓ) : Type ℓ where
  pub run : World → Disk → Result A × Disk

abbrev pub after {ℓ κ} :
    {A : Type ℓ} {B : Type κ} → (A → Step B) → World → Result A × Disk → Result B × Disk
after f w (ok a, d) = (f a).run w d
after f w (err e, d) = (err e, d)

infixl 5 ◌>>=◌
abbrev pub ◌>>=◌ {ℓ κ} : {A : Type ℓ} {B : Type κ} → Step A → (A → Step B) → Step B
m >>= f = record { run = λ w d. after f w (m.run w d) }

abbrev pub done {ℓ} : {A : Type ℓ} → A → Step A
done a = record { run = λ w d. (ok a, d) }

abbrev pub failed {ℓ} : {A : Type ℓ} → String → Step A
failed s = record { run = λ w d. (err (other s), d) }

-- A step whose error the source drops or asks about.
abbrev pub outcome {ℓ} : {A : Type ℓ} → Step A → Step (Result A)
outcome m = record { run = λ w d. (ok (m.run w d).0, (m.run w d).1) }

abbrev pub called : Call → Disk → Disk
called c d = record d { history = c ∷ d.history }

abbrev pub ask : Call → Step Answer
ask c = record { run = λ w d. (ok (w.answer c d.history), called c d) }

abbrev pub now : Step ℕ
now = record { run = λ w d. (ok (w.time d.history), called clock d) }

abbrev pub look {ℓ} : {A : Type ℓ} → (Disk → A) → Step A
look f = record { run = λ w d. (ok (f d), d) }

abbrev pub lift {ℓ} : {A : Type ℓ} → Result A → Step A
lift r = record { run = λ w d. (r, d) }

-- A call that must answer yes.
abbrev pub succeed : String → Answer → Step (Unit {0})
succeed s yes = done tt
succeed s no = failed s
succeed s lost = failed s

abbrev pub must : Call → String → Step (Unit {0})
must c s = ask c >>= succeed s

-- `atomic` and `clear`: what they do to the disk, if they do it.
abbrev pub written : Call → (Disk → Disk) → Answer → Disk → Result (Unit {0}) × Disk
written c f yes d = (ok tt, f (called c d))
written c f no d = (err (other "not written"), called c d)
written c f lost d = (err (other "not synced"), f (called c d))

abbrev pub change : Call → (Disk → Disk) → Step (Unit {0})
change c f = record { run = λ w d. written c f (w.answer c d.history) d }

abbrev pub bury : Text → ℕ → Disk → Disk
bury id t d = record d { tombstones = λ x. if x == id then holds t else d.tombstones x }

abbrev pub put_tombstone : Text → File ℕ → Step (Unit {0})
put_tombstone id (holds n) = if ltb 0 n then done tt else failed "corrupt tombstone"
put_tombstone id unreadable = failed "corrupt tombstone"
put_tombstone id absent = do t ← now; change (write (tombstone_file id)) (bury id t)

unfoldable pub tombstone : Text → Step (Unit {0})
tombstone id =
    if not (credential_id id)
    then failed "invalid generation"
    else look (λ d. d.tombstones id) >>= put_tombstone id

abbrev pub is_revoked : Phase → Bool
is_revoked revoked = true
is_revoked p = false

-- What must be done with the record that stands before another is written.
abbrev pub displace : Text → File State → Step (Unit {0})
displace id absent = done tt
displace id unreadable = failed "corrupt credential state"
displace id (holds old) =
    if old.id == id
    then done tt
    else if not (is_revoked old.phase)
    then failed "another generation is live"
    else tombstone old.id

abbrev pub bury_revoked : Text → Phase → Step (Unit {0})
bury_revoked id p = if is_revoked p then tombstone id else done tt

unfoldable pub write_state : Text → ℕ → Phase → Step (Unit {0})
write_state id deadline p = if not (credential_id id) then failed "invalid state" else do
  _ ← look (λ d. d.state) >>= displace id
  _ ← bury_revoked id p
  t ← now
  change (write state_file) (λ d. record d {
    state = holds (record { id = id; deadline = deadline; phase = p; changed = t });
  })

abbrev pub clear_marker : Step (Unit {0})
clear_marker = change (remove marker_file) (λ d. record d { marker = absent })

abbrev pub clear_recovery : Step (Unit {0})
clear_recovery = change (remove recovery_file) (λ d. record d { needs_recovery = false })

-- `recovery` drops the error of its write.
abbrev pub recovery : Step (Result (Unit {0}))
recovery = outcome (change (write recovery_file) (λ d. record d { needs_recovery = true }))
