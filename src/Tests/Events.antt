-- ===== src/Tests/Events.antt =====
-- The theorems on an endpoint that tells the server of a session's end, and on a command that it is
-- sent.
use lab_gate.Prelude.{
  value, has_prefix, precedes, codes, Text, [], ◌∷◌, ◌++◌, text_eq, nat_eq, some, true, false, Bool,
  ◌≡◌, refl, ok, inl, map, length, arith, print,
}
use lab_gate.Store.{distinct}
use lab_gate.Core.Identity.{credential_id}
use lab_gate.Core.Report.{heartbeat, valid}
use lab_gate.Core.Password.{password, draw, char_at}
use lab_gate.Core.Provision.{account_path, is_issuable, issue_command, issue_request, fields}
use lab_gate.Core.Provision.Issuable.{password-is_issuable}
use lab_gate.Machine.State.{State, active}
use lab_gate.Machine.Runtime.{absent, holds, yes, Disk, World, Entry}
use lab_gate.Machine.Outbox.{
  enqueue, event_content, numbered, publish, highest, read_sequence, is_event,
}
use lab_gate.Machine.Outbox.Order.{IsLast, enqueue-IsLast}
use lab_gate.Machine.Delivery.{delivery, event_endpoint, event_report, flush}
use lab_gate.Machine.Delivery.Retention.{IsRetained, flush-IsRetained}
use lab_gate.Machine.Delivery.Drain.{AllSound, IsWilling, posted, flush-Sends}
use lab_gate.Machine.Delivery.Acceptance.{delivery-valid, delivery-event_content}
use lab_gate.Machine.Dispatch.{dispatch}
use lab_gate.Machine.Dispatch.Commands.{dispatch-issue_request}
use lab_gate.Machine.Heartbeat.{report_of, fits}
use lab_gate.Machine.Heartbeat.Validity.{valid-report_of}
use lab_gate.Tests.Fixture.{desk}

abbrev id : Text
id = codes "generation-of-desk-2"

id_is_generation : credential_id id ≡ true
unfolding credential_id nat_eq
id_is_generation = refl

abbrev closing : Text
closing = codes "session-close"

closing-is_event : is_event closing 3 ≡ true
unfolding is_event text_eq nat_eq
closing-is_event = refl

-- One event in the outbox, the seventh.
abbrev event : Entry
event = record {
  name = codes "event-v2-000000000000000007";
  content = holds (event_content closing id 3);
}

abbrev disk : Disk
disk = record {
  state = absent;
  tombstones = λ x. absent;
  marker = absent;
  needs_recovery = false;
  decommissioned = false;
  password_length = holds 5;
  sequence = holds (codes "7");
  outbox = event ∷ [];
  history = [];
}

abbrev willing : World
willing = record { answer = λ c h. yes; time = λ h. 2100 }

willing-IsWilling : IsWilling willing
willing-IsWilling c h = refl

queued :
    (enqueue closing id 3).run willing disk ≡ (ok tt, ((enqueue closing id 3).run willing disk).1)
unfolding enqueue publish highest read_sequence numbered credential_id is_event text_eq nat_eq print
    value has_prefix precedes
queued = refl

enqueue-IsLast_example : IsLast closing id 3 disk ((enqueue closing id 3).run willing disk).1
enqueue-IsLast_example =
    enqueue-IsLast closing id 3 willing disk ((enqueue closing id 3).run willing disk).1 queued

alone : distinct (map (λ x. x.name) disk.outbox) ≡ true
unfolding distinct
alone = refl

flush-IsRetained_example : IsRetained willing event (flush.run willing disk).1
flush-IsRetained_example = flush-IsRetained willing disk event alone (inl refl)

delivery-event_content_example :
    delivery (holds (event_content closing id 3)) ≡ ok (event_endpoint closing, event_report id 3)
delivery-event_content_example =
    delivery-event_content closing id 3 id_is_generation closing-is_event

delivery-valid_example : valid (event_endpoint closing) (event_report id 3) ≡ true
delivery-valid_example =
    delivery-valid (holds (event_content closing id 3)) (event_endpoint closing) (event_report id 3)
      (delivery-event_content closing id 3 id_is_generation closing-is_event)

event-Sound : AllSound disk.outbox ((event_endpoint closing, event_report id 3) ∷ [])
unfolding numbered nat_eq has_prefix value
event-Sound = (
  record {
    number = 7;
    named = refl;
    holding = delivery-event_content closing id 3 id_is_generation closing-is_event;
  },
  tt,
)

flush-Sends_example :
    ((flush.run willing disk).0 ≡ ok tt)
    × ((flush.run willing disk).1.outbox ≡ [])
    × (posted (flush.run willing disk).1.history ≡ (event_endpoint closing, event_report id 3) ∷ [])
flush-Sends_example =
    flush-Sends willing disk ((event_endpoint closing, event_report id 3) ∷ []) willing-IsWilling
      event-Sound alone

abbrev record_in_use : State
record_in_use = record { id = id; deadline = 2180; phase = active; changed = 2000 }

valid-report_of_example :
    valid heartbeat (report_of (some record_in_use) false true)
    ≡ fits (some record_in_use) false true
valid-report_of_example = valid-report_of (some record_in_use) false true id_is_generation

abbrev drawn : Text
drawn = codes "ABCDE"

drawn_in_order : password (λ i. some i) 0 5 ≡ ok drawn
unfolding password draw char_at lab_gate.Core.Password.chars
drawn_in_order = refl

password-is_issuable_example : (is_issuable drawn ≡ true) × (length drawn ≡ 5)
password-is_issuable_example =
    password-is_issuable (λ i. some i) 5 drawn (omega arith) (omega arith) drawn_in_order

abbrev always : Text → Bool
always x = true

requested :
    issue_request always always 2000 desk id 2180 drawn
    ≡ ok (issue_command id 2180, drawn ++ 10 ∷ [])
unfolding issue_request is_issuable fields issue_command lab_gate.Core.Password.chars
    lab_gate.Core.Provision.issuable_chars nat_eq credential_id print
requested = refl

dispatch-issue_request_example :
    dispatch (issue_command id 2180) (drawn ++ 10 ∷ [])
    ≡ ok (codes "--" ∷ account_path ∷ codes "issue" ∷ id ∷ print 2180 ∷ [], drawn ++ 10 ∷ [])
dispatch-issue_request_example =
    dispatch-issue_request always always 2000 desk id 2180 drawn (issue_command id 2180)
      (drawn ++ 10 ∷ []) id_is_generation (omega arith) requested
