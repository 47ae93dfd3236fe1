-- ===== src/Core/Webhook/Safety.antt =====
-- The safety of the tables through internal/core/lifecycle.go, `Webhook`.
use lab_gate.Prelude.{
  ℕ, Text, Option, none, some, Bool, not, ◌||◌, ◌≡◌, refl, text_eq, nat_eq, first, Ensures,
  Ensures-ok, Ensures-err, Ensures-if, Bool-cases, Option-cases, inl, inr,
}
use lab_gate.Store.{Machine, Db, has_id}
use lab_gate.Store.Keys.{keyed-ids}
use lab_gate.Store.Rows.{first_by_key}
use lab_gate.Core.Invariant.{IsSafe, tx-IsSafe}
use lab_gate.Core.Report.{Report, Endpoint, valid}
use lab_gate.Core.Webhook.{
  generation_report, machine_report, has_token, receive, webhook, locked_of,
}
use lab_gate.Core.Sighting.{is_opening, is_pending_report}
use lab_gate.Core.Sighting.Safety.{idle_report-IsSafe}
use lab_gate.Core.Opening.Safety.{open_report-IsSafe}
use lab_gate.Core.Closing.Safety.{terminal_report-IsSafe}

report-IsSafe :
    (m : Machine) (e : Endpoint) (r : Report) (o : Option Text) (audit_id audit_id' : Text)
    (now : ℕ) (db : Db)
    → first (has_id m.id) db.machines ≡ some m
    → IsSafe db
    → r.id ≡ o
    → Ensures (λ x. IsSafe x.1) (machine_report m e r audit_id audit_id' now db)
unfolding machine_report generation_report
report-IsSafe m e r none audit_id audit_id' now db here v i =
    rw (i, machine_report)
      (Ensures-ok _ _ (idle_report-IsSafe m (locked_of r.locked) now db here v))
report-IsSafe m e r (some id) audit_id audit_id' now db here v i =
    rw (i, machine_report)
      (Ensures-if _ (is_opening e r || is_pending_report e r) _ _
        (λ _. open_report-IsSafe m e (is_pending_report e r) id audit_id now db v)
        (λ _. terminal_report-IsSafe m e r id audit_id audit_id' now db here v))

receive-IsSafe :
    (token : Text) (e : Endpoint) (r : Report) (audit_id audit_id' : Text) (now : ℕ) (db : Db)
    → IsSafe db
    → Ensures (λ x. IsSafe x.1) (receive token e r audit_id audit_id' now db)
unfolding receive
receive-IsSafe token e r audit_id audit_id' now db v =
    elim (Option-cases (first (has_token token) db.machines)) [
      | inl unknown ↦ rw (unknown, receive) (Ensures-err _ _)
      | inr (m, found) ↦
          rw (found, receive)
            (report-IsSafe m e r r.id audit_id audit_id' now db
              (first_by_key (λ x. x.id) (has_token token) db.machines m (keyed-ids db v.keyed)
                found)
              v refl)
    ]

-- A report leaves safe tables safe, whatever it says, whoever sends it, and also where its
-- transaction fails.
pub webhook-IsSafe :
    (fault : Bool) (token : Text) (e : Endpoint) (r : Report) (audit_id audit_id' : Text) (now : ℕ)
    (db : Db)
    → IsSafe db
    → IsSafe (webhook fault token e r audit_id audit_id' now db).1
unfolding webhook
webhook-IsSafe fault token e r audit_id audit_id' now db v = elim (Bool-cases (not (valid e r))) [
  | inl refused ↦ rw refused v
  | inr valid_report ↦ rw valid_report (
      tx-IsSafe fault (receive token e r audit_id audit_id' now) db
        (receive-IsSafe token e r audit_id audit_id' now db v) v)
]
