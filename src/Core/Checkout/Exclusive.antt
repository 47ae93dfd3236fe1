-- ===== src/Core/Checkout/Exclusive.antt =====
-- internal/core/checkout.go, the first transaction of `Checkout`, run twice.
use lab_gate.Prelude.{
  ℕ, ltb, Text, false, ◌≡◌, ◌≢◌, text_eq, nat_eq, count, ok, err, fail, Bool-cases, inl, inr, arith,
  ◌∙◌,
}
use lab_gate.Store.{available, Machine, Db}
use lab_gate.Core.Invariant.{IsSafe}
use lab_gate.Core.Checkout.{Ticket, reservable, pending, reserve, has_reservation}
use lab_gate.Core.Checkout.Reserved.{IsReserved, reserve-IsReserved}
use lab_gate.Core.Booking.{Turn, ticket}
use lab_gate.Config.{Config}
use lab_gate.Prelude.{All-mono, String, lower_idem, lower, count-none, count-append_one, ◌≤◌, ◌⊎◌}

not_offered :
    (mid : Text) (now : ℕ) (m : Machine)
    → (m.id ≡ mid → m.status ≢ available)
    → reservable mid now m ≡ false
unfolding reservable
not_offered mid now m h = elim (Bool-cases (reservable mid now m)) [
  | inl hit ↦ absurd (h (ground arith) (ground arith))
  | inr miss ↦ miss
]

second_refused :
    (q' : Ticket) (audit_id' : Text) (db' : Db)
    → (1 ≤ count (has_reservation q'.email) db'.credentials)
      ⊎ (count (reservable q'.mid q'.now) db'.machines ≡ 0)
    → (s : String) × (reserve q' audit_id' db' ≡ err (fail 409 s))
unfolding reserve
second_refused q' audit_id' db' (inl held) =
    ("You already have a reservation or active session", ground arith)
second_refused q' audit_id' db' (inr none_left) =
    elim (Bool-cases (ltb 0 (count (has_reservation q'.email) db'.credentials))) [
      | inl held ↦ ("You already have a reservation or active session", ground arith)
      | inr first_time ↦ ("Machine is no longer available", ground arith)
    ]

clashing :
    (c : Config) (w w' : Turn) (mid mid' email email' : Text) (db db' : Db) (m : Machine)
    → IsReserved (ticket c w mid email) db m db'
    → (mid' ≡ mid) ⊎ (lower email' ≡ lower email)
    → (1 ≤ count (has_reservation (lower email')) db'.credentials)
      ⊎ (count (reservable mid' w'.now) db'.machines ≡ 0)
clashing c w w' mid mid' email email' db db' m facts (inl same_machine) = inr (
    count-none (reservable mid' w'.now) db'.machines (
      All-mono (λ r. r.id ≡ mid → r.status ≢ available) (λ r. reservable mid' w'.now r ≡ false)
        (λ r off. not_offered mid' w'.now r (λ i. off (i ∙ same_machine))) db'.machines facts.off))
clashing c w w' mid mid' email email' db db' m facts (inr same_student) = inl (
    rw facts.recorded (
      count-append_one (has_reservation (lower email')) db.credentials
        (pending (ticket c w mid email))
        (unfold has_reservation pending in ground (arith, lower_idem email))))

-- After a reservation from safe tables, a second one of the same machine, or by the same student
-- whatever the case of the letters of the address, is refused with 409, at whatever time and under
-- whatever id it is made.
pub reserve_once :
    (c : Config) (w w' : Turn) (mid mid' email email' audit_id audit_id' : Text) (db db' : Db)
    (m : Machine)
    → IsSafe db
    → reserve (ticket c w mid email) audit_id db ≡ ok (m, db')
    → (mid' ≡ mid) ⊎ (lower email' ≡ lower email)
    → (s : String) × (reserve (ticket c w' mid' email') audit_id' db' ≡ err (fail 409 s))
reserve_once c w w' mid mid' email email' audit_id audit_id' db db' m v h clash =
    let facts = (reserve-IsReserved (ticket c w mid email) audit_id db v).at (m, db') h in
    second_refused (ticket c w' mid' email') audit_id' db'
      (clashing c w w' mid mid' email email' db db' m facts clash)
