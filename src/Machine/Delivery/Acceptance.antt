-- ===== src/Machine/Delivery/Acceptance.antt =====
-- The events that internal/machine/files.go writes, as internal/machine/network.go reads and sends
-- them, and as internal/core/lifecycle.go takes them.
use lab_gate.Prelude.{
  atoi, ℕ, Text, codes, List, [], ◌∷◌, Option, none, some, Bool, true, false, ◌&&◌, ◌||◌, text_eq,
  nat_eq, option_eq, ==_iff, ◌≡◌, refl, ap, ◌∙◌, subst, ◌⊎◌, inl, inr, all, Lacks, split,
  split-join, print, print_are_digits, value, other, Result, ok, err, ok-injective, Bool-cases,
  arith,
}
use lab_gate.Core.Identity.{credential_id, is_id_byte}
use lab_gate.Core.Report.{Report, Endpoint, valid}
use lab_gate.Machine.State.Record.{id_bytes-Lacks, digits-Lacks}
use lab_gate.Machine.Runtime.{File, absent, unreadable, holds}
use lab_gate.Machine.Outbox.{is_event, event_content}
use lab_gate.Machine.Delivery.{event_endpoint, event_report, versioned, event_of, delivery}

-- The three events there are.
data IsKind : Text → ℕ → Type 0 where
  opened : {s : Text} {n : ℕ} → s ≡ codes "session-open" → n ≡ 2 → IsKind s n
  closed : {s : Text} {n : ℕ} → s ≡ codes "session-close" → n ≡ 3 → IsKind s n
  expired : {s : Text} {n : ℕ} → s ≡ codes "credential-expired" → n ≡ 3 → IsKind s n

or_cases : (a b : Bool) → (a || b) ≡ true → (a ≡ true) ⊎ (b ≡ true)
or_cases true b h = inl refl
or_cases false b h = inr h

and_both : (a b : Bool) → (a && b) ≡ true → (a ≡ true) × (b ≡ true)
and_both true b h = (refl, h)
and_both false b h = cc

kind_of : (endpoint : Text) (ver : ℕ) → is_event endpoint ver ≡ true → IsKind endpoint ver
unfolding is_event
kind_of endpoint ver h = elim (or_cases _ _ h) [
  | inl o ↦ let (e, v) = and_both _ _ o in opened ((==_iff _ _).0 e) ((==_iff _ _).0 v)
  | inr c ↦
      (let (e, v) = and_both _ _ c in
        elim (or_cases _ _ e) [
          | inl x ↦ closed ((==_iff _ _).0 x) ((==_iff _ _).0 v)
          | inr x ↦ expired ((==_iff _ _).0 x) ((==_iff _ _).0 v)
        ])
]

event_is_valid :
    (endpoint id : Text) (ver : ℕ)
    → credential_id id ≡ true
    → IsKind endpoint ver
    → valid (event_endpoint endpoint) (event_report id ver) ≡ true
unfolding valid text_eq nat_eq
event_is_valid endpoint id ver c (opened e v) = rw (e, v, c) refl
event_is_valid endpoint id ver c (closed e v) = rw (e, v, c) refl
event_is_valid endpoint id ver c (expired e v) = rw (e, v, c) refl

versioned-valid :
    (endpoint id : Text) (n : Option ℕ) (e : Endpoint) (r : Report)
    → credential_id id ≡ true
    → versioned endpoint id n ≡ ok (e, r)
    → valid e r ≡ true
versioned-valid endpoint id none e r c h = cc
versioned-valid endpoint id (some ver) e r c h = elim (Bool-cases (is_event endpoint ver)) [
  | inl good ↦
      let same = ok-injective _ _ (rw good at h) in
      subst (λ (p : Endpoint × Report). valid p.0 p.1 ≡ true) same
        (event_is_valid endpoint id ver c (kind_of endpoint ver good))
  | inr bad ↦ absurd (refused (rw bad at h))
]
  where
    refused :
        ◌≡◌ {A = Result (Endpoint × Report)}
          (err (other "invalid event version retained"))
          (ok (e, r))
        → ⊥
    refused k = cc

fields-valid :
    (fs : List Text) (e : Endpoint) (r : Report) → event_of fs ≡ ok (e, r) → valid e r ≡ true
unfolding event_of
fields-valid (endpoint ∷ id ∷ ver ∷ []) e r h = elim (Bool-cases (credential_id id)) [
  | inl c ↦ versioned-valid endpoint id (atoi ver) e r c (rw c at h)
  | inr bad ↦ absurd (refused (rw bad at h))
]
  where
    refused :
        ◌≡◌ {A = Result (Endpoint × Report)}
          (err (other "invalid queued event retained"))
          (ok (e, r))
        → ⊥
    refused k = cc
fields-valid [] e r h = cc
fields-valid (a ∷ []) e r h = cc
fields-valid (a ∷ b ∷ []) e r h = cc
fields-valid (a ∷ b ∷ c ∷ d ∷ fs) e r h = cc

-- Whatever file an event is sent for, the server takes the report for a valid one at its endpoint.
pub delivery-valid :
    (f : File Text) (e : Endpoint) (r : Report) → delivery f ≡ ok (e, r) → valid e r ≡ true
unfolding delivery
delivery-valid absent e r h = cc
delivery-valid unreadable e r h = cc
delivery-valid (holds v) e r h = fields-valid (split 9 v) e r h

kind-Lacks : (endpoint : Text) (ver : ℕ) → IsKind endpoint ver → Lacks 9 endpoint
unfolding nat_eq
kind-Lacks endpoint ver (opened e v) = rw e refl
kind-Lacks endpoint ver (closed e v) = rw e refl
kind-Lacks endpoint ver (expired e v) = rw e refl

atoi-print : (endpoint : Text) (ver : ℕ) → IsKind endpoint ver → atoi (print ver) ≡ some ver
unfolding print value nat_eq
atoi-print endpoint ver (opened e v) = rw v refl
atoi-print endpoint ver (closed e v) = rw v refl
atoi-print endpoint ver (expired e v) = rw v refl

-- An event that may be queued is sent as it was queued.
pub delivery-event_content :
    (endpoint id : Text) (ver : ℕ)
    → credential_id id ≡ true
    → is_event endpoint ver ≡ true
    → delivery (holds (event_content endpoint id ver))
      ≡ ok (event_endpoint endpoint, event_report id ver)
unfolding delivery event_content
delivery-event_content endpoint id ver c h =
    let kind = kind_of endpoint ver h in
    ap event_of (
      split-join 9 endpoint (id ∷ print ver ∷ []) (
        kind-Lacks endpoint ver kind,
        (id_bytes-Lacks id (id_bytes id c), (digits-Lacks (print ver) (print_are_digits ver), tt)),
      ))
    ∙ fields
  where
    id_bytes : (id : Text) → credential_id id ≡ true → all is_id_byte id ≡ true
    id_bytes id c = unfold credential_id in ground (arith, c)

    fields :
        event_of (endpoint ∷ id ∷ print ver ∷ [])
        ≡ ok (event_endpoint endpoint, event_report id ver)
    fields = unfold event_of in rw (c, atoi-print endpoint ver (kind_of endpoint ver h), h) refl
