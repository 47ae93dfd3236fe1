-- ===== src/Machine/Delivery/Retention.antt =====
-- internal/machine/network.go, `Flush`: the files that it removes, and the server's answers.
use lab_gate.Prelude.{
  ℕ, Text, List, [], ◌∷◌, map, Option, none, some, true, false, not, ◌||◌, ◌==◌, text_eq, ◌≡◌, refl,
  sym, ap, ◌∙◌, subst, ◌⊎◌, inl, inr, any, select, All, All-mono, ok, Bool-cases, arith,
}
use lab_gate.Store.{distinct}
use lab_gate.Core.Report.{Report, Endpoint}
use lab_gate.Machine.Runtime.{
  Call, take_lock, list_outbox, sync_outbox, post, remove, event_file, Entry, Answer, yes, no, lost,
  Disk, World, ask, look, called,
}
use lab_gate.Machine.Runtime.Yielding.{
  look-Yields, lift-Yields, must-Yields, change-Yields, ask-Yields, Ends, bind-Ends, still-Ends,
  must-Ends, change-Ends,
}
use lab_gate.Machine.Outbox.{numbered}
use lab_gate.Machine.Delivery.{
  delivery, has_name, drop_entry, send, flush_numbered, flush_entry, flush_all, flush_listed,
  flush_locked, flush,
}

abbrev pub IsIn : Entry → List Entry → Type 0
IsIn e [] = ⊥
IsIn e (x ∷ xs) = (x ≡ e) ⊎ IsIn e xs

-- Some call so far was this one, and was answered yes.
abbrev pub Acknowledged : World → Call → List Call → Type 0
Acknowledged w c [] = ⊥
Acknowledged w c (x ∷ h) = ((x ≡ c) × (w.answer x h ≡ yes)) ⊎ Acknowledged w c h

-- The event of a file was sent and acknowledged.
pub record IsDelivered (w : World) (e : Entry) (h : List Call) : Type 0 where
  pub endpoint : Endpoint
  pub report : Report
  pub sent : delivery e.content ≡ ok (endpoint, report)
  pub acknowledged : Acknowledged w (post endpoint report) h

abbrev pub IsRetained : World → Entry → Disk → Type 0
IsRetained w e d = IsIn e d.outbox ⊎ IsDelivered w e d.history

IsDelivered-cons :
    (w : World) (e : Entry) (c : Call) (h : List Call) → IsDelivered w e h → IsDelivered w e (c ∷ h)
IsDelivered-cons w e c h k = record {
  endpoint = k.endpoint;
  report = k.report;
  sent = k.sent;
  acknowledged = inr k.acknowledged;
}

IsRetained-called :
    (w : World) (e : Entry) (c : Call) (d : Disk) → IsRetained w e d → IsRetained w e (called c d)
IsRetained-called w e c d (inl there) = inl there
IsRetained-called w e c d (inr k) = inr (IsDelivered-cons w e c d.history k)

IsIn-drop :
    (name : Text) (e : Entry) (es : List Entry)
    → has_name name e ≡ false
    → IsIn e es
    → IsIn e (select (λ x. not (has_name name x)) es)
IsIn-drop name e [] h k = k
IsIn-drop name e (x ∷ xs) h (inl same) =
    let differs : has_name name x ≡ false = ap (has_name name) same ∙ h in rw differs (inl same)
IsIn-drop name e (x ∷ xs) h (inr later) = elim (Bool-cases (has_name name x)) [
  | inl hit ↦ rw hit (IsIn-drop name e xs h later)
  | inr miss ↦ rw miss (inr (IsIn-drop name e xs h later))
]

-- Only the file `x` itself has the name of `x`.
abbrev IsAlone : Entry → Entry → Type 0
IsAlone e x = has_name x.name e ≡ true → x ≡ e

-- To remove an acknowledged file keeps what must be kept.
removed :
    (w : World) (e x : Entry) (d : Disk)
    → IsAlone e x
    → IsDelivered w x d.history
    → IsRetained w e d
    → IsRetained w e (drop_entry x.name d)
removed w e x d alone k (inr old) = inr old
removed w e x d alone k (inl there) = elim (Bool-cases (has_name x.name e)) [
  | inl hit ↦ inr (subst (λ y. IsDelivered w y d.history) (alone hit) k)
  | inr miss ↦ inl (IsIn-drop x.name e d.outbox miss there)
]

send-IsRetained :
    (w : World) (e x : Entry) (d : Disk) (endpoint : Endpoint) (report : Report)
    → IsAlone e x
    → delivery x.content ≡ ok (endpoint, report)
    → IsRetained w e d
    → Ends (IsRetained w e) (send x.name (endpoint, report)) w d
unfolding send
send-IsRetained w e x d endpoint report alone sent r =
    bind-Ends {P = λ u d1. IsRetained w e d1 × IsDelivered w x d1.history} (IsRetained w e) w d _ _
      (must-Ends (IsRetained w e) w d (post endpoint report) "webhook not acknowledged"
        (IsRetained-called w e _ d r))
      (must-Yields _ w d (post endpoint report) "webhook not acknowledged" λ y. (
        IsRetained-called w e _ d r,
        record { endpoint = endpoint; report = report; sent = sent; acknowledged = inl (refl, y) },
      ))
      λ u d1 (r1, k).
        bind-Ends {P = λ v d2. IsRetained w e d2} (IsRetained w e) w d1 _ _
          (change-Ends (IsRetained w e) w d1 (remove (event_file x.name)) (drop_entry x.name)
            (IsRetained-called w e _ d1 r1) (gone d1 r1 k))
          (change-Yields (IsRetained w e) w d1 (remove (event_file x.name)) (drop_entry x.name)
            (gone d1 r1 k))
          λ v d2 r2.
            must-Ends (IsRetained w e) w d2 sync_outbox "outbox" (IsRetained-called w e _ d2 r2)
  where
    gone :
        (d1 : Disk)
        → IsRetained w e d1
        → IsDelivered w x d1.history
        → IsRetained w e (drop_entry x.name (called (remove (event_file x.name)) d1))
    gone d1 r1 k =
        removed w e x (called (remove (event_file x.name)) d1) alone
          (IsDelivered-cons w x _ d1.history k) (IsRetained-called w e _ d1 r1)

numbered-IsRetained :
    (w : World) (e x : Entry) (d : Disk) (n : Option ℕ)
    → IsAlone e x
    → IsRetained w e d
    → Ends (IsRetained w e) (flush_numbered x n) w d
unfolding flush_numbered
numbered-IsRetained w e x d none alone r = record { ends = r }
numbered-IsRetained w e x d (some n) alone r =
    bind-Ends {P = λ p d1. (delivery x.content ≡ ok p) × IsRetained w e d1} (IsRetained w e) w d _ _
      (still-Ends (IsRetained w e) w d (delivery x.content) r)
      (lift-Yields _ w d (delivery x.content) (λ p k. (k, r)))
      λ (endpoint, report) d1 (k, r1). send-IsRetained w e x d1 endpoint report alone k r1

entry-IsRetained :
    (w : World) (e x : Entry) (d : Disk)
    → IsAlone e x
    → IsRetained w e d
    → Ends (IsRetained w e) (flush_entry x) w d
unfolding flush_entry
entry-IsRetained w e x d alone r =
    bind-Ends {P = λ n d1. IsRetained w e d1} (IsRetained w e) w d _ _
      (still-Ends (IsRetained w e) w d (numbered x.name) r)
      (lift-Yields _ w d (numbered x.name) (λ n k. r))
      λ n d1 r1. numbered-IsRetained w e x d1 n alone r1

all-IsRetained :
    (w : World) (e : Entry) (xs : List Entry) (d : Disk)
    → All (IsAlone e) xs
    → IsRetained w e d
    → Ends (IsRetained w e) (flush_all xs) w d
unfolding flush_all
all-IsRetained w e [] d alone r = record { ends = r }
all-IsRetained w e (x ∷ xs) d (a, alone) r =
    bind-Ends {P = λ u d1. IsRetained w e d1} (IsRetained w e) w d _ _
      (entry-IsRetained w e x d a r) (record { at = λ u k. (entry-IsRetained w e x d a r).ends })
      λ u d1 r1. all-IsRetained w e xs d1 alone r1

-- No file has the name.
abbrev pub IsNew : Text → List Entry → Type 0
IsNew name = All (λ x. (x.name == name) ≡ false)

pub none-IsNew :
    (name : Text) (xs : List Entry)
    → any (λ y. y == name) (map (λ x. x.name) xs) ≡ false
    → IsNew name xs
none-IsNew name [] h = tt
none-IsNew name (x ∷ xs) h = elim (Bool-cases (x.name == name)) [
  | inl hit ↦ absurd (false_hit x.name hit h)
  | inr miss ↦ (miss, none-IsNew name xs (rw miss at h))
]
  where
    false_hit :
        (n : Text)
        → (n == name) ≡ true
        → ((n == name) || any (λ y. y == name) (map (λ x. x.name) xs)) ≡ false
        → ⊥
    false_hit n hit h = ground (arith, hit, h)

new_ne :
    (name : Text) (e : Entry) (xs : List Entry)
    → IsNew name xs
    → IsIn e xs
    → (e.name == name) ≡ false
new_ne name e [] n k = absurd k
new_ne name e (x ∷ xs) (h, n) (inl same) = subst (λ y. (y.name == name) ≡ false) same h
new_ne name e (x ∷ xs) (h, n) (inr later) = new_ne name e xs n later

distinct-IsAlone :
    (e : Entry) (xs : List Entry)
    → distinct (map (λ x. x.name) xs) ≡ true
    → IsIn e xs
    → All (IsAlone e) xs
unfolding distinct
distinct-IsAlone e [] h there = absurd there
distinct-IsAlone e (x ∷ xs) h (inl same) =
    let fresh = none-IsNew x.name xs (ground (arith, h)) in
    (
      λ hit. same,
      All-mono (λ y. (y.name == x.name) ≡ false) (IsAlone e)
          (λ y apart hit. absurd (clash y apart hit)) xs fresh,
    )
  where
    clash : (y : Entry) → (y.name == x.name) ≡ false → has_name y.name e ≡ true → ⊥
    clash y apart hit = ground (arith, ap (λ (z : Entry). z.name) same, apart, hit)
distinct-IsAlone e (x ∷ xs) h (inr later) =
    (λ hit. absurd (taken hit), distinct-IsAlone e xs (ground (arith, h)) later)
  where
    taken : has_name x.name e ≡ true → ⊥
    taken hit =
        ground (arith, hit, new_ne x.name e xs (none-IsNew x.name xs (ground (arith, h))) later)

-- Whatever a flush meets, a file that was in the outbox is in it still, or its event was sent to the
-- server and acknowledged.
pub flush-IsRetained :
    (w : World) (d : Disk) (e : Entry)
    → distinct (map (λ x. x.name) d.outbox) ≡ true
    → IsIn e d.outbox
    → IsRetained w e (flush.run w d).1
unfolding flush
flush-IsRetained w d e apart there = whole.ends
  where
    listed : (d1 : Disk) → d1.outbox ≡ d.outbox → Ends (IsRetained w e) flush_listed w d1
    listed d1 k =
        let r : IsRetained w e d1 = inl (subst (IsIn e) (sym k) there) in
        bind-Ends {P = λ u d2. d2.outbox ≡ d.outbox} (IsRetained w e) w d1 _ _
          (must-Ends (IsRetained w e) w d1 list_outbox "outbox" (IsRetained-called w e _ d1 r))
          (must-Yields _ w d1 list_outbox "outbox" (λ y. k))
          λ u d2 k2.
            bind-Ends {P = λ es d3. (d3.outbox ≡ d.outbox) × (es ≡ d.outbox)} (IsRetained w e) w d2
              (look (λ d. d.outbox)) flush_all
              (record { ends = inl (subst (IsIn e) (sym k2) there) })
              (look-Yields _ w d2 (λ d. d.outbox) (k2, k2))
              λ es d3 (k3, same).
                all-IsRetained w e es d3
                  (subst (All (IsAlone e)) (sym same) (distinct-IsAlone e d.outbox apart there))
                  (inl (subst (IsIn e) (sym k3) there))

    locked :
        (x : Answer) (d1 : Disk)
        → d1.outbox ≡ d.outbox
        → Ends (IsRetained w e) (flush_locked x) w d1
    locked yes d1 k = listed d1 k
    locked no d1 k = record { ends = inl (subst (IsIn e) (sym k) there) }
    locked lost d1 k = record { ends = inl (subst (IsIn e) (sym k) there) }

    whole : Ends (IsRetained w e) flush w d
    whole =
        bind-Ends {P = λ x d1. d1.outbox ≡ d.outbox} (IsRetained w e) w d (ask take_lock)
          flush_locked (record { ends = inl there }) (ask-Yields _ w d take_lock refl) locked
