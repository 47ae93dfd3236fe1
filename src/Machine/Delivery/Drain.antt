-- ===== src/Machine/Delivery/Drain.antt =====
-- internal/machine/network.go, `Flush`, where the server and the system answer every call.
use lab_gate.Prelude.{
  ℕ, Text, List, [], ◌∷◌, ◌++◌, map, some, true, not, text_eq, ==_self, ◌≡◌, refl, sym, ap, ◌∙◌,
  select, Error, Result, ok, err, arith,
}
use mathlib.Core.List.{append-nil, append_assoc}
use lab_gate.Store.{distinct}
use lab_gate.Core.Report.{Report, Endpoint}
use lab_gate.Machine.Runtime.{
  Call, take_lock, list_outbox, sync_outbox, post, remove, event_file, Entry, yes, Disk, World,
  Step, after, called,
}
use lab_gate.Machine.Outbox.{numbered}
use lab_gate.Machine.Delivery.{
  delivery, has_name, send, flush_numbered, flush_entry, flush_all, flush,
}
use lab_gate.Machine.Delivery.Retention.{IsNew, none-IsNew}

-- A file of the outbox with the event that it holds.
pub record Sound (e : Entry) (p : Endpoint × Report) : Type 0 where
  pub number : ℕ
  pub named : numbered e.name ≡ ok (some number)
  pub holding : delivery e.content ≡ ok p

abbrev pub AllSound : List Entry → List (Endpoint × Report) → Type 0
AllSound [] [] = Unit
AllSound (e ∷ es) (p ∷ ps) = Sound e p × AllSound es ps
AllSound es ps = ⊥

-- The events that were posted, in their order.
abbrev pub posted : List Call → List (Endpoint × Report)
posted [] = []
posted (c ∷ h) = elim c [
  | post endpoint report ↦ posted h ++ (endpoint, report) ∷ []
  | _ ↦ posted h
]

-- The server acknowledges, and the system does what it is asked.
abbrev pub IsWilling : World → Type 0
IsWilling w = (c : Call) (h : List Call) → w.answer c h ≡ yes

-- What is left where the only file of the name goes.
others :
    (name : Text) (xs : List Entry) → IsNew name xs → select (λ e. not (has_name name e)) xs ≡ xs
others name [] n = refl
others name (x ∷ xs) (h, n) = rw h (ap (λ r. x ∷ r) (others name xs n))

first_gone :
    (x : Entry) (xs : List Entry)
    → IsNew x.name xs
    → select (λ e. not (has_name x.name e)) (x ∷ xs) ≡ xs
first_gone x xs n = rw (==_self x.name) (others x.name xs n)

-- A step that succeeds, leaves these files, and has posted these events.
abbrev Sends : List Entry → List (Endpoint × Report) → Disk → Result (Unit {0}) × Disk → Type 0
Sends es ps d r = (r.0 ≡ ok tt) × (r.1.outbox ≡ es) × (posted r.1.history ≡ posted d.history ++ ps)

module _ (w : World) (willing : IsWilling w) where
  send-Sends :
      (name : Text) (endpoint : Endpoint) (report : Report) (d : Disk)
      → Sends
          (select (λ e. not (has_name name e)) d.outbox)
          ((endpoint, report) ∷ [])
          d
          ((send name (endpoint, report)).run w d)
  unfolding send
  send-Sends name endpoint report d =
      rw
        (
          willing (post endpoint report) d.history,
          willing (remove (event_file name)) (post endpoint report ∷ d.history),
          willing sync_outbox (remove (event_file name) ∷ post endpoint report ∷ d.history),
        )
        (refl, refl, refl)

  entry-Sends :
      (x : Entry) (p : Endpoint × Report) (d : Disk)
      → Sound x p
      → Sends (select (λ e. not (has_name x.name e)) d.outbox) (p ∷ []) d ((flush_entry x).run w d)
  unfolding flush_entry flush_numbered
  entry-Sends x (endpoint, report) d s =
      rw (s.named, s.holding) (send-Sends x.name endpoint report d)

  -- A step that sends one event, and one that sends those that are left.
  then-Sends :
      (xs : List Entry) {es : List Entry} (p : Endpoint × Report) (ps : List (Endpoint × Report))
      (d : Disk) (f : Unit {0} → Step (Unit {0})) (r : Result (Unit {0}) × Disk)
      → Sends es (p ∷ []) d r
      → es ≡ xs
      → ((d1 : Disk) → d1.outbox ≡ xs → Sends [] ps d1 ((f tt).run w d1))
      → Sends [] (p ∷ ps) d (after f w r)
  then-Sends xs p ps d f (err z, d1) (k, l, m) left next = absurd (fails z k)
    where
      fails : (z : Error) → ◌≡◌ {A = Result (Unit {0})} (err z) (ok tt) → ⊥
      fails z k = cc
  then-Sends xs p ps d f (ok v, d1) (k, l, m) left next =
      let (k', l', m') = next d1 (l ∙ left) in
      (k', l', m' ∙ ap (λ h. h ++ ps) m ∙ append_assoc (posted d.history) (p ∷ []) ps)

  all-Sends :
      (xs : List Entry) (ps : List (Endpoint × Report)) (d : Disk)
      → AllSound xs ps
      → distinct (map (λ x. x.name) xs) ≡ true
      → d.outbox ≡ xs
      → Sends [] ps d ((flush_all xs).run w d)
  unfolding flush_all distinct
  all-Sends [] [] d s u e = (refl, e, sym (append-nil (posted d.history)))
  all-Sends [] (p ∷ ps) d s u e = absurd s
  all-Sends (x ∷ xs) [] d s u e = absurd s
  all-Sends (x ∷ xs) (p ∷ ps) d (s, t) u e =
      let left : select (λ y. not (has_name x.name y)) d.outbox ≡ xs =
        ap (select (λ y. not (has_name x.name y))) e
        ∙ first_gone x xs (none-IsNew x.name xs (ground (arith, u))) in
      then-Sends xs p ps d (λ v. flush_all xs) ((flush_entry x).run w d) (entry-Sends x p d s) left
        λ d1 k. all-Sends xs ps d1 t (ground (arith, u)) k

-- Where every file of the outbox holds an event, under a name of its own, and every call is
-- answered, a flush posts the events in the order of their files and leaves none.
pub flush-Sends :
    (w : World) (d : Disk) (ps : List (Endpoint × Report))
    → IsWilling w
    → AllSound d.outbox ps
    → distinct (map (λ x. x.name) d.outbox) ≡ true
    → ((flush.run w d).0 ≡ ok tt)
      × ((flush.run w d).1.outbox ≡ [])
      × (posted (flush.run w d).1.history ≡ posted d.history ++ ps)
unfolding flush
flush-Sends w d ps willing s u =
    rw (willing take_lock d.history, willing list_outbox (take_lock ∷ d.history))
      (all-Sends w willing d.outbox ps (called list_outbox (called take_lock d)) s u refl)
