-- ===== src/Machine/Runtime/Yielding.antt =====
-- What holds after a step that does not fail.
use lab_gate.Prelude.{Bool, true, false, String, Result, ok, err, ◌≡◌, refl, subst, if◌then◌else◌}
use lab_gate.Machine.Runtime.{
  Call, Answer, yes, no, lost, Disk, World, Step, ◌>>=◌, after, failed, ask, look, lift, change,
  must, written, called, succeed,
}

pub record Yields {A : Type 0} (Q : A → Disk → Type 0) (m : Step A) (w : World) (d : Disk)
    : Type 0 where
  pub at : (a : A) → (m.run w d).0 ≡ ok a → Q a (m.run w d).1

module _ {A : Type 0} (Q : A → Disk → Type 0) (w : World) (d : Disk) where
  pub failed-Yields : (s : String) → Yields Q (failed s) w d
  failed-Yields s = record { at = λ a e. cc }

  pub look-Yields : (f : Disk → A) → Q (f d) d → Yields Q (look f) w d
  look-Yields f q = record { at = λ a e. subst (λ x. Q x d) (same a e) q }
    where
      same : (a : A) → ok (f d) ≡ ok a → f d ≡ a
      same a e = cc

  pub lift-Yields : (r : Result A) → ((a : A) → r ≡ ok a → Q a d) → Yields Q (lift r) w d
  lift-Yields r h = record { at = h }

  pub if-Yields :
      (b : Bool) (m n : Step A)
      → (b ≡ true → Yields Q m w d)
      → (b ≡ false → Yields Q n w d)
      → Yields Q (if b then m else n) w d
  if-Yields true m n k k' = k refl
  if-Yields false m n k k' = k' refl

pub bind-Yields :
    {A B : Type 0} {P : A → Disk → Type 0} (Q : B → Disk → Type 0) (w : World) (d : Disk)
    (m : Step A) (f : A → Step B)
    → Yields P m w d
    → ((a : A) (d' : Disk) → P a d' → Yields Q (f a) w d')
    → Yields Q (m >>= f) w d
bind-Yields {A} {B} {P} Q w d m f k next = record { at = λ b e. joined (m.run w d) k.at b e }
  where
    joined :
        (r : Result A × Disk)
        → ((a : A) → r.0 ≡ ok a → P a r.1)
        → (b : B) → (after f w r).0 ≡ ok b
        → Q b (after f w r).1
    joined (ok a, d') p b e = (next a d' (p a refl)).at b e
    joined (err x, d') p b e = cc

-- A call, and a call that must succeed: nothing but the history changes.
pub ask-Yields :
    (Q : Answer → Disk → Type 0) (w : World) (d : Disk) (c : Call)
    → Q (w.answer c d.history) (called c d)
    → Yields Q (ask c) w d
ask-Yields Q w d c q = record { at = λ a e. subst (λ x. Q x (called c d)) (same a e) q }
  where
    same : (a : Answer) → ok (w.answer c d.history) ≡ ok a → w.answer c d.history ≡ a
    same a e = cc

pub must-Yields :
    (Q : Disk → Type 0) (w : World) (d : Disk) (c : Call) (s : String)
    → (w.answer c d.history ≡ yes → Q (called c d))
    → Yields (λ u. Q) (must c s) w d
must-Yields Q w d c s q = record { at = λ u e. answered (w.answer c d.history) refl u e }
  where
    answered :
        (x : Answer)
        → w.answer c d.history ≡ x
        → (u : Unit {0}) → ((succeed s x).run w (called c d)).0 ≡ ok u
        → Q ((succeed s x).run w (called c d)).1
    answered yes h u e = q h
    answered no h u e = cc
    answered lost h u e = cc

-- A write that is reported as done.
pub change-Yields :
    (Q : Disk → Type 0) (w : World) (d : Disk) (c : Call) (f : Disk → Disk)
    → Q (f (called c d))
    → Yields (λ u. Q) (change c f) w d
change-Yields Q w d c f q = record { at = λ u e. answered (w.answer c d.history) u e }
  where
    answered : (x : Answer) (u : Unit {0}) → (written c f x d).0 ≡ ok u → Q (written c f x d).1
    answered yes u e = q
    answered no u e = cc
    answered lost u e = cc

-- What holds after a step, whether it fails or not.
pub record Ends {A : Type 0} (Q : Disk → Type 0) (m : Step A) (w : World) (d : Disk) : Type 0 where
  pub ends : Q (m.run w d).1

pub bind-Ends :
    {A B : Type 0} {P : A → Disk → Type 0} (Q : Disk → Type 0) (w : World) (d : Disk) (m : Step A)
    (f : A → Step B)
    → Ends Q m w d
    → Yields P m w d
    → ((a : A) (d' : Disk) → P a d' → Ends Q (f a) w d')
    → Ends Q (m >>= f) w d
bind-Ends {A} {B} {P} Q w d m f k y next = record { ends = joined (m.run w d) k.ends y.at }
  where
    joined : (r : Result A × Disk) → Q r.1 → ((a : A) → r.0 ≡ ok a → P a r.1) → Q (after f w r).1
    joined (ok a, d') q p = (next a d' (p a refl)).ends
    joined (err x, d') q p = q

pub if-Ends :
    {A : Type 0} (Q : Disk → Type 0) (w : World) (d : Disk) (b : Bool) (m n : Step A)
    → (b ≡ true → Ends Q m w d)
    → (b ≡ false → Ends Q n w d)
    → Ends Q (if b then m else n) w d
if-Ends Q w d true m n k k' = k refl
if-Ends Q w d false m n k k' = k' refl

pub still-Ends :
    {A : Type 0} (Q : Disk → Type 0) (w : World) (d : Disk) (r : Result A)
    → Q d
    → Ends Q (lift r) w d
still-Ends Q w d r q = record { ends = q }

pub must-Ends :
    (Q : Disk → Type 0) (w : World) (d : Disk) (c : Call) (s : String)
    → Q (called c d)
    → Ends Q (must c s) w d
must-Ends Q w d c s q = record { ends = answered (w.answer c d.history) }
  where
    answered : (x : Answer) → Q ((succeed s x).run w (called c d)).1
    answered yes = q
    answered no = q
    answered lost = q

pub change-Ends :
    (Q : Disk → Type 0) (w : World) (d : Disk) (c : Call) (f : Disk → Disk)
    → Q (called c d)
    → Q (f (called c d))
    → Ends Q (change c f) w d
change-Ends Q w d c f q q' = record { ends = answered (w.answer c d.history) }
  where
    answered : (x : Answer) → Q (written c f x d).1
    answered yes = q'
    answered no = q
    answered lost = q'
