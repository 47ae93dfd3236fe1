-- ===== src/Machine/Runtime/Burial.antt =====
-- The tombstones of an endpoint, and the record of a revoked generation.
use lab_gate.Prelude.{
  ℕ, Text, true, not, ◌==◌, text_eq, ◌≡◌, refl, ap, ◌∙◌, sym, ltb, String, Result, ok, err,
  Bool-cases, inl, inr, arith, ==_self,
}
use lab_gate.Core.Identity.{credential_id}
use lab_gate.Machine.State.{revoked, State}
use lab_gate.Machine.Runtime.{
  File, absent, unreadable, holds, Call, write, tombstone_file, clock, Answer, yes, no, lost, Disk,
  World, Step, ◌>>=◌, after, done, failed, outcome, ask, now, look, change, written, bury,
  put_tombstone, tombstone, called,
}

-- The generation of a revoked record has a tombstone.
abbrev pub IsBuried : Disk → Type 0
IsBuried d =
    (s : State) → d.state ≡ holds s → s.phase ≡ revoked → (t : ℕ) × (d.tombstones s.id ≡ holds t)

pub record IsKept (d d' : Disk) : Type 0 where
  pub stays : (id : Text) (t : ℕ) → d.tombstones id ≡ holds t → d'.tombstones id ≡ holds t
  pub buried : IsBuried d → IsBuried d'

pub IsKept-refl : (d : Disk) → IsKept d d
IsKept-refl d = record { stays = λ id t e. e; buried = λ b. b }

pub IsKept-trans : (d d' d'' : Disk) → IsKept d d' → IsKept d' d'' → IsKept d d''
IsKept-trans d d' d'' k k' = record {
  stays = λ id t e. k'.stays id t (k.stays id t e);
  buried = λ b. k'.buried (k.buried b);
}

-- A disk with the same record and the same tombstones.
pub IsKept-same : (d d' : Disk) → d'.state ≡ d.state → d'.tombstones ≡ d.tombstones → IsKept d d'
IsKept-same d d' e f = record {
  stays = λ id t h. ap (λ g. g id) f ∙ h;
  buried = λ b s h p. let (t, x) = b s (sym e ∙ h) p in (t, ap (λ g. g s.id) f ∙ x);
}

-- A step that keeps them, and after which `Q` holds if it does not fail.
pub record Keeps {A : Type 0} (Q : A → Disk → Type 0) (m : Step A) : Type 0 where
  pub kept : (w : World) (d : Disk) → IsKept d (m.run w d).1
  pub gives : (w : World) (d : Disk) (a : A) → (m.run w d).0 ≡ ok a → Q a (m.run w d).1

abbrev pub Any : {A : Type 0} → A → Disk → Type 0
Any a d = Unit {0}

module _ {A : Type 0} where
  pub done-Keeps : (a : A) → Keeps Any (done a)
  done-Keeps a = record { kept = λ w d. IsKept-refl d; gives = λ w d b e. tt }

  pub failed-Keeps : (Q : A → Disk → Type 0) (s : String) → Keeps Q (failed s)
  failed-Keeps Q s = record { kept = λ w d. IsKept-refl d; gives = λ w d b e. cc }

  pub look-Keeps : (f : Disk → A) → Keeps (λ a d. f d ≡ a) (look f)
  look-Keeps f = record { kept = λ w d. IsKept-refl d; gives = λ w d b e. cc }

  pub outcome-Keeps : (Q : A → Disk → Type 0) (m : Step A) → Keeps Q m → Keeps Any (outcome m)
  outcome-Keeps Q m k = record { kept = λ w d. k.kept w d; gives = λ w d b e. tt }

pub ask-Keeps : (c : Call) → Keeps Any (ask c)
ask-Keeps c = record { kept = λ w d. IsKept-same d (called c d) refl refl; gives = λ w d b e. tt }

pub now-Keeps : Keeps Any now
now-Keeps = record { kept = λ w d. IsKept-same d (called clock d) refl refl; gives = λ w d b e. tt }

-- A sequence, whose second step may use what the first gives.
pub bind-Keeps :
    {A B : Type 0} {P : A → Disk → Type 0} (Q : B → Disk → Type 0) (m : Step A) (f : A → Step B)
    → Keeps P m
    → ((a : A) (w : World) (d : Disk)
        → P a d
        → IsKept d ((f a).run w d).1 × ((b : B) → ((f a).run w d).0 ≡ ok b → Q b ((f a).run w d).1))
    → Keeps Q (m >>= f)
bind-Keeps {A} {B} {P} Q m f k next = record {
  kept = λ w d. (joined w d (m.run w d) (k.kept w d) (k.gives w d)).0;
  gives = λ w d b e. (joined w d (m.run w d) (k.kept w d) (k.gives w d)).1 b e;
}
  where
    joined :
        (w : World) (d : Disk) (r : Result A × Disk)
        → IsKept d r.1
        → ((a : A) → r.0 ≡ ok a → P a r.1)
        → IsKept d (after f w r).1 × ((b : B) → (after f w r).0 ≡ ok b → Q b (after f w r).1)
    joined w d (ok a, d') one p =
        let (two, q) = next a w d' (p a refl) in (IsKept-trans d d' ((f a).run w d').1 one two, q)
    joined w d (err e, d') one p = (one, λ b h. cc)

-- The same, where nothing of the first step is used but its value.
pub then-Keeps :
    {A B : Type 0} {P : A → Disk → Type 0} (Q : B → Disk → Type 0) (m : Step A) (f : A → Step B)
    → Keeps P m
    → ((a : A) → Keeps Q (f a))
    → Keeps Q (m >>= f)
then-Keeps Q m f k next = bind-Keeps Q m f k λ a w d _. ((next a).kept w d, (next a).gives w d)

-- A write that keeps them whenever it takes place.
pub written-Keeps :
    (Q : Disk → Type 0) (c : Call) (f : Disk → Disk) (x : Answer) (d : Disk)
    → IsKept d (f (called c d))
    → Q (f (called c d))
    → IsKept d (written c f x d).1
      × ((u : Unit {0}) → (written c f x d).0 ≡ ok u → Q (written c f x d).1)
written-Keeps Q c f yes d k q = (k, λ u e. q)
written-Keeps Q c f no d k q = (IsKept-same d (called c d) refl refl, λ u e. cc)
written-Keeps Q c f lost d k q = (k, λ u e. cc)

-- A write of a file that is no record and no tombstone.
pub change-Keeps :
    (c : Call) (f : Disk → Disk)
    → ((d : Disk) → (f d).state ≡ d.state)
    → ((d : Disk) → (f d).tombstones ≡ d.tombstones)
    → Keeps Any (change c f)
change-Keeps c f e e' = record {
  kept = λ w d.
      (written-Keeps (λ d'. Unit {0}) c f (w.answer c d.history) d
        (IsKept-same d (f (called c d)) (e (called c d)) (e' (called c d))) tt).0;
  gives = λ w d u h. tt;
}

-- A generation that has a tombstone.
abbrev pub Buried : Text → Disk → Type 0
Buried id d = (t : ℕ) × (d.tombstones id ≡ holds t)

bury-IsKept : (id : Text) (t : ℕ) (d : Disk) → d.tombstones id ≡ absent → IsKept d (bury id t d)
bury-IsKept id t d e = record {
  stays = λ x n h. elim (Bool-cases (x == id)) [
    | inl same ↦ absurd (unearthed x n h same)
    | inr other ↦ rw other h
  ];
  buried = λ b s h p. elim (Bool-cases (s.id == id)) [
    | inl same ↦ (t, rw same refl)
    | inr other ↦ (let (n, k) = b s h p in (n, rw other k))
  ];
}
  where
    unearthed : (x : Text) (n : ℕ) → d.tombstones x ≡ holds n → (x == id) ≡ true → ⊥
    unearthed x n h same = ground (arith, e, h, same)

tombstone_written :
    (id : Text) (t : ℕ) (x : Answer) (d : Disk)
    → d.tombstones id ≡ absent
    → IsKept d (written (write (tombstone_file id)) (bury id t) x d).1
      × ((u : Unit {0})
          → (written (write (tombstone_file id)) (bury id t) x d).0 ≡ ok u
          → Buried id (written (write (tombstone_file id)) (bury id t) x d).1)
tombstone_written id t x d e =
    let asked : Disk = called (write (tombstone_file id)) d in
    written-Keeps (Buried id) (write (tombstone_file id)) (bury id t) x d
      (IsKept-trans d asked _ (IsKept-same d asked refl refl) (bury-IsKept id t asked e))
      (t, rw (==_self id) refl)

put_tombstone-Keeps :
    (id : Text) (x : File ℕ) (w : World) (d : Disk)
    → d.tombstones id ≡ x
    → IsKept d ((put_tombstone id x).run w d).1
      × ((u : Unit {0})
          → ((put_tombstone id x).run w d).0 ≡ ok u
          → Buried id ((put_tombstone id x).run w d).1)
put_tombstone-Keeps id (holds n) w d e = elim (Bool-cases (ltb 0 n)) [
  | inl valid ↦ rw valid (IsKept-refl d, λ u h. (n, e))
  | inr corrupt ↦ rw corrupt (IsKept-refl d, λ u h. cc)
]
put_tombstone-Keeps id unreadable w d e = (IsKept-refl d, λ u h. cc)
put_tombstone-Keeps id absent w d e =
    let told : Disk = called clock d in
    let (kept, buried) =
      tombstone_written id (w.time d.history) (w.answer (write (tombstone_file id)) told.history)
        told e in
    (IsKept-trans d told _ (IsKept-same d told refl refl) kept, buried)

pub tombstone-Keeps : (id : Text) → Keeps (λ u. Buried id) (tombstone id)
unfolding tombstone
tombstone-Keeps id = elim (Bool-cases (not (credential_id id))) [
  | inl bad ↦ rw bad (failed-Keeps (λ u. Buried id) "invalid generation")
  | inr good ↦ rw good (
      bind-Keeps (λ u. Buried id) (look (λ d. d.tombstones id)) (put_tombstone id)
        (look-Keeps (λ d. d.tombstones id)) (put_tombstone-Keeps id))
]
