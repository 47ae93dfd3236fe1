-- ===== src/Prelude/Lists.antt =====
-- Lists over native numbers, predicates on their items, rows that are changed or counted by a test.
use Prim.Native.Nat.{ℕ, zero, suc, ◌+◌, ◌≤◌}
use mathlib.Core.Path.{◌≡◌, refl, subst}
use mathlib.Core.Logic.{inl, inr}
use mathlib.Core.Bool.{Bool, true, false, ◌&&◌, ◌||◌}
use mathlib.Core.Option.{Option, none, some, some-injective}
use mathlib.Core.List.{List, [], ◌∷◌, ◌++◌}
use native.Mathlib.Omega.{arith}
use lab_gate.Prelude.Tests.{if◌then◌else◌, Bool-cases}

module _ {ℓ} {A : Type ℓ} where
  abbrev pub length : List A → ℕ
  length [] = 0
  length (x ∷ xs) = suc (length xs)

  abbrev pub take : ℕ → List A → List A
  take zero xs = []
  take (suc n) [] = []
  take (suc n) (x ∷ xs) = x ∷ take n xs

  abbrev pub drop : ℕ → List A → List A
  drop zero xs = xs
  drop (suc n) [] = []
  drop (suc n) (x ∷ xs) = drop n xs

  -- Some item passes the test; every item does.
  abbrev pub any : (A → Bool) → List A → Bool
  any p [] = false
  any p (x ∷ xs) = p x || any p xs

  abbrev pub all : (A → Bool) → List A → Bool
  all p [] = true
  all p (x ∷ xs) = p x && all p xs

  -- The items that pass a test, the first of them, and how many there are.
  abbrev pub select : (A → Bool) → List A → List A
  select p [] = []
  select p (x ∷ xs) = if p x then x ∷ select p xs else select p xs

  abbrev pub first : (A → Bool) → List A → Option A
  first p [] = none
  first p (x ∷ xs) = if p x then some x else first p xs

  abbrev pub count : (A → Bool) → List A → ℕ
  count p [] = 0
  count p (x ∷ xs) = if p x then suc (count p xs) else count p xs

  -- The items that pass the test are changed, in place.
  abbrev pub update : (A → Bool) → (A → A) → List A → List A
  update p f [] = []
  update p f (x ∷ xs) = (if p x then f x else x) ∷ update p f xs

  abbrev pub All {κ} : (A → Type κ) → List A → Type κ
  All P [] = Unit
  All P (x ∷ xs) = P x × All P xs

module _ {ℓ κ} {A : Type ℓ} (P : A → Type κ) where
  pub All-mono {ι} : (Q : A → Type ι) (h : (a : A) → P a → Q a) (xs : List A) → All P xs → All Q xs
  All-mono Q h [] a = tt
  All-mono Q h (x ∷ xs) (a, b) = (h x a, All-mono Q h xs b)

  pub All-append : (xs ys : List A) → All P xs → All P ys → All P (xs ++ ys)
  All-append [] ys a b = b
  All-append (x ∷ xs) ys (p, a) b = (p, All-append xs ys a b)

  -- What passes keeps `P` through the change, what does not is as it was.
  pub All-update {ι} :
      (Q : A → Type ι) (p : A → Bool) (f : A → A)
      → ((a : A) → P a → p a ≡ true → Q (f a))
      → ((a : A) → P a → p a ≡ false → Q a)
      → (xs : List A) → All P xs
      → All Q (update p f xs)
  All-update Q p f hit miss [] a = tt
  All-update Q p f hit miss (x ∷ xs) (h, a) = (step (p x) refl, All-update Q p f hit miss xs a)
    where
      step : (b : Bool) → p x ≡ b → Q (if b then f x else x)
      step true e = hit x h e
      step false e = miss x h e

  pub All-first : (p : A → Bool) (xs : List A) (a : A) → All P xs → first p xs ≡ some a → P a
  All-first p [] a h e = cc
  All-first p (x ∷ xs) a (h, t) e = elim (Bool-cases (p x)) [
    | inl hit ↦ subst P (some-injective x a (rw hit at e)) h
    | inr miss ↦ All-first p xs a t (rw miss at e)
  ]

module _ {ℓ} {A : Type ℓ} where
  pub first-eq-some : (p : A → Bool) (xs : List A) {a : A} → first p xs ≡ some a → p a ≡ true
  first-eq-some p [] e = cc
  first-eq-some p (x ∷ xs) {a} e = elim (Bool-cases (p x)) [
    | inl hit ↦ subst (λ y. p y ≡ true) (some-injective x a (rw hit at e)) hit
    | inr miss ↦ first-eq-some p xs {a = a} (rw miss at e)
  ]

  -- Where one row passes, the first that does is found.
  pub count-first :
      (p : A → Bool) (xs : List A) {n : ℕ} → count p xs ≡ suc n → (a : A) × (first p xs ≡ some a)
  count-first p [] h = absurd (omega arith)
  count-first p (x ∷ xs) {n} h = elim (Bool-cases (p x)) [
    | inl hit ↦ (x, rw hit)
    | inr miss ↦ rw miss (count-first p xs {n = n} (rw miss at h))
  ]

pub All-both {ℓ κ ι} :
    {A : Type ℓ} (P : A → Type κ) (Q : A → Type ι) (xs : List A)
    → All P xs
    → All Q xs
    → All (λ a. P a × Q a) xs
All-both P Q [] a b = tt
All-both P Q (x ∷ xs) (p, a) (q, b) = ((p, q), All-both P Q xs a b)

module _ {ℓ} {A : Type ℓ} where
  pub count-none : (p : A → Bool) (xs : List A) → All (λ a. p a ≡ false) xs → count p xs ≡ 0
  count-none p [] h = refl
  count-none p (x ∷ xs) (h, t) = rw h (count-none p xs t)

  pub count-append_one :
      (p : A → Bool) (xs : List A) (a : A) → p a ≡ true → 1 ≤ count p (xs ++ a ∷ [])
  count-append_one p [] a h = rw h (omega arith)
  count-append_one p (x ∷ xs) a h = elim (Bool-cases (p x)) [
    | inl hit ↦ rw hit (omega arith)
    | inr miss ↦ rw miss (count-append_one p xs a h)
  ]

module _ {ℓ} {A : Type ℓ} where
  -- Of the items that pass one test, as many pass another as the other way round.
  pub count-select : (p q : A → Bool) (xs : List A) → count p (select q xs) ≡ count q (select p xs)
  count-select p q [] = refl
  count-select p q (x ∷ xs) = ground (arith, count-select p q xs)

  -- At most `n` items stand before those that `drop n` leaves.
  pub count-drop : (p : A → Bool) (n : ℕ) (xs : List A) → count p xs ≤ n + count p (drop n xs)
  count-drop p zero xs = omega arith
  count-drop p (suc n) [] = omega arith
  count-drop p (suc n) (x ∷ xs) = ground (arith, count-drop p n xs)

  pub All-select {κ} :
      (P : A → Type κ) (p : A → Bool) (xs : List A) → All P xs → All P (select p xs)
  All-select P p [] a = tt
  All-select P p (x ∷ xs) (h, a) = ground (arith, h, All-select P p xs a)
