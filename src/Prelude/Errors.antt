-- ===== src/Prelude/Errors.antt =====
-- Errors as values: the errors that the server's operations return, and a chain of fallible steps.
use Prim.Native.String.{String}
use Prim.Native.Nat.{ℕ}
use lab_gate.Prelude.Tests.{if◌then◌else◌}
use mathlib.Core.Path.{◌≡◌, refl, ap, subst}
use mathlib.Core.Bool.{Bool, true, false}

infixl 5 ◌>>=◌
-- `fail` carries the HTTP status of a `core.Error`; `io` is a fault of the database.
pub data Error : Type 0 where
  fail : ℕ → String → Error
  unique no_rows io : Error
  other : String → Error

pub data Result {ℓ} (A : Type ℓ) : Type ℓ where
  err : Error → Result A
  ok : A → Result A

abbrev value_or {ℓ} : {A : Type ℓ} → A → Result A → A
value_or d (ok a) = a
value_or d (err e) = d

-- The next step runs on the value, and an error ends the chain.
abbrev pub ◌>>=◌ {ℓ κ} : {A : Type ℓ} {B : Type κ} → Result A → (A → Result B) → Result B
err e >>= f = err e
ok a >>= f = f a

pub ok-injective {ℓ} : {A : Type ℓ} (a b : A) → ok a ≡ ok b → a ≡ b
ok-injective a b e = ap (value_or a) e

-- A guarded result that is a value has passed its guard.
pub passes {ℓ} :
    {A : Type ℓ} (b : Bool) (e : Error) (r : Result A) (x : A)
    → (if b then r else err e) ≡ ok x
    → (b ≡ true) × (r ≡ ok x)
passes true e r x h = (refl, h)
passes false e r x h = cc

pub refuses_not {ℓ} :
    {A : Type ℓ} (b : Bool) (e : Error) (r : Result A) (x : A)
    → (if b then err e else r) ≡ ok x
    → (b ≡ false) × (r ≡ ok x)
refuses_not true e r x h = cc
refuses_not false e r x h = (refl, h)

-- What holds of a value, if one is returned.
pub record Ensures {ℓ κ} {A : Type ℓ} (Q : A → Type κ) (r : Result A) : Type (ℓ ⊔ κ) where
  pub at : (a : A) → r ≡ ok a → Q a

module _ {ℓ κ} {A : Type ℓ} (Q : A → Type κ) where
  pub Ensures-ok : (a : A) → Q a → Ensures Q (ok a)
  Ensures-ok a q = record { at = λ b e. subst Q (ok-injective a b e) q }

  pub Ensures-err : (e : Error) → Ensures Q (err e)
  Ensures-err e = record { at = λ b h. cc }

  pub Ensures-if :
      (b : Bool) (m n : Result A)
      → (b ≡ true → Ensures Q m)
      → (b ≡ false → Ensures Q n)
      → Ensures Q (if b then m else n)
  Ensures-if true m n km kn = km refl
  Ensures-if false m n km kn = kn refl

  pub Ensures-bind {ι} :
      {B : Type ι} (m : Result B) (f : B → Result A)
      → ((b : B) → m ≡ ok b → Ensures Q (f b))
      → Ensures Q (m >>= f)
  Ensures-bind (ok b) f k = k b refl
  Ensures-bind (err e) f k = Ensures-err e

-- The same, where the first step is known by what it ensures.
pub Ensures-then {ℓ κ ι ν} :
    {A : Type ℓ} {B : Type ι} {P : B → Type ν} (Q : A → Type κ) {m : Result B} {f : B → Result A}
    → Ensures P m
    → ((b : B) → P b → Ensures Q (f b))
    → Ensures Q (m >>= f)
Ensures-then Q {m = ok b} {f} p k = k b (p.at b refl)
Ensures-then Q {m = err e} {f} p k = Ensures-err Q e
