-- ===== src/Prelude/Decimal.antt =====
-- Decimal numerals: what `fmt.Sprint` prints of a number that is not negative, and its reading.
use Prim.Native.Nat.{ℕ, zero, suc, ◌+◌, ◌-◌, ◌*◌, ◌/◌, ◌%◌, ◌≤◌, ◌<◌, ◌^◌}
use mathlib.Core.Path.{◌≡◌, refl, ◌∙◌, ap, subst}
use mathlib.Core.Bool.{true}
use mathlib.Core.Option.{Option, none, some}
use mathlib.Core.List.{[], ◌∷◌}
use native.Mathlib.Nat.{pow-suc}
use native.Mathlib.Omega.{arith}
use mathlib.Core.Bool.{◌&&◌}
use lab_gate.Prelude.Tests.{ltb, if◌then◌else◌, Bool-cases, ◌==◌, nat_eq}
use mathlib.Core.Logic.{inl, inr}
use lab_gate.Prelude.Lists.{length, all}
use lab_gate.Prelude.Bytes.{Text, is_digit}

-- The digits of `n`, before those of `rest`. A number has at most as many digits as its fuel, which
-- is `suc n`.
digits : ℕ → ℕ → Text → Text
digits zero n rest = rest
digits (suc fuel) n rest =
    let more = digits fuel (n / 10) ((48 + n % 10) ∷ rest) in
    if ltb n 10 then (48 + n) ∷ rest else more

unfoldable pub print : ℕ → Text
unfolding digits
print n = digits (suc n) n []

-- The number that a run of digits stands for, after `n`.
unfoldable pub value_from : ℕ → Text → ℕ
value_from n [] = n
value_from n (c ∷ s) = value_from (n * 10 + (c - 48)) s

unfoldable pub value : Text → ℕ
unfolding value_from
value = value_from 0

digits-value :
    (fuel n : ℕ) (rest : Text) → n < fuel → value_from 0 (digits fuel n rest) ≡ value_from n rest
unfolding digits value_from
digits-value zero n rest h = absurd (omega arith)
digits-value (suc fuel) n rest h = elim (Bool-cases (ltb n 10)) [
  | inl small ↦ rw small (ap (λ (k : ℕ). value_from k rest) (omega arith))
  | inr big ↦ rw big (
      digits-value fuel (n / 10) ((48 + n % 10) ∷ rest) (ground arith)
      ∙ ap (λ (k : ℕ). value_from k rest) (omega arith))
]

-- A number is read back as it was printed.
pub value-print : (n : ℕ) → value (print n) ≡ n
unfolding value print value_from
value-print n = digits-value (suc n) n [] (omega arith)

digits_are_digits :
    (fuel n : ℕ) (rest : Text)
    → n < fuel
    → all is_digit rest ≡ true
    → all is_digit (digits fuel n rest) ≡ true
unfolding digits
digits_are_digits zero n rest h r = r
digits_are_digits (suc fuel) n rest h r = elim (Bool-cases (ltb n 10)) [
  | inl small ↦ rw small (ground arith)
  | inr big ↦
      rw big (digits_are_digits fuel (n / 10) ((48 + n % 10) ∷ rest) (ground arith) (ground arith))
]

shorter : (n k : ℕ) → n < 10 ^ suc (suc k) → n / 10 < 10 ^ suc k
shorter n k h =
    let bound : n < 10 ^ suc k * 10 = subst (λ z. n < z) (pow-suc 10 (suc k)) h in omega arith

digits-length :
    (fuel n k : ℕ) (rest : Text)
    → n < 10 ^ suc k
    → length (digits fuel n rest) ≤ suc k + length rest
unfolding digits
digits-length zero n k rest h = omega arith
digits-length (suc fuel) n zero rest h = ground arith
digits-length (suc fuel) n (suc k) rest h = elim (Bool-cases (ltb n 10)) [
  | inl small ↦ rw small (omega arith)
  | inr big ↦
      rw big (omega (arith, digits-length fuel (n / 10) k ((48 + n % 10) ∷ rest) (shorter n k h)))
]

digits-ne-nil : (fuel n : ℕ) (c : ℕ) (rest : Text) → 1 ≤ length (digits fuel n (c ∷ rest))
unfolding digits
digits-ne-nil zero n c rest = omega arith
digits-ne-nil (suc fuel) n c rest =
    ground (arith, digits-ne-nil fuel (n / 10) (48 + n % 10) (c ∷ rest))

pub print_are_digits : (n : ℕ) → all is_digit (print n) ≡ true
unfolding print
print_are_digits n = digits_are_digits (suc n) n [] (omega arith) refl

-- A number below a power of ten has as many digits at most.
pub length-print : (n k : ℕ) → n < 10 ^ suc k → length (print n) ≤ suc k
unfolding print
length-print n k h = omega (arith, digits-length (suc n) n k [] h)

pub print-ne-nil : (n : ℕ) → 1 ≤ length (print n)
unfolding print digits
print-ne-nil n = ground (arith, digits-ne-nil n (n / 10) (48 + n % 10) [])

-- `strconv.Atoi` of a number that is not negative, with or without its sign; a number that is no
-- int64 is an error.
abbrev pub digits_value : Text → Option ℕ
digits_value [] = none
digits_value (c ∷ s) =
    if all is_digit (c ∷ s) && ltb (value (c ∷ s)) (2 ^ 63) then some (value (c ∷ s)) else none

abbrev pub atoi : Text → Option ℕ
atoi [] = none
atoi (c ∷ s) = if c == b'+' then digits_value s else digits_value (c ∷ s)
