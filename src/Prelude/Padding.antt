-- ===== src/Prelude/Padding.antt =====
-- The order of texts, and numbers that are printed with leading zeros.
use Prim.Native.Nat.{ℕ, zero, suc, ◌+◌, ◌-◌, ◌*◌, ◌/◌, ◌%◌, ◌<◌, ◌^◌}
use mathlib.Core.Path.{◌≡◌, refl, ◌∙◌, ap, subst}
use mathlib.Core.Bool.{Bool, true, false, ◌&&◌, ◌||◌}
use mathlib.Core.List.{[], ◌∷◌, ◌++◌}
use native.Mathlib.Nat.{pow-suc}
use native.Mathlib.Omega.{arith}
use lab_gate.Prelude.Tests.{ltb, ◌==◌, nat_eq}
use lab_gate.Prelude.Lists.{length, all}
use lab_gate.Prelude.Bytes.{Text, is_digit}
use lab_gate.Prelude.Decimal.{value, value_from}

-- The order of texts, byte by byte, as of `strings.Compare`: whether `s` comes before `t` or is `t`.
unfoldable pub precedes : Text → Text → Bool
precedes [] t = true
precedes (c ∷ s) [] = false
precedes (c ∷ s) (d ∷ t) = ltb c d || c == d && precedes s t

-- The last `k` digits of a number, before `rest`: `%0kd` of a number that has no more.
unfoldable pub padded : ℕ → ℕ → Text → Text
padded zero n rest = rest
padded (suc k) n rest = padded k (n / 10) ((48 + n % 10) ∷ rest)

tenth : (k n : ℕ) → n < 10 ^ suc k → n / 10 < 10 ^ k
tenth k n h = let bound : n < 10 ^ k * 10 = subst (λ z. n < z) (pow-suc 10 k) h in omega arith

padded-value_from :
    (k n : ℕ) (rest : Text) → n < 10 ^ k → value_from 0 (padded k n rest) ≡ value_from n rest
unfolding padded value_from
padded-value_from zero n rest h = ap (λ (m : ℕ). value_from m rest) (omega arith)
padded-value_from (suc k) n rest h =
    padded-value_from k (n / 10) ((48 + n % 10) ∷ rest) (tenth k n h)
    ∙ ap (λ (m : ℕ). value_from m rest) (omega arith)

pub value-padded : (k n : ℕ) → n < 10 ^ k → value (padded k n []) ≡ n
unfolding value value_from
value-padded k n h = padded-value_from k n [] h

pub padded_are_digits :
    (k n : ℕ) (rest : Text) → all is_digit rest ≡ true → all is_digit (padded k n rest) ≡ true
unfolding padded
padded_are_digits zero n rest h = h
padded_are_digits (suc k) n rest h =
    padded_are_digits k (n / 10) ((48 + n % 10) ∷ rest) (ground arith)

pub length-padded : (k n : ℕ) (rest : Text) → length (padded k n rest) ≡ k + length rest
unfolding padded
length-padded zero n rest = omega arith
length-padded (suc k) n rest = omega (arith, length-padded k (n / 10) ((48 + n % 10) ∷ rest))

-- A smaller number before the digits stays smaller behind as many digits.
value_from-lt :
    (m n : ℕ) (s t : Text)
    → m < n
    → length s ≡ length t
    → all is_digit s ≡ true
    → all is_digit t ≡ true
    → value_from m s < value_from n t
unfolding value_from
value_from-lt m n [] [] h e a b = h
value_from-lt m n [] (d ∷ t) h e a b = absurd (omega arith)
value_from-lt m n (c ∷ s) [] h e a b = absurd (omega arith)
value_from-lt m n (c ∷ s) (d ∷ t) h e a b =
    value_from-lt (m * 10 + (c - 48)) (n * 10 + (d - 48)) s t (ground arith) (omega arith)
      (ground arith) (ground arith)

precedes-from :
    (m : ℕ) (s t : Text)
    → length s ≡ length t
    → all is_digit s ≡ true
    → all is_digit t ≡ true
    → value_from m s < value_from m t
    → precedes s t ≡ true
unfolding precedes value_from
precedes-from m [] t e a b h = refl
precedes-from m (c ∷ s) [] e a b h = absurd (omega arith)
precedes-from m (c ∷ s) (d ∷ t) e a b h = ground (
  arith,
  precedes-from (m * 10 + (c - 48)) s t,
  value_from-lt (m * 10 + (d - 48)) (m * 10 + (c - 48)) t s,
)

-- Of two numerals with as many digits, that of the smaller number comes first.
pub precedes-numerals :
    (s t : Text)
    → length s ≡ length t
    → all is_digit s ≡ true
    → all is_digit t ≡ true
    → value s < value t
    → precedes s t ≡ true
unfolding value
precedes-numerals s t e a b h = precedes-from 0 s t e a b h

pub precedes-append : (p s t : Text) → precedes s t ≡ true → precedes (p ++ s) (p ++ t) ≡ true
unfolding precedes
precedes-append [] s t h = h
precedes-append (c ∷ p) s t h = ground (arith, precedes-append p s t)
