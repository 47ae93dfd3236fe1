-- ===== src/Core/Provision/Issuable.antt =====
-- The passwords that internal/core/core.go draws, under the test of internal/core/provision.go.
use lab_gate.Prelude.{
  ℕ, zero, suc, ◌≤◌, Text, [], ◌∷◌, Option, none, some, true, false, not, ◌==◌, nat_eq, ◌≡◌, refl,
  ap, subst, length, all, any, count_byte, ok, ok-injective, Ensures, Ensures-ok, Ensures-err,
  Ensures-then, arith,
}
use lab_gate.Core.Password.{chars, char_at, draw, password}
use lab_gate.Core.Provision.{issuable_chars, is_issuable}

abbrev Drawn : ℕ → Type 0
Drawn c = (count_byte c issuable_chars == 0) ≡ false

counted_char : (s : Text) (i c : ℕ) → char_at s i ≡ ok c → (count_byte c s == 0) ≡ false
unfolding char_at nat_eq
counted_char [] i c h = cc
counted_char (b ∷ s) zero c h =
    subst (λ x. (count_byte x (b ∷ s) == 0) ≡ false) (ok-injective b c h) (ground arith)
counted_char (b ∷ s) (suc i) c h = ground (arith, counted_char s i c h)

counted_in :
    (s t : Text) (c : ℕ)
    → all (λ b. not (count_byte b t == 0)) s ≡ true
    → (count_byte c s == 0) ≡ false
    → (count_byte c t == 0) ≡ false
unfolding nat_eq
counted_in [] t c a h = cc
counted_in (b ∷ s) t c a h = ground (arith, counted_in s t c)

chars_are_issuable : all (λ b. not (count_byte b issuable_chars == 0)) chars ≡ true
unfolding chars issuable_chars nat_eq
chars_are_issuable = refl

draw-Drawn : (v : Option ℕ) → Ensures Drawn (draw v)
unfolding draw
draw-Drawn none = Ensures-err Drawn _
draw-Drawn (some v) = record {
  at = λ c h. counted_in chars issuable_chars c chars_are_issuable (counted_char chars v c h);
}

-- As many characters as were asked for, each of the set.
record Good (n : ℕ) (p : Text) : Type 0 where
  sized : length p ≡ n
  drawn : any (λ c. count_byte c issuable_chars == 0) p ≡ false

password-Good : (draws : ℕ → Option ℕ) (i n : ℕ) → Ensures (Good n) (password draws i n)
unfolding password
password-Good draws i zero = Ensures-ok (Good zero) [] (record { sized = refl; drawn = refl })
password-Good draws i (suc n) = Ensures-then (Good (suc n)) (draw-Drawn (draws i)) (λ c d.
    Ensures-then (Good (suc n)) (password-Good draws (suc i) n) (λ rest g.
      Ensures-ok (Good (suc n)) (c ∷ rest)
        (record { sized = ap suc g.sized; drawn = ground (arith, d, g.drawn) })))

-- A password that is drawn with five to 128 characters is one that `SSH.Issue` sends, and it has as
-- many characters as were asked for.
pub password-is_issuable :
    (draws : ℕ → Option ℕ) (n : ℕ) (p : Text)
    → 5 ≤ n
    → n ≤ 128
    → password draws 0 n ≡ ok p
    → (is_issuable p ≡ true) × (length p ≡ n)
unfolding is_issuable
password-is_issuable draws n p low high h =
    let e = password-Good draws 0 n in
    let g = e.at p h in (ground (arith, g.sized, g.drawn), g.sized)
