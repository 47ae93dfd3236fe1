-- ===== src/Prelude/Bytes.antt =====
-- Go strings as lists of bytes, and the tests on characters that the program's patterns use.
use Prim.Native.Char.{code}
use Prim.Native.String.{String}
use Prim.Native.Nat.{ℕ, zero, suc, ◌+◌, ◌-◌}
use mathlib.Core.Bool.{Bool, true, false, ◌&&◌, ◌||◌}
use mathlib.Core.List.{List, [], ◌∷◌, ◌++◌, map, append_assoc}
use mathlib.Core.Path.{◌≡◌, refl, sym, ◌∙◌, ap}
use mathlib.Core.Logic.{◌≢◌, inl, inr}
use native.Mathlib.Omega.{arith}
use lab_gate.Prelude.Tests.{leb, ◌==◌, ◌!=◌, nat_eq, text_eq, if◌then◌else◌, Bool-cases, ==_iff}
use lab_gate.Prelude.Lists.{length, count, all, All}

abbrev pub Text : Type 0
Text = List ℕ

-- The bytes of an ASCII literal.
abbrev pub codes : String → Text
codes String.[] = []
codes (String.◌∷◌ c s) = code c ∷ codes s

abbrev pub is_digit : ℕ → Bool
is_digit c = leb b'0' c && leb c b'9'

abbrev pub is_upper : ℕ → Bool
is_upper c = leb b'A' c && leb c b'Z'

abbrev pub is_lower : ℕ → Bool
is_lower c = leb b'a' c && leb c b'z'

abbrev pub is_alnum : ℕ → Bool
is_alnum c = is_upper c || is_lower c || is_digit c

-- `strings.ToLower` and SQLite's LOWER, which agree on ASCII.
abbrev pub lower_byte : ℕ → ℕ
lower_byte c = if is_upper c then c + 32 else c

unfoldable pub lower : Text → Text
lower = map lower_byte

abbrev pub drop_bytes : ℕ → Text → Text
drop_bytes zero s = s
drop_bytes (suc n) [] = []
drop_bytes (suc n) (c ∷ s) = drop_bytes n s

-- `strings.HasSuffix`, `strings.HasPrefix` and `strings.Count` of one byte.
unfoldable pub has_suffix : Text → Text → Bool
has_suffix s t = leb (length t) (length s) && drop_bytes (length s - length t) s == t

unfoldable pub has_prefix : Text → Text → Bool
has_prefix s [] = true
has_prefix [] (c ∷ t) = false
has_prefix (b ∷ s) (c ∷ t) = b == c && has_prefix s t

abbrev pub count_byte : ℕ → Text → ℕ
count_byte b s = count (λ c. c == b) s

-- `strings.Split` at one byte, and `strings.Join` with one.
abbrev pub cons_head : ℕ → List Text → List Text
cons_head c [] = (c ∷ []) ∷ []
cons_head c (p ∷ ps) = (c ∷ p) ∷ ps

unfoldable pub split : ℕ → Text → List Text
split b [] = [] ∷ []
split b (c ∷ s) = let rest = split b s in if c == b then [] ∷ rest else cons_head c rest

unfoldable pub join : ℕ → List Text → Text
join b [] = []
join b (p ∷ []) = p
join b (p ∷ q ∷ ps) = p ++ b ∷ join b (q ∷ ps)

abbrev pub Lacks : ℕ → Text → Type 0
Lacks b s = all (λ c. c != b) s ≡ true

split-ne-nil : (b : ℕ) (s : Text) → split b s ≢ []
unfolding split
split-ne-nil b [] = λ e. cc
split-ne-nil b (c ∷ s) = ground (arith, split-ne-nil b s)

split-Lacks : (b : ℕ) (p : Text) → Lacks b p → split b p ≡ p ∷ []
unfolding split
split-Lacks b [] h = refl
split-Lacks b (c ∷ p) h = ground (arith, split-Lacks b p)

split-append : (b : ℕ) (p s : Text) → Lacks b p → split b (p ++ b ∷ s) ≡ p ∷ split b s
unfolding split
split-append b [] s h = ground arith
split-append b (c ∷ p) s h = ground (arith, split-append b p s)

-- Fields that hold no separator are read back as they were written.
pub split-join :
    (b : ℕ) (p : Text) (ps : List Text)
    → All (Lacks b) (p ∷ ps)
    → split b (join b (p ∷ ps)) ≡ p ∷ ps
unfolding join
split-join b p [] (h, t) = split-Lacks b p h
split-join b p (q ∷ ps) (h, t) =
    split-append b p (join b (q ∷ ps)) h ∙ ap (λ r. p ∷ r) (split-join b q ps t)

pub lower_idem : (s : Text) → lower (lower s) ≡ lower s
unfolding lower
lower_idem [] = refl
lower_idem (c ∷ s) =
    let byte : lower_byte (lower_byte c) ≡ lower_byte c = ground arith in cc (byte, lower_idem s)

join-cons_head :
    (b c : ℕ) (p : Text) (ps : List Text) → join b (cons_head c (p ∷ ps)) ≡ c ∷ join b (p ∷ ps)
unfolding join
join-cons_head b c p [] = refl
join-cons_head b c p (q ∷ ps) = refl

rejoin :
    (b c : ℕ) (ps : List Text)
    → ps ≢ []
    → join b (if c == b then [] ∷ ps else cons_head c ps) ≡ c ∷ join b ps
unfolding join
rejoin b c [] h = absurd (h refl)
rejoin b c (p ∷ ps) h = elim (Bool-cases (c == b)) [
  | inl same ↦ rw same (ap (λ x. x ∷ join b (p ∷ ps)) (sym ((==_iff c b).0 same)))
  | inr other ↦ rw other (join-cons_head b c p ps)
]

-- The fields of any text, joined again, are the text.
pub join-split : (b : ℕ) (s : Text) → join b (split b s) ≡ s
unfolding split
join-split b [] = unfold join in refl
join-split b (c ∷ s) = rejoin b c (split b s) (split-ne-nil b s) ∙ ap (λ r. c ∷ r) (join-split b s)

-- One more field behind those that are joined.
pub join-append :
    (b : ℕ) (p : Text) (ps : List Text) (q : Text)
    → join b (p ∷ ps) ++ b ∷ q ≡ join b (p ∷ (ps ++ q ∷ []))
unfolding join
join-append b p [] q = refl
join-append b p (r ∷ ps) q =
    append_assoc p (b ∷ join b (r ∷ ps)) (b ∷ q) ∙ ap (λ s. p ++ b ∷ s) (join-append b r ps q)
