-- ===== src/Core/Password.antt =====
-- internal/core/core.go, `Password`: the draws of crypto/rand are an argument.
use lab_gate.Prelude.{
  ℕ, zero, suc, Text, codes, [], ◌∷◌, Option, none, some, Result, ok, err, other, ◌>>=◌,
}

-- The characters that no reader confuses.
unfoldable pub chars : Text
chars = codes "ABCDEFGHJKLMNPQRSTUVWXYZabcdefghijkmnopqrstuvwxyz23456789"

-- An index past the end would panic.
unfoldable pub char_at : Text → ℕ → Result ℕ
char_at [] i = err (other "index out of range")
char_at (c ∷ s) zero = ok c
char_at (c ∷ s) (suc i) = char_at s i

unfoldable pub draw : Option ℕ → Result ℕ
unfolding chars char_at
draw none = err (other "rand: no entropy")
draw (some v) = char_at chars v

-- `n` more bytes, from the draws at `i` on.
unfoldable pub password : (ℕ → Option ℕ) → ℕ → ℕ → Result Text
unfolding draw
password draws i zero = ok []
password draws i (suc n) = do c ← draw (draws i); rest ← password draws (suc i) n; ok (c ∷ rest)
