-- ===== src/Prelude/Integers.antt =====
-- Integers over native numbers: `negsuc n` is -1 - n.
use Prim.Native.Nat.{ℕ, ◌-◌}
use lab_gate.Prelude.Tests.{leb, if◌then◌else◌}

pub data ℤ : Type 0 where
  pos negsuc : ℕ → ℤ

-- a - b
abbrev pub difference : ℕ → ℕ → ℤ
difference a b = if leb b a then pos (a - b) else negsuc (b - a - 1)
