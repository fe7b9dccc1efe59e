-- ===== src/Base/Ints.antt =====
-- Signed integers: `negsuc n` is -(n + 1). A Go `int` or `int64` that may be negative.
use Prim.Native.Nat.{ℕ}
use mathlib.Core.Bool.{Bool, true, false}
use wkbench.Base.Tests.{ltb, ◌==◌}

pub data ℤ : Type 0 where
  pos : ℕ → ℤ
  negsuc : ℕ → ℤ

-- z == 0
abbrev pub is_zero : ℤ → Bool
is_zero (pos n) = n == 0
is_zero (negsuc n) = false

-- z <= 0
abbrev pub is_nonpositive : ℤ → Bool
is_nonpositive (pos n) = n == 0
is_nonpositive (negsuc n) = true

-- z < 0
abbrev pub is_negative : ℤ → Bool
is_negative (pos n) = false
is_negative (negsuc n) = true

-- How often a loop `for i := 0; i < z; i++` runs.
abbrev pub natural : ℤ → ℕ
natural (pos n) = n
natural (negsuc n) = 0

-- int64(size) > max
abbrev pub exceeds : ℕ → ℤ → Bool
exceeds size (pos max) = ltb max size
exceeds size (negsuc max) = true
