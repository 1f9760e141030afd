-- ===== src/Prelude/Int.antt =====
-- The values of a C `int` that may be negative: integers over the native numbers.
use Prim.Native.Nat.{ℕ, ◌-◌}
use mathlib.Core.Bool.{Bool, false}
use mu_quinet.Prelude.Tests.{leb, ◌==◌, if◌then◌else◌}

-- `negsuc n` is -(n + 1).
pub data ℤ : Type 0 where
  pos : ℕ → ℤ
  negsuc : ℕ → ℤ

-- a - b, as an integer.
abbrev pub sub_ℕ : ℕ → ℕ → ℤ
sub_ℕ a b = if leb b a then pos (a - b) else negsuc (b - a - 1)

-- `n == z` for a number and an integer.
abbrev pub eq_ℤ : ℕ → ℤ → Bool
eq_ℤ n (pos m) = n == m
eq_ℤ n (negsuc m) = false
