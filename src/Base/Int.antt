-- ===== src/Base/Int.antt =====
-- Integers over the native numbers, and division with rounding to the nearest, half up.
use Prim.Native.Nat.{ℕ, zero, suc, ◌+◌, ◌*◌, ◌/◌}

pub data ℤ : Type 0 where
  pos negsuc : ℕ → ℤ

-- The integer below zero by `n`.
abbrev pub negative : ℕ → ℤ
negative zero = pos 0
negative (suc n) = negsuc n

-- `n / d`, to the nearest whole number.
abbrev pub div_round : ℕ → ℕ → ℕ
div_round n d = (2 * n + d) / (2 * d)
