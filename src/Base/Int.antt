-- ===== src/Base/Int.antt =====
-- `i64` over the native numbers; `negsuc n` is -(n + 1).
use Prim.Native.Nat.{ℕ, ◌-◌, ◌^◌}
use mathlib.Core.Bool.{Bool, true, false}

pub data ℤ : Type 0 where
  pos : ℕ → ℤ
  negsuc : ℕ → ℤ

-- `v < 0`
abbrev pub is_negative : ℤ → Bool
is_negative (pos n) = false
is_negative (negsuc n) = true

-- The value of one that is not negative.
abbrev pub to_nat : ℤ → ℕ
to_nat (pos n) = n
to_nat (negsuc n) = 0

abbrev pub usize_max : ℕ
usize_max = 2 ^ 64 - 1
