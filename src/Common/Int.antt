-- ===== src/Common/Int.antt =====
-- Python's `int` where the code tests its sign: `negsuc n` is -(n + 1).
use Prim.Native.Nat.{ℕ, zero}
use mathlib.Core.Bool.{Bool, true, false}

pub data ℤ : Type 0 where
  pos : ℕ → ℤ
  negsuc : ℕ → ℤ

-- n < 0
abbrev pub is_negative : ℤ → Bool
is_negative (pos n) = false
is_negative (negsuc n) = true

-- n < 1
abbrev pub is_below_one : ℤ → Bool
is_below_one (pos zero) = true
is_below_one (pos _) = false
is_below_one (negsuc n) = true
