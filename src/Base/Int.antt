-- ===== src/Base/Int.antt =====
-- Signed integers over the native numbers, as far as the source uses them.
use Prim.Native.Nat.{ℕ, suc}

-- `negsuc n` is -(n + 1).
pub data ℤ : Type 0 where
  pos : ℕ → ℤ
  negsuc : ℕ → ℤ

-- `Math.abs`.
abbrev pub abs : ℤ → ℕ
abs (pos n) = n
abs (negsuc n) = suc n
