-- ===== src/Prelude/Int.antt =====
-- Signed integers over the native numbers; `negsuc n` is -(n + 1).
use Prim.Native.Nat.{ℕ, ◌<◌}

pub data ℤ : Type 0 where
  pos : ℕ → ℤ
  negsuc : ℕ → ℤ

-- The two halves of a range from -bound to bound - 1.
abbrev pub Within : ℕ → ℤ → Type 0
Within bound (pos n) = n < bound
Within bound (negsuc n) = n < bound
