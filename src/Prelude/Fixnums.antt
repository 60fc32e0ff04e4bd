-- ===== src/Prelude/Fixnums.antt =====
-- FIX2INT of a Ruby integer: what an int cannot hold is refused with a RangeError.
use Prim.Native.Nat.{ℕ, ◌^◌}
use mathlib.Core.Bool.{Bool}
use mathlib.Core.Path.{◌≡◌}
use mathlib.Core.Bool.{true, false}
use rbkit.Prelude.Int.{ℤ, pos, negsuc}
use rbkit.Prelude.Tests.{ltb, if◌then◌else◌, if_true, if_false}
use rbkit.Prelude.Outcomes.{Outcome, ok, raised, range_error}

unfoldable pub in_int : ℤ → Bool
in_int (pos n) = ltb n (2 ^ 31)
in_int (negsuc n) = ltb n (2 ^ 31)

unfoldable pub fix2int : ℤ → Outcome ℤ
unfolding in_int
fix2int z = if in_int z then ok z else raised range_error

-- The same for a number that is not negative.
unfoldable pub fix2nat : ℕ → Outcome ℕ
fix2nat n = if ltb n (2 ^ 31) then ok n else raised range_error

pub fix2int-ok : (z : ℤ) → in_int z ≡ true → fix2int z ≡ ok z
unfolding fix2int
fix2int-ok z e = if_true _ _ e

pub fix2int-raised : (z : ℤ) → in_int z ≡ false → fix2int z ≡ raised range_error
unfolding fix2int
fix2int-raised z e = if_false _ _ e

pub fix2nat-ok : (n : ℕ) → ltb n (2 ^ 31) ≡ true → fix2nat n ≡ ok n
unfolding fix2nat
fix2nat-ok n e = if_true _ _ e

pub fix2nat-raised : (n : ℕ) → ltb n (2 ^ 31) ≡ false → fix2nat n ≡ raised range_error
unfolding fix2nat
fix2nat-raised n e = if_false _ _ e
