-- ===== src/Base/Int.antt =====
-- Integers and floats of Python. `negsuc n` is -(n + 1).
use Prim.Native.Nat.{ℕ, zero, suc, ◌+◌, ◌*◌}
use mathlib.Core.Bool.{Bool, true, false}
use replay_forge.Base.Tests.{ltb}

pub data ℤ : Type 0 where
  pos : ℕ → ℤ
  negsuc : ℕ → ℤ

-- `n < 0`
abbrev pub is_negative : ℤ → Bool
is_negative (pos n) = false
is_negative (negsuc n) = true

-- `limit <= n`
abbrev pub reaches : ℤ → ℕ → Bool
reaches (pos n) limit = ltb limit (n + 1)
reaches (negsuc n) limit = false

abbrev int_ltb : ℤ → ℤ → Bool
int_ltb (pos m) (pos n) = ltb m n
int_ltb (pos m) (negsuc n) = false
int_ltb (negsuc m) (pos n) = true
int_ltb (negsuc m) (negsuc n) = ltb n m

-- `n * 2 ** k`
doubled : ℤ → ℕ → ℤ
doubled n zero = n
doubled (pos n) (suc k) = doubled (pos (2 * n)) k
doubled (negsuc n) (suc k) = doubled (negsuc (2 * n + 1)) k

-- A finite float: numerator / 2 ** exponent, in lowest terms.
pub record Float : Type 0 where
  pub numerator : ℤ
  pub exponent : ℕ

-- `x < y`
unfoldable pub float_ltb : Float → Float → Bool
unfolding doubled
float_ltb x y = int_ltb (doubled x.numerator y.exponent) (doubled y.numerator x.exponent)
