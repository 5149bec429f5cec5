-- ===== src/Base/Float.antt =====
-- Go's floating point numbers as the code uses them: compared, and combined by `math.Min`. A finite
-- one counts multiples of a fixed unit; rounding plays no part in what is modelled.
use Prim.Native.Nat.{ℕ}
use mathlib.Core.Bool.{Bool, true, false, not, ◌||◌}
use dsignal.Base.Tests.{ltb, if◌then◌else◌}

pub data GoFloat : Type 0 where
  nan : GoFloat
  neg_inf : GoFloat
  -- -(n + 1) units
  negative : ℕ → GoFloat
  -- n units
  nonneg : ℕ → GoFloat
  pos_inf : GoFloat

-- `a < b`, false at a NaN
abbrev pub float_lt : GoFloat → GoFloat → Bool
float_lt nan _ = false
float_lt neg_inf nan = false
float_lt neg_inf neg_inf = false
float_lt neg_inf _ = true
float_lt (negative m) nan = false
float_lt (negative m) neg_inf = false
float_lt (negative m) (negative n) = ltb n m
float_lt (negative m) _ = true
float_lt (nonneg m) (nonneg n) = ltb m n
float_lt (nonneg m) pos_inf = true
float_lt (nonneg m) _ = false
float_lt pos_inf _ = false

abbrev pub is_nan : GoFloat → Bool
is_nan nan = true
is_nan _ = false

-- `math.IsInf(f, 0)`
abbrev pub is_inf : GoFloat → Bool
is_inf neg_inf = true
is_inf pos_inf = true
is_inf _ = false

-- `a >= b`, false at a NaN
abbrev pub float_ge : GoFloat → GoFloat → Bool
float_ge a b = if is_nan a || is_nan b then false else not (float_lt a b)

abbrev is_neg_inf : GoFloat → Bool
is_neg_inf neg_inf = true
is_neg_inf _ = false

-- `math.Min`
abbrev pub float_min : GoFloat → GoFloat → GoFloat
float_min a b =
    if is_neg_inf a || is_neg_inf b
    then neg_inf
    else if is_nan a || is_nan b
    then nan
    else if float_lt a b
    then a
    else b
