-- ===== src/Numbers.antt =====
-- The arithmetic of Python's floats that the code uses: what the order of the floats does not
-- give (see Common/Floats). An argument of the definitions that use it.
pub mod Plain
use fronius_modbus.Common.{ℕ, Bool, Float}

pub record Numbers : Type 0 where
  -- `int(x)` of a float that is no less than zero, and `float(n)` of an int
  pub int_of : Float → ℕ
  pub float_of : ℕ → Float
  -- `x.is_integer()`, and `float(int(x))`
  pub is_integer : Float → Bool
  pub truncated : Float → Float
  -- `watts / maximum * 100.0`
  pub percent_of : Float → Float → Float
  -- `round(maximum * percent / 100.0)`
  pub share_of : Float → Float → Float
  -- `a + b` and `a - b`
  pub add : Float → Float → Float
  pub sub : Float → Float → Float
  -- `round(x, 2)`
  pub round_cents : Float → Float
