-- ===== src/Common/Floats.antt =====
-- Python's floats, read by their place in the order of the doubles: the bit pattern of a
-- double's magnitude, with its sign, is an integer, and it orders the doubles as their values do
-- (both zeros are 0). Comparisons, negation, `max` and `min` are then those of the integers,
-- exactly. Sums, products and rounding are no part of this view: code that uses them takes
-- them as parameters. NaN, which has no place in the order, is left out.
use native.Mathlib.Omega.{arith}
use fronius_modbus.Common.Tests.{if◌then◌else◌}
use fronius_modbus.Common.Integers.{ℤ, pos, ◌≤ℤ◌, ltb_ℤ}

abbrev pub Float : Type 0
Float = ℤ

-- 0.0
abbrev pub zero_float : Float
zero_float = pos 0

-- `max(a, b)` keeps the first of equals, which are one value here.
abbrev pub max_float : Float → Float → Float
max_float a b = if ltb_ℤ a b then b else a

abbrev pub min_float : Float → Float → Float
min_float a b = if ltb_ℤ b a then b else a

pub max_float_bounds : (a b : Float) → (a ≤ℤ max_float a b) × (b ≤ℤ max_float a b)
max_float_bounds a b = ground arith
