-- ===== src/Web/Text.antt =====
-- What the code calls of Python's texts and numbers: an argument of the definitions that use it.
use Prim.Native.String.{String}
use fronius_modbus.Common.{ℕ, Bool, Option, ℤ, Float}
use fronius_modbus.Json.{Json}

pub record Text : Type 0 where
  -- `s.strip()`, `s.lower()`, `s.upper()` and `s.casefold()`
  pub strip : String → String
  pub lower : String → String
  pub upper : String → String
  pub casefold : String → String
  -- `str(value)`
  pub to_str : Json → String
  -- `v == w`
  pub equal : Json → Json → Bool
  -- the value of the decimal digit with this code, as `\d` and `int` know it
  pub digit : ℕ → Option ℕ
  -- `json.loads(text)`; none where it raises
  pub loads : String → Option Json
  -- `int(text)` and `float(text)`; none where they raise
  pub int_of_text : String → Option ℤ
  pub float_of_text : String → Option Float
  -- `int(x)` of a float; none where it raises
  pub int_of_float : Float → Option ℤ
  -- `n < x`, `x < n` and `n == x` of an int and a float, which Python compares exactly
  pub int_below : ℤ → Float → Bool
  pub int_above : ℤ → Float → Bool
  pub int_is : ℤ → Float → Bool
