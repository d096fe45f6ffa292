-- ===== src/Web/Flags.antt =====
-- How the inverter spells flags and numbers: component_readings.py, and the helpers of
-- froniuswebclient.py and web_control.py that read one value.
use Prim.Native.String.{String}
use text.Mathlib.Text.{◌==◌}
use fronius_modbus.Common.{
  Bool, true, false, not, ◌&&◌, ◌||◌, Option, none, some, List, [], ◌∷◌, ℤ, pos, negsuc, eqb_ℤ,
  Float, zero_float, ltb_ℤ, if◌then◌else◌,
}
use fronius_modbus.Json.{Json, null, bool, int, str}
use fronius_modbus.Web.Text.{Text}

-- 1.0, and the rank of the infinity.
abbrev pub one_float : Float
one_float = pos 0x3ff0000000000000

abbrev infinity : Float
infinity = pos 0x7ff0000000000000

abbrev pub bool_of : Bool → ℤ
bool_of true = pos 1
bool_of false = pos 0

-- `text in words`
unfoldable pub has_text : String → List String → Bool
has_text s [] = false
has_text s (w ∷ ws) = w == s || has_text s ws

abbrev pub flag_words_on : List String
flag_words_on = "1" ∷ "true" ∷ "on" ∷ "yes" ∷ "enabled" ∷ []

abbrev pub flag_words_off : List String
flag_words_off = "0" ∷ "false" ∷ "off" ∷ "no" ∷ "disabled" ∷ []

-- `FLAG_WORDS.get(word)`
unfoldable pub flag_word : String → Option Bool
unfolding has_text
flag_word s =
    if has_text s flag_words_on
    then some true
    else if has_text s flag_words_off
    then some false
    else none

-- `value in (0, 1)`, then `bool(value)`, with the two numbers given
abbrev pub flag_number : ℤ → ℤ → Option Bool
flag_number one n = if eqb_ℤ n (pos 0) then some false else if eqb_ℤ n one then some true else none

-- `math.isfinite`
unfoldable pub is_finite : Float → Bool
is_finite x = ltb_ℤ x infinity && ltb_ℤ (negsuc 0x7fefffffffffffff) x

-- `_is_number` of the web client
unfoldable pub is_number : Json → Bool
unfolding is_finite
is_number (int n) = true
is_number (Json.float x) = is_finite x
is_number _ = false

abbrev pub is_true_flag : Option Bool → Bool
is_true_flag (some true) = true
is_true_flag _ = false

abbrev pub or_fallback : Option ℤ → ℤ → ℤ
or_fallback (some n) d = n
or_fallback none d = d

module _ (t : Text) where
  unfoldable pub flag_value : Json → Option Bool
  flag_value (bool b) = some b
  flag_value (int n) = flag_number (pos 1) n
  flag_value (Json.float x) = flag_number one_float x
  flag_value (str s) = flag_word (t.lower (t.strip s))
  flag_value _ = none

  unfoldable pub is_enabled : Json → Bool
  is_enabled v = is_true_flag (flag_value v)

  abbrev finite_only : Option Float → Option Json
  finite_only none = none
  finite_only (some x) = if is_finite x then some (Json.float x) else none

  -- `_as_number`; an int that no float holds, on which `math.isfinite` raises, is left out
  unfoldable pub as_number : Json → Option Json
  unfolding is_finite
  as_number (int n) = some (int n)
  as_number (Json.float x) = finite_only (some x)
  as_number (str s) = finite_only (t.float_of_text s)
  as_number _ = none

  abbrev pub is_nonzero : Json → Bool
  is_nonzero (int n) = not (eqb_ℤ n (pos 0))
  is_nonzero (Json.float x) = not (eqb_ℤ x zero_float)
  is_nonzero _ = false

  -- `_is_set` of what is no number
  abbrev set_word : Json → Bool
  set_word (str s) = is_true_flag (flag_word (t.lower (t.strip s)))
  set_word _ = false

  abbrev set_number : Json → Option Json → Bool
  set_number v (some n) = is_nonzero n
  set_number v none = set_word v

  -- `_is_set`
  unfoldable pub is_set : Json → Bool
  is_set (bool b) = b
  is_set (int n) = set_number (int n) (as_number (int n))
  is_set (Json.float x) = set_number (Json.float x) (as_number (Json.float x))
  is_set (str s) = set_number (str s) (as_number (str s))
  is_set v = set_number v (as_number v)

  -- `_as_int` of web_control.py
  unfoldable pub int_of : Json → Option ℤ
  int_of (int n) = some n
  int_of (bool b) = some (bool_of b)
  int_of (Json.float x) = t.int_of_float x
  int_of (str s) = t.int_of_text s
  int_of _ = none

  -- `_as_int` of froniuswebclient.py
  unfoldable pub int_or : Json → ℤ → ℤ
  unfolding int_of
  int_or v fallback = or_fallback (int_of v) fallback

-- What a write sets a field to.
pub data Setting : Type 0 where
  flag : Bool → Setting
  number : ℤ → Setting
  word : String → Setting

abbrev pub json_of : Setting → Json
json_of (flag b) = bool b
json_of (number n) = int n
json_of (word s) = str s

abbrev pub eqb : Bool → Bool → Bool
eqb true b = b
eqb false b = not b

module _ (t : Text) where
  abbrev pub same_flag : Option Bool → Bool → Bool
  same_flag none b = false
  same_flag (some a) b = eqb a b

  -- `_same`: a bool is an int, and an int is equal to the float of its value.
  unfoldable pub same : Json → Setting → Bool
  same null s = false
  same v (flag b) = same_flag (flag_value t v) b
  same (str s) (word w) = t.casefold s == t.casefold w
  same v (word w) = false
  same (int n) (number m) = eqb_ℤ n m
  same (bool b) (number m) = eqb_ℤ (bool_of b) m
  same (Json.float x) (number m) = t.int_is m x
  same v (number m) = false
