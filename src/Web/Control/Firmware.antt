-- ===== src/Web/Control/Firmware.antt =====
-- The firmware below which the Solar API is warned about: `_parse_firmware_version` and
-- `_solar_api_warning_needed` of web_control.py.
use Prim.Native.Char.{code}
use Prim.Native.String.{String}
use fronius_modbus.Common.{
  ℕ, ◌+◌, ◌*◌, Bool, true, false, Option, none, some, ◌==◌, ltb, if◌then◌else◌,
}

pub record Version : Type 0 where
  pub major : ℕ
  pub minor : ℕ
  pub patch : ℕ
  pub build : ℕ

-- SOLAR_API_MINIMUM_VERSION
abbrev pub minimum_version : Version
minimum_version = record { major = 1; minor = 40; patch = 7; build = 1 }

-- The value of a decimal digit, of any script, as `\d` and `int` know them.
abbrev pub Digits : Type 0
Digits = ℕ → Option ℕ

-- A run of digits behind those read, its number, and what follows it.
abbrev ends_run : Option ℕ → ℕ → String → Option (ℕ × String)
ends_run none n s = none
ends_run (some _) n s = some (n, s)

unfoldable pub digits_from : Digits → Option ℕ → String → Option (ℕ × String)
digits_from d none String.[] = none
digits_from d (some n) String.[] = some (n, String.[])
digits_from d none (String.◌∷◌ c s) = elim (d (code c)) [
  | none ↦ none
  | some v ↦ digits_from d (some v) s
]
digits_from d (some n) (String.◌∷◌ c s) = elim (d (code c)) [
  | none ↦ some (n, String.◌∷◌ c s)
  | some v ↦ digits_from d (some (n * 10 + v)) s
]

-- What follows a character.
abbrev behind_char : ℕ → String → Option String
behind_char x String.[] = none
behind_char x (String.◌∷◌ c s) = if code c == x then some s else none

abbrev at_end : String → Bool
at_end String.[] = true
at_end (String.◌∷◌ c s) = false

module _ (d : Digits) where
  abbrev end_of : ℕ → ℕ → ℕ → Option (ℕ × String) → Option Version
  end_of a b c none = none
  end_of a b c (some (e, s)) =
      if at_end s then some (record { major = a; minor = b; patch = c; build = e }) else none

  -- Behind the third number: the end, or a build number.
  abbrev build_of : ℕ → ℕ → ℕ → String → Option Version
  build_of a b c String.[] = some (record { major = a; minor = b; patch = c; build = 0 })
  build_of a b c (String.◌∷◌ x s) =
      if code x == b'-' then end_of a b c (digits_from d none s) else none

  abbrev patch_of : ℕ → ℕ → Option (ℕ × String) → Option Version
  patch_of a b none = none
  patch_of a b (some (c, s)) = build_of a b c s

  abbrev patch_behind : ℕ → ℕ → Option String → Option Version
  patch_behind a b none = none
  patch_behind a b (some s) = patch_of a b (digits_from d none s)

  abbrev minor_of : ℕ → Option (ℕ × String) → Option Version
  minor_of a none = none
  minor_of a (some (b, s)) = patch_behind a b (behind_char b'.' s)

  abbrev minor_behind : ℕ → Option String → Option Version
  minor_behind a none = none
  minor_behind a (some s) = minor_of a (digits_from d none s)

  abbrev major_of : Option (ℕ × String) → Option Version
  major_of none = none
  major_of (some (a, s)) = minor_behind a (behind_char b'.' s)

  -- `_parse_firmware_version` of a stripped text
  unfoldable pub parse_version : String → Option Version
  parse_version s = major_of (digits_from d none s)

-- `a < b`, of tuples
unfoldable pub is_older : Version → Version → Bool
is_older a b =
    if ltb a.major b.major
    then true
    else if ltb b.major a.major
    then false
    else if ltb a.minor b.minor
    then true
    else if ltb b.minor a.minor
    then false
    else if ltb a.patch b.patch
    then true
    else if ltb b.patch a.patch
    then false
    else ltb a.build b.build
