-- ===== src/Derived/Total.antt =====
-- `TotalGuard` of derived.py: it accepts the readings of a counter that only grows. Log texts are
-- left out of its verdict: `adopted` is the flag, and `lower` the word that the text chooses.
pub mod Laws
use fronius_modbus.Common.{
  ℕ, ◌+◌, Bool, true, false, ◌&&◌, Option, none, some, if◌then◌else◌, Float, zero_float, ltb, leb_ℤ,
  ltb_ℤ,
}
use fronius_modbus.Numbers.{Numbers}

pub record TotalVerdict : Type 0 where
  pub adopted : Bool
  pub lower : Bool

pub record TotalGuard : Type 0 where
  pub value : Option Float
  pub max_step : Float
  pub confirmations : ℕ
  pub suspect_polls : ℕ
  pub last_suspect : Option Float

-- `__init__`
unfoldable pub new_guard : Float → ℕ → TotalGuard
new_guard max_step confirmations = record {
  value = none;
  max_step = max_step;
  confirmations = confirmations;
  suspect_polls = 0;
  last_suspect = none;
}

unfoldable pub seed : Option Float → TotalGuard → TotalGuard
seed value g = record g { value = value; suspect_polls = 0; last_suspect = none }

module _ (numbers : Numbers) where
  -- `_plausible_after`
  unfoldable pub plausible_after : Float → Float → Float → Bool
  plausible_after max_step earlier reading =
      let step = numbers.sub reading earlier in leb_ℤ zero_float step && leb_ℤ step max_step

  -- Whether the reading follows the last suspect.
  abbrev pub follows : Float → Option Float → Float → Bool
  follows max_step none reading = false
  follows max_step (some s) reading = plausible_after max_step s reading

  abbrev accept : Float → TotalGuard → TotalGuard
  accept reading g = record g { value = some reading; suspect_polls = 0; last_suspect = none }

  -- `observe` of a reading that does not follow the value.
  unfoldable pub suspect : TotalGuard → Float → Float → TotalGuard × Option TotalVerdict
  suspect g value reading =
      let polls = if follows g.max_step g.last_suspect reading then g.suspect_polls + 1 else 1 in
      if ltb polls g.confirmations
      then (
        record g { suspect_polls = polls; last_suspect = some reading },
        some (record { adopted = false; lower = ltb_ℤ reading value }),
      )
      else (accept reading g, some (record { adopted = true; lower = ltb_ℤ reading value }))

  unfoldable pub observe : TotalGuard → Option Float → TotalGuard × Option TotalVerdict
  observe g none = (record g { suspect_polls = 0; last_suspect = none }, none)
  observe g (some reading) = elim g.value [
    | none ↦ (accept reading g, none)
    | some value ↦
        if plausible_after g.max_step value reading
        then (accept reading g, none)
        else suspect g value reading
  ]
