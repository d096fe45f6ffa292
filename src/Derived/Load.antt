-- ===== src/Derived/Load.antt =====
-- `household_load` of derived.py: the household's net demand from the primary meter.
use fronius_modbus.Common.{
  ℕ, ◌≡◌, ◌≤◌, ◌<◌, ◌↔◌, ◌⊎◌, Bool, ◌&&◌, ◌||◌, not, Option, none, some, if◌then◌else◌, arith,
  Float, pos, ltb, leb, ◌==◌, ltb_ℤ, ◌≤ℤ◌, neg_ℤ,
}
use fronius_modbus.Numbers.{Numbers}

abbrev pub meter_location_feed_in : ℕ
meter_location_feed_in = 0

-- METER_LOCATION_CONSUMPTION, and METER_LOCATION_CONSUMPTION_RANGE: range(256, 512)
abbrev pub at_consumption : ℕ → Bool
at_consumption location = location == 1 || (leb 256 location && ltb location 512)

-- LOAD_SAMPLE_WINDOW_S: 0.5
abbrev pub load_sample_window_s : Float
load_sample_window_s = pos 0x3fe0000000000000

module _ (numbers : Numbers) where
  -- From the location on, which is not None.
  abbrev load_at : Float → Option Float → ℕ → Float → Option Float
  load_at meter_power_w inverter_power_w location sample_window_s =
      if at_consumption location
      then some (numbers.round_cents (neg_ℤ meter_power_w))
      else if not (location == meter_location_feed_in)
      then none
      else elim inverter_power_w [
        | none ↦ none
        | some w ↦
            if ltb_ℤ load_sample_window_s sample_window_s
            then none
            else some (numbers.round_cents (numbers.add meter_power_w w))
      ]

  unfoldable pub household_load : Option Float → Option Float → Option ℕ → Float → Option Float
  household_load none inverter_power_w location sample_window_s = none
  household_load (some m) inverter_power_w none sample_window_s = none
  household_load (some m) inverter_power_w (some location) sample_window_s =
      load_at m inverter_power_w location sample_window_s

  -- The load is the rounded sum of the meter's power and the inverter's, which is known.
  abbrev pub IsSum : Float → Option Float → Float → Type 0
  IsSum m none load = ⊥
  IsSum m (some w) load = load ≡ numbers.round_cents (numbers.add m w)

  -- How a load comes about, by where the meter stands.
  abbrev pub Balances : Float → Option Float → ℕ → Float → Float → Type 0
  Balances m inverter location window load =
      (((location ≡ 1) ⊎ ((256 ≤ location) × (location < 512)))
        × (load ≡ numbers.round_cents (neg_ℤ m)))
      ⊎ ((location ≡ 0) × (window ≤ℤ load_sample_window_s) × IsSum m inverter load)

  -- A load is shown exactly when the meter stands in the consumption path, where the inverter's
  -- power plays no part, or at the feed-in point with an inverter power of the same half second.
  pub household_load-Balances :
      (m : Float) (inverter : Option Float) (location : ℕ) (window load : Float)
      → (household_load (some m) inverter (some location) window ≡ some load)
        ↔ Balances m inverter location window load
  unfolding household_load
  household_load-Balances m none location window load = (ground arith, ground arith)
  household_load-Balances m (some w) location window load = (ground arith, ground arith)
