-- ===== src/Derived/Grid.antt =====
-- `grid_status` of derived.py: the grid status from two frequencies.
use fronius_modbus.Common.{
  ◌≡◌, ◌↔◌, ◌⊎◌, Bool, ◌&&◌, not, Option, none, some, if◌then◌else◌, arith, Float, pos, ltb_ℤ, ◌<ℤ◌,
  ◌≤ℤ◌,
}

-- GRID_STATUS of const.py
pub data GridStatus : Type 0 where
  off_grid off_grid_operating on_grid on_grid_operating : GridStatus

-- 50.0 - 0.2 and 50.0 + 0.2, 50.0 - 5.0 and 50.0 + 5.0: GRID_FREQUENCY_HZ and the two bands.
abbrev pub narrow_low : Float
narrow_low = pos 0x4048e66666666666

abbrev pub narrow_high : Float
narrow_high = pos 0x404919999999999a

abbrev pub wide_low : Float
wide_low = pos 0x4046800000000000

abbrev pub wide_high : Float
wide_high = pos 0x404b800000000000

-- STANDSTILL_HZ: 1.0
abbrev pub standstill_hz : Float
standstill_hz = pos 0x3ff0000000000000

-- `_within`, on the two ends of the band
abbrev pub within : Float → Float → Float → Bool
within value low high = ltb_ℤ low value && ltb_ℤ value high

unfoldable pub grid_status : Option Float → Option Float → Option GridStatus
grid_status none meter = none
grid_status (some inverter_hz) none = none
grid_status (some inverter_hz) (some meter_hz) =
    let meter_online = within meter_hz narrow_low narrow_high in
    if meter_online && within inverter_hz narrow_low narrow_high
    then some on_grid_operating
    else if not meter_online && within inverter_hz wide_low wide_high
    then some off_grid_operating
    else if ltb_ℤ inverter_hz standstill_hz
    then (if meter_online
        then some on_grid
        else if ltb_ℤ meter_hz standstill_hz
        then some off_grid
        else none)
    else none

abbrev pub Between : Float → Float → Float → Type 0
Between low x high = (low <ℤ x) × (x <ℤ high)

-- The frequencies behind each status, in no order of tests.
abbrev pub Shows : GridStatus → Float → Float → Type 0
Shows on_grid_operating i m = Between narrow_low i narrow_high × Between narrow_low m narrow_high
Shows off_grid_operating i m =
    Between wide_low i wide_high × ((m ≤ℤ narrow_low) ⊎ (narrow_high ≤ℤ m))
Shows on_grid i m = (i <ℤ standstill_hz) × Between narrow_low m narrow_high
Shows off_grid i m = (i <ℤ standstill_hz) × (m <ℤ standstill_hz)

-- Each status is reported exactly at its frequencies, so no two of the regions overlap.
pub grid_status-Shows :
    (x : GridStatus) (i m : Float) → (grid_status (some i) (some m) ≡ some x) ↔ Shows x i m
unfolding grid_status
grid_status-Shows off_grid i m = (ground arith, ground arith)
grid_status-Shows off_grid_operating i m = (ground arith, ground arith)
grid_status-Shows on_grid i m = (ground arith, ground arith)
grid_status-Shows on_grid_operating i m = (ground arith, ground arith)
