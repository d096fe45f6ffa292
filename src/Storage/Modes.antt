-- ===== src/Storage/Modes.antt =====
-- The extended modes of fronius_modbus_api/storage.py, their register images, and what the
-- registers mean. A rate is a percent, a float.
use fronius_modbus.Common.{
  ℕ, ◌+◌, ◌/◌, ◌%◌, Bool, true, false, not, ◌&&◌, ◌||◌, pos, neg_ℤ, Float, zero_float, max_float,
  min_float, ltb_ℤ, leb_ℤ, eqb_ℤ, ◌==◌, if◌then◌else◌,
}

-- FULL_RATE_PCT: 100.0, whose bit pattern this is.
abbrev pub full_rate_pct : Float
full_rate_pct = pos 0x4059000000000000

abbrev pub mode_write_grace_polls : ℕ
mode_write_grace_polls = 3

abbrev pub mode_auto : ℕ
mode_auto = 0

abbrev pub mode_charge : ℕ
mode_charge = 1

abbrev pub mode_discharge : ℕ
mode_discharge = 2

abbrev pub mode_charge_and_discharge : ℕ
mode_charge_and_discharge = 3

pub data ExtendedMode : Type 0 where
  auto pv_charge_limit discharge_limit charge_and_discharge_limit : ExtendedMode
  charge_from_grid discharge_to_grid block_discharging block_charging : ExtendedMode

-- The code of an IntEnum member, which tells members apart.
abbrev pub mode_code : ExtendedMode → ℕ
mode_code auto = 0
mode_code pv_charge_limit = 1
mode_code discharge_limit = 2
mode_code charge_and_discharge_limit = 3
mode_code charge_from_grid = 4
mode_code discharge_to_grid = 5
mode_code block_discharging = 6
mode_code block_charging = 7

-- `a is b`
abbrev pub same_mode : ExtendedMode → ExtendedMode → Bool
same_mode a b = mode_code a == mode_code b

-- StorCtl_Mod, InWRte and OutWRte.
pub record Image : Type 0 where
  pub mode : ℕ
  pub in_rate : Float
  pub out_rate : Float

abbrev image : ℕ → Float → Float → Image
image m i o = record { mode = m; in_rate = i; out_rate = o }

-- _MODE_TABLE
unfoldable pub mode_table : ExtendedMode → Image
mode_table auto = image mode_auto full_rate_pct full_rate_pct
mode_table pv_charge_limit = image mode_charge full_rate_pct full_rate_pct
mode_table discharge_limit = image mode_discharge full_rate_pct full_rate_pct
mode_table charge_and_discharge_limit = image mode_charge_and_discharge full_rate_pct full_rate_pct
mode_table charge_from_grid = image mode_discharge full_rate_pct zero_float
mode_table discharge_to_grid = image mode_charge zero_float full_rate_pct
mode_table block_discharging = image mode_charge_and_discharge full_rate_pct zero_float
mode_table block_charging = image mode_charge_and_discharge zero_float full_rate_pct

-- `mode in CHARGE_LIMIT_MODES`
unfoldable pub in_charge_limit_modes : ExtendedMode → Bool
in_charge_limit_modes pv_charge_limit = true
in_charge_limit_modes charge_and_discharge_limit = true
in_charge_limit_modes block_discharging = true
in_charge_limit_modes _ = false

-- `mode in DISCHARGE_LIMIT_MODES`
unfoldable pub in_discharge_limit_modes : ExtendedMode → Bool
in_discharge_limit_modes discharge_limit = true
in_discharge_limit_modes charge_and_discharge_limit = true
in_discharge_limit_modes block_charging = true
in_discharge_limit_modes _ = false

-- `mode & MODE_CHARGE` and `mode & MODE_DISCHARGE` as truth values: bits 0 and 1.
unfoldable pub charge_bit : ℕ → Bool
charge_bit m = (m % 2) == 1

unfoldable pub discharge_bit : ℕ → Bool
discharge_bit m = ((m / 2) % 2) == 1

-- `mode | MODE_CHARGE` and `mode | MODE_DISCHARGE`
unfoldable pub with_charge_bit : ℕ → ℕ
unfolding charge_bit
with_charge_bit m = if charge_bit m then m else m + 1

unfoldable pub with_discharge_bit : ℕ → ℕ
unfolding discharge_bit
with_discharge_bit m = if discharge_bit m then m else m + 2

unfoldable pub effective_rates : ℕ → Float → Float → Float × Float
unfolding charge_bit discharge_bit
effective_rates mode in_rate out_rate = (
  if not (charge_bit mode) then full_rate_pct else in_rate,
  if not (discharge_bit mode) then full_rate_pct else out_rate,
)

unfoldable pub derive_extended_mode : Image → ExtendedMode
derive_extended_mode r =
    if r.mode == mode_auto
    then auto
    else if ltb_ℤ r.out_rate zero_float
    then charge_from_grid
    else if ltb_ℤ r.in_rate zero_float
    then discharge_to_grid
    else if (r.mode == mode_charge || r.mode == mode_charge_and_discharge)
        && eqb_ℤ r.in_rate zero_float
    then block_charging
    else if r.mode == mode_charge
    then pv_charge_limit
    else if eqb_ℤ r.out_rate zero_float
    then block_discharging
    else if r.mode == mode_discharge
    then discharge_limit
    else charge_and_discharge_limit

unfoldable pub registers_fit : ExtendedMode → Image → Bool
unfolding mode_table in_charge_limit_modes in_discharge_limit_modes
registers_fit x r =
    let expected = mode_table x in
    if not (r.mode == expected.mode)
    then false
    else if same_mode x charge_from_grid
    then eqb_ℤ r.in_rate expected.in_rate && leb_ℤ r.out_rate zero_float
    else if same_mode x discharge_to_grid
    then eqb_ℤ r.out_rate expected.out_rate && leb_ℤ r.in_rate zero_float
    else (if in_charge_limit_modes x
        then leb_ℤ zero_float r.in_rate
        else eqb_ℤ r.in_rate expected.in_rate)
      && (if in_discharge_limit_modes x
          then leb_ℤ zero_float r.out_rate
          else eqb_ℤ r.out_rate expected.out_rate)

-- `_watts_to_percent`: `scaled` is the parameter `watts / maximum_w * FULL_RATE_PCT` of floats.
unfoldable pub watts_to_percent : (Float → Float → Float) → Float → Float → Float
watts_to_percent scaled watts maximum_w =
    if leb_ℤ maximum_w zero_float
    then zero_float
    else max_float (neg_ℤ full_rate_pct) (min_float full_rate_pct (scaled watts maximum_w))
