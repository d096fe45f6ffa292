-- ===== src/Storage/Fields.antt =====
-- The registers that StorageControl (fronius_modbus_api/storage.py) writes, and the order of the
-- writes of a mode.
use fronius_modbus.Common.{
  ℕ, Bool, false, ◌||◌, Option, none, some, List, [], ◌∷◌, ◌++◌, ◌==◌, if◌then◌else◌, Float, pos,
  zero_float, ltb_ℤ,
}
use fronius_modbus.Storage.Modes.{
  ExtendedMode, charge_from_grid, discharge_to_grid, same_mode, Image, mode_table,
}
use fronius_modbus.Registers.{Value, int, float}
use fronius_modbus.Storage.Control.{Written}

-- SOC_MINIMUM_LOWEST and SOC_MINIMUM_HIGHEST: 5.0 and 100.0
abbrev pub soc_minimum_lowest : Float
soc_minimum_lowest = pos 0x4014000000000000

abbrev pub soc_minimum_highest : Float
soc_minimum_highest = pos 0x4059000000000000

-- The registers that StorageControl writes.
pub data Field : Type 0 where
  stor_ctl_mod in_w_rte out_w_rte min_rsv_pct : Field

abbrev pub field_code : Field → ℕ
field_code stor_ctl_mod = 0
field_code in_w_rte = 1
field_code out_w_rte = 2
field_code min_rsv_pct = 3

abbrev pub same_field : Field → Field → Bool
same_field f g = field_code f == field_code g

-- `field in holding`
unfoldable pub has_field : Field → List Field → Bool
has_field f [] = false
has_field f (g ∷ gs) = same_field f g || has_field f gs

-- `sorted([...], key=lambda write: -write[1])` of the two rates: stable, the higher one first.
unfoldable pub rate_writes : Float → Float → List (Field × Float)
rate_writes i o =
    if ltb_ℤ i o then (out_w_rte, o) ∷ (in_w_rte, i) ∷ [] else (in_w_rte, i) ∷ (out_w_rte, o) ∷ []

-- `[write for write in rate_writes if write[0] != kept[0]]`
unfoldable pub without_kept : Option (Field × Float) → List (Field × Float) → List (Field × Float)
without_kept none writes = writes
without_kept (some k) [] = []
without_kept (some k) ((f, v) ∷ writes) =
    let rest = without_kept (some k) writes in if same_field f k.0 then rest else (f, v) ∷ rest

-- `_GRID_POWER_FIELDS.get(mode)`
unfoldable pub grid_power_field : ExtendedMode → Option Field
grid_power_field charge_from_grid = some out_w_rte
grid_power_field discharge_to_grid = some in_w_rte
grid_power_field _ = none

abbrev pub float_values : List (Field × Float) → List (Field × Value)
float_values [] = []
float_values ((f, v) ∷ writes) = (f, float v) ∷ float_values writes

-- `written[name] = value`
abbrev pub note : Field → Float → Written → Written
note in_w_rte v w = record w { in_w_rte = some v }
note out_w_rte v w = record w { out_w_rte = some v }
note _ v w = w

-- `self._written.get(field_name, 0.0)`
abbrev pub rate_of : Written → Field → Option Float
rate_of w in_w_rte = w.in_w_rte
rate_of w out_w_rte = w.out_w_rte
rate_of w _ = none

abbrev pub or_zero : Option Float → Float
or_zero none = zero_float
or_zero (some v) = v

-- `mode is self._extended_mode`
abbrev pub is_selected : ExtendedMode → Option ExtendedMode → Bool
is_selected x none = false
is_selected x (some y) = same_mode x y

-- `image[1 if field_name == "in_w_rte" else 2]`
abbrev pub rate_in : Field → Image → Float
rate_in in_w_rte r = r.in_rate
rate_in _ r = r.out_rate

abbrev pub note_kept : Option (Field × Float) → Written → Written
note_kept none w = w
note_kept (some (f, v)) w = note f v w

-- The writes of `set_mode`, in their order: the rates, the higher one first, then the mode.
unfoldable pub mode_writes : ExtendedMode → Option (Field × Float) → List (Field × Value)
mode_writes x kept =
    let r = mode_table x in
    float_values (without_kept kept (rate_writes r.in_rate r.out_rate))
    ++ (stor_ctl_mod, int r.mode) ∷ []
