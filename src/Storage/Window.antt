-- ===== src/Storage/Window.antt =====
-- Why `set_mode` of fronius_modbus_api/storage.py writes its registers in the order it does: the
-- firmware refuses an image whose two rates leave no window on StorCtl_Mod 3.
use fronius_modbus.Common.{
  ◌≡◌, ◌⊎◌, Option, none, some, List, [], ◌∷◌, Float, zero_float, neg_ℤ, ◌≤ℤ◌, ◌<ℤ◌, arith,
}
use fronius_modbus.Registers.{Value, int, float}
use fronius_modbus.Storage.Modes.{
  ExtendedMode, charge_from_grid, discharge_to_grid, block_charging, Image, mode_table,
  full_rate_pct, mode_charge_and_discharge,
}
use fronius_modbus.Storage.Fields.{
  Field, stor_ctl_mod, in_w_rte, out_w_rte, mode_writes, rate_writes, without_kept,
  grid_power_field,
}

-- What the device holds once a register is written.
abbrev pub put : Field → Value → Image → Image
put stor_ctl_mod (int n) r = record r { mode = n }
put in_w_rte (float v) r = record r { in_rate = v }
put out_w_rte (float v) r = record r { out_rate = v }
put _ _ r = r

-- An image that the firmware takes: rates of at most a full one either way, and on StorCtl_Mod 3 a
-- rate above zero and no negative rate beyond the other.
abbrev pub Opens : Float → Float → Type 0
Opens i o = (neg_ℤ i ≤ℤ o) × ((zero_float <ℤ i) ⊎ (zero_float <ℤ o))

abbrev pub Accepted : Image → Type 0
Accepted r =
    (neg_ℤ full_rate_pct ≤ℤ r.in_rate)
    × (neg_ℤ full_rate_pct ≤ℤ r.out_rate)
    × (r.mode ≡ mode_charge_and_discharge → Opens r.in_rate r.out_rate)

-- Each write of a list finds and leaves an image that the firmware takes.
abbrev pub AllAccepted : List (Field × Value) → Image → Type 0
AllAccepted [] r = Unit
AllAccepted ((f, v) ∷ writes) r = Accepted (put f v r) × AllAccepted writes (put f v r)

-- The rate that `_grid_power_kept` may keep: none, or that of the grid mode.
abbrev pub MayKeep : ExtendedMode → Option (Field × Float) → Type 0
MayKeep x none = Unit
MayKeep x (some (f, v)) = grid_power_field x ≡ some f

-- From any image that the firmware takes, whatever another controller left there, each write of a
-- mode leads to one that it takes, also where the mode keeps the rate of its grid power: no switch
-- is refused halfway.
pub mode_writes-AllAccepted :
    (x : ExtendedMode) (kept : Option (Field × Float)) (r : Image)
    → MayKeep x kept
    → Accepted r
    → AllAccepted (mode_writes x kept) r
unfolding mode_writes mode_table rate_writes without_kept grid_power_field
mode_writes-AllAccepted charge_from_grid (some (out_w_rte, v)) r k h = ground arith
mode_writes-AllAccepted charge_from_grid (some (f, v)) r k h = cc k
mode_writes-AllAccepted discharge_to_grid (some (in_w_rte, v)) r k h = ground arith
mode_writes-AllAccepted discharge_to_grid (some (f, v)) r k h = cc k
mode_writes-AllAccepted x (some (f, v)) r k h = cc k
mode_writes-AllAccepted block_charging none r k h = ground arith
mode_writes-AllAccepted x none r k h = ground arith
