-- ===== src/Storage/Control.antt =====
-- The state of StorageControl (fronius_modbus_api/storage.py), what it reads off the last poll,
-- and `sync_from_device`.
use fronius_modbus.Common.{
  ℕ, ◌+◌, Bool, true, false, ◌&&◌, ◌||◌, not, Option, none, some, ◌==◌, ltb, if◌then◌else◌, Float,
  zero_float, max_float, eqb_ℤ, ltb_ℤ, neg_ℤ,
}
use fronius_modbus.Storage.Modes.{
  ExtendedMode, auto, discharge_to_grid, same_mode, Image, mode_charge, mode_discharge,
  mode_write_grace_polls, effective_rates, derive_extended_mode, registers_fit,
}

-- The points of the storage component that the last poll read.
pub record Polled : Type 0 where
  pub stor_ctl_mod : Option ℕ
  pub in_w_rte : Option Float
  pub out_w_rte : Option Float
  pub cha_gri_set : Option ℕ
  pub min_rsv_pct : Option Float

-- `_written`: a dict that has at most these two keys.
pub record Written : Type 0 where
  pub in_w_rte : Option Float
  pub out_w_rte : Option Float

abbrev pub nothing_written : Written
nothing_written = record { in_w_rte = none; out_w_rte = none }

-- `bus` is the library's side of the storage component: the device and the link to it.
pub record StorageControl (W : Type 0) : Type 0 where
  pub bus : W
  pub polled : Polled
  pub max_charge_rate_w : Float
  pub max_discharge_rate_w : Float
  pub selected : Option ExtendedMode
  pub unconfirmed_polls : Option ℕ
  pub locked : Bool
  pub written : Written

-- `__init__`
unfoldable pub new_control : {W : Type 0} → W → Polled → Float → Float → StorageControl W
new_control bus polled max_charge max_discharge = record {
  bus = bus;
  polled = polled;
  max_charge_rate_w = max_charge;
  max_discharge_rate_w = max_discharge;
  selected = none;
  unconfirmed_polls = none;
  locked = false;
  written = nothing_written;
}

-- An image as the device applies it.
unfoldable pub applied : ℕ → Float → Float → Image
unfolding effective_rates
applied mode in_rate out_rate =
    let (i, o) = effective_rates mode in_rate out_rate in
    record { mode = mode; in_rate = i; out_rate = o }

-- `_applied_image`
unfoldable pub applied_image : Polled → Option Image
unfolding applied
applied_image p = elim p.stor_ctl_mod [
  | none ↦ none
  | some mode ↦ elim p.in_w_rte [
    | none ↦ none
    | some i ↦ elim p.out_w_rte [ none ↦ none | some o ↦ some (applied mode i o) ]
  ]
]

abbrev pub same_float : Option Float → Float → Bool
same_float none x = false
same_float (some y) x = eqb_ℤ y x

-- `self._written == {"in_w_rte": in_rate, "out_w_rte": out_rate}`
abbrev pub wrote : Written → Float → Float → Bool
wrote w i o = same_float w.in_w_rte i && same_float w.out_w_rte o

-- `_holds_selected`
unfoldable pub holds_selected : Written → ExtendedMode → Image → Bool
holds_selected w selected r =
    if same_mode (derive_extended_mode r) selected
    then true
    else if not (registers_fit selected r)
    then false
    else wrote w r.in_rate r.out_rate

-- The property `extended_mode`.
abbrev pub or_auto : Option ExtendedMode → ExtendedMode
or_auto none = auto
or_auto (some x) = x

-- `value == 1`, which holds of no None.
abbrev pub is_one : Option ℕ → Bool
is_one none = false
is_one (some n) = n == 1

module _ {W : Type 0} where
  abbrev pub extended_mode : StorageControl W → ExtendedMode
  extended_mode s = or_auto s.selected

  -- The end of `sync_from_device`, where the registers replace the mode that was chosen.
  abbrev pub take_over : ExtendedMode → StorageControl W → StorageControl W
  take_over derived s = record s {
    selected = some derived;
    unconfirmed_polls = none;
    written = nothing_written;
  }

  -- `sync_from_device` once the image is read.
  unfoldable pub sync_image : Image → StorageControl W → StorageControl W
  sync_image r s =
      let derived = derive_extended_mode r in
      elim s.selected [
        | none ↦ record s { selected = some derived }
        | some x ↦
            if holds_selected s.written x r
            then record s { unconfirmed_polls = none }
            else elim s.unconfirmed_polls [
              | none ↦ take_over derived s
              | some n ↦
                  if ltb (n + 1) mode_write_grace_polls
                  then record s { unconfirmed_polls = some (n + 1) }
                  else take_over derived s
            ]
      ]

  unfoldable pub sync_from_device : StorageControl W → StorageControl W
  unfolding sync_image
  sync_from_device s =
      if s.locked then s else elim (applied_image s.polled) [ none ↦ s | some r ↦ sync_image r s ]

  -- The property `control_mode`.
  unfoldable pub control_mode : StorageControl W → Option ℕ
  control_mode s = elim (applied_image s.polled) [
    | none ↦ none
    | some r ↦ some (
        if ltb_ℤ r.out_rate zero_float
          || (r.mode == mode_discharge
              && is_one s.polled.cha_gri_set
              && eqb_ℤ r.out_rate zero_float)
        then mode_charge
        else if ltb_ℤ r.in_rate zero_float
            || (r.mode == mode_charge
                && same_mode (extended_mode s) discharge_to_grid
                && eqb_ℤ r.in_rate zero_float)
        then mode_discharge
        else r.mode)
  ]

-- What the four rate properties show of a rate: its positive share, or its negative one.
unfoldable pub discharge_limit_pct : Polled → Option Float
unfolding applied_image
discharge_limit_pct p = elim (applied_image p) [
  | none ↦ none
  | some r ↦ some (max_float r.out_rate zero_float)
]

unfoldable pub grid_charge_power_pct : Polled → Option Float
unfolding applied_image
grid_charge_power_pct p = elim (applied_image p) [
  | none ↦ none
  | some r ↦ some (max_float (neg_ℤ r.out_rate) zero_float)
]

unfoldable pub charge_limit_pct : Polled → Option Float
unfolding applied_image
charge_limit_pct p = elim (applied_image p) [
  | none ↦ none
  | some r ↦ some (max_float r.in_rate zero_float)
]

unfoldable pub grid_discharge_power_pct : Polled → Option Float
unfolding applied_image
grid_discharge_power_pct p = elim (applied_image p) [
  | none ↦ none
  | some r ↦ some (max_float (neg_ℤ r.in_rate) zero_float)
]
