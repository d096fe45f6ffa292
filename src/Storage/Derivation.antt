-- ===== src/Storage/Derivation.antt =====
-- What the derivation and the fit of fronius_modbus_api/storage.py decide.
use fronius_modbus.Common.{
  ◌↔◌, ◌⊎◌, true, ℕ, Float, if◌then◌else◌, refl, ◌≤◌, ◌≡◌, ◌≢◌, ◌⊎◌, arith, ◌≤ℤ◌, ◌<ℤ◌, zero_float,
}
use fronius_modbus.Storage.Modes.{
  ExtendedMode, auto, pv_charge_limit, discharge_limit, charge_and_discharge_limit,
  charge_from_grid, discharge_to_grid, block_discharging, block_charging, Image,
  derive_extended_mode, registers_fit, effective_rates, charge_bit, discharge_bit, mode_table,
  full_rate_pct,
}

-- The registers that mean a mode: the conditions of the eight rows, none of which mentions another.
abbrev pub Means : ExtendedMode → Image → Type 0
Means auto r = r.mode ≡ 0
Means charge_from_grid r = (r.mode ≢ 0) × (r.out_rate <ℤ zero_float)
Means discharge_to_grid r = (r.mode ≢ 0) × (zero_float ≤ℤ r.out_rate) × (r.in_rate <ℤ zero_float)
Means block_charging r =
    ((r.mode ≡ 1) ⊎ (r.mode ≡ 3)) × (zero_float ≤ℤ r.out_rate) × (r.in_rate ≡ zero_float)
Means pv_charge_limit r = (r.mode ≡ 1) × (zero_float ≤ℤ r.out_rate) × (zero_float <ℤ r.in_rate)
Means block_discharging r =
    (r.mode ≢ 0)
    × (r.mode ≢ 1)
    × (r.out_rate ≡ zero_float)
    × (zero_float ≤ℤ r.in_rate)
    × (r.mode ≡ 3 → r.in_rate ≢ zero_float)
Means discharge_limit r = (r.mode ≡ 2) × (zero_float <ℤ r.out_rate) × (zero_float ≤ℤ r.in_rate)
Means charge_and_discharge_limit r =
    (3 ≤ r.mode)
    × (zero_float <ℤ r.out_rate)
    × (zero_float ≤ℤ r.in_rate)
    × (r.mode ≡ 3 → r.in_rate ≢ zero_float)

derive-Means : (r : Image) → Means (derive_extended_mode r) r
unfolding derive_extended_mode
derive-Means r = ground arith

-- The derived mode is the one whose conditions the registers meet, and no other.
pub derive_iff-Means : (x : ExtendedMode) (r : Image) → (derive_extended_mode r ≡ x) ↔ Means x r
unfolding derive_extended_mode
derive_iff-Means auto r = (ground arith, ground arith)
derive_iff-Means pv_charge_limit r = (ground arith, ground arith)
derive_iff-Means _ r = (ground arith, ground arith)

-- Registers that fit a mode derive to it, or to the block mode of a side whose rate is zero.
pub derive_of_fit :
    (x : ExtendedMode) (r : Image)
    → registers_fit x r ≡ true
    → (derive_extended_mode r ≡ x)
      ⊎ (derive_extended_mode r ≡ block_charging) × (r.in_rate ≡ zero_float)
      ⊎ (derive_extended_mode r ≡ block_discharging) × (r.out_rate ≡ zero_float)
unfolding derive_extended_mode registers_fit
derive_of_fit auto r h = ground arith
derive_of_fit pv_charge_limit r h = ground arith
derive_of_fit _ r h = ground arith

-- The rates that the device applies: a rate whose bit is off is full, the other is as written.
pub effective_rates_lem :
    (m : ℕ) (i o : Float)
    → ((effective_rates m i o).0 ≡ (if charge_bit m then i else full_rate_pct))
      × ((effective_rates m i o).1 ≡ (if discharge_bit m then o else full_rate_pct))
unfolding effective_rates
effective_rates_lem m i o = ground arith

-- A table image, as the device applies it, fits its own mode: no row relies on a rate that is off.
pub fit-mode_table :
    (x : ExtendedMode)
    → registers_fit x (
        let r = mode_table x in
        let (i, o) = effective_rates r.mode r.in_rate r.out_rate in
        record { mode = r.mode; in_rate = i; out_rate = o })
      ≡ true
unfolding registers_fit effective_rates
fit-mode_table auto = refl
fit-mode_table pv_charge_limit = refl
fit-mode_table _ = refl
