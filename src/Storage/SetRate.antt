-- ===== src/Storage/SetRate.antt =====
-- The rate and reserve writes of StorageControl (fronius_modbus_api/storage.py).
use fronius_modbus.Common.{
  ℕ, Bool, ◌&&◌, not, Option, none, some, [], ◌∷◌, ◌==◌, if◌then◌else◌, Float, zero_float,
  max_float, ltb_ℤ, leb_ℤ, neg_ℤ,
}
use fronius_modbus.Numbers.{Numbers}
use fronius_modbus.Exec.{
  Exec, refused, ◌>>=◌, ◌>>◌, pure, gets, guard, modify, Key, storage_mode_left,
  charge_limit_not_in_mode, discharge_limit_not_in_mode, grid_charge_power_not_in_mode,
  grid_discharge_power_not_in_mode, value_not_whole, value_out_of_range, limit_blocks_both_ways,
  grid_power_beyond_window,
}
use fronius_modbus.Registers.{Component, registers_holding, written_value, Value, int, float}
use fronius_modbus.Storage.Modes.{
  ExtendedMode, charge_from_grid, discharge_to_grid, same_mode, Image, mode_charge_and_discharge,
  mode_table, in_charge_limit_modes, in_discharge_limit_modes, with_charge_bit, with_discharge_bit,
  watts_to_percent,
}
use fronius_modbus.Storage.Control.{StorageControl, extended_mode, holds_selected}
use fronius_modbus.Storage.Fields.{
  Field, stor_ctl_mod, in_w_rte, out_w_rte, min_rsv_pct, has_field, soc_minimum_lowest,
  soc_minimum_highest,
}
use fronius_modbus.Storage.Live.{on_bus, with_lock, as_float, live_image}

-- The rates that a write of `value` to one of them leaves.
abbrev pub set_rate : Field → Float → Image → Float × Float
set_rate in_w_rte value r = (value, r.out_rate)
set_rate _ value r = (r.in_rate, value)

-- `mode | (MODE_CHARGE if field_name == "in_w_rte" else MODE_DISCHARGE)`
abbrev pub switched_on : Field → ℕ → ℕ
switched_on in_w_rte m = with_charge_bit m
switched_on _ m = with_discharge_bit m

abbrev pub blocks_both : Float × Float → Bool
blocks_both (i, o) = leb_ℤ i zero_float && leb_ℤ o zero_float

abbrev pub beyond_window : ℕ → Float × Float → Bool
beyond_window mode' (i, o) = mode' == mode_charge_and_discharge && ltb_ℤ o (neg_ℤ i)

module _ {W : Type 0} (c : Component W Field Value) (numbers : Numbers) where
  -- `_image_for_a_rate` once the registers are read: the image, or the mode's table.
  unfoldable pub image_or_table : Option Image → Exec (StorageControl W) Image
  image_or_table none = gets (λ s. mode_table (extended_mode s))
  image_or_table (some r) = do
    s ← gets (λ s. s)
    guard (holds_selected s.written (extended_mode s) r) (refused storage_mode_left)
    pure r

  -- `_image_for_a_rate`
  unfoldable pub image_for_a_rate : Exec (StorageControl W) Image
  image_for_a_rate = do found ← on_bus (live_image c numbers); image_or_table found

  abbrev own_rates : Float → Float → StorageControl W → StorageControl W
  own_rates i o s = record s {
    written = record { in_w_rte = some i; out_w_rte = some o };
    unconfirmed_polls = some 0;
  }

  -- The writes of `_write_rate`, and what it remembers of them.
  unfoldable pub send_rate : Field → Float → Image → Exec (StorageControl W) (Unit {0})
  send_rate f value r = do
    holding ← on_bus (registers_holding c ((f, float value) ∷ []))
    (if has_field f holding then pure tt else on_bus (c.write f (float value)))
    (if switched_on f r.mode == r.mode
        then pure tt
        else on_bus (c.write stor_ctl_mod (int (switched_on f r.mode))))
    let (i, o) = set_rate f value r
    modify (own_rates i o)

  -- `_write_rate` from the two refusals on.
  unfoldable pub write_rate_in : Field → Float → Image → Exec (StorageControl W) (Unit {0})
  write_rate_in f value r = do
    guard (not (blocks_both (set_rate f value r))) (refused limit_blocks_both_ways)
    guard (not (beyond_window (switched_on f r.mode) (set_rate f value r)))
        (refused grid_power_beyond_window)
    send_rate f value r

  -- `_write_rate`: the percentage and the test on the mode are computed under the lock.
  unfoldable pub write_rate :
      Field
      → (StorageControl W → Float)
      → (ExtendedMode → Bool)
      → Key
      → Exec (StorageControl W) (Unit {0})
  write_rate f percent allowed refusal = with_lock (do
    s ← gets (λ s. s)
    guard (allowed (extended_mode s)) (refused refusal)
    value ← on_bus (written_value c f (float (percent s)))
    r ← image_for_a_rate
    write_rate_in f (as_float numbers value) r)

  abbrev pub charge_percent : Float → StorageControl W → Float
  charge_percent watts s =
      watts_to_percent numbers.percent_of (max_float watts zero_float) s.max_charge_rate_w

  abbrev pub discharge_percent : Float → StorageControl W → Float
  discharge_percent watts s =
      watts_to_percent numbers.percent_of (max_float watts zero_float) s.max_discharge_rate_w

  unfoldable pub set_charge_limit_w : Float → Exec (StorageControl W) (Unit {0})
  set_charge_limit_w watts =
      write_rate in_w_rte (charge_percent watts) in_charge_limit_modes charge_limit_not_in_mode

  unfoldable pub set_discharge_limit_w : Float → Exec (StorageControl W) (Unit {0})
  set_discharge_limit_w watts =
      write_rate out_w_rte (discharge_percent watts) in_discharge_limit_modes
        discharge_limit_not_in_mode

  unfoldable pub set_grid_charge_power_w : Float → Exec (StorageControl W) (Unit {0})
  set_grid_charge_power_w watts =
      write_rate out_w_rte (λ s. neg_ℤ (charge_percent watts s)) (λ x. same_mode x charge_from_grid)
        grid_charge_power_not_in_mode

  unfoldable pub set_grid_discharge_power_w : Float → Exec (StorageControl W) (Unit {0})
  set_grid_discharge_power_w watts =
      write_rate in_w_rte (λ s. neg_ℤ (discharge_percent watts s))
        (λ x. same_mode x discharge_to_grid) grid_discharge_power_not_in_mode

  -- `_write_changed`
  unfoldable pub write_changed : Field → Float → Exec W (Unit {0})
  write_changed f v = do
    holding ← registers_holding c ((f, float v) ∷ [])
    (if has_field f holding then pure tt else c.write f (float v))

  unfoldable pub set_minimum_reserve : Float → Exec (StorageControl W) (Unit {0})
  set_minimum_reserve percent =
      guard (numbers.is_integer percent) (refused value_not_whole)
      >> guard (leb_ℤ soc_minimum_lowest percent && leb_ℤ percent soc_minimum_highest)
          (refused value_out_of_range)
      >> with_lock (on_bus (write_changed min_rsv_pct (numbers.truncated percent)))
