-- ===== src/Controls/Switches.antt =====
-- The setters of InverterControls (fronius_modbus_api/controls.py).
use fronius_modbus.Common.{
  ℕ, Bool, ◌&&◌, none, some, if◌then◌else◌, Float, zero_float, neg_ℤ, max_float, min_float, leb_ℤ,
}
use fronius_modbus.Numbers.{Numbers}
use fronius_modbus.Exec.{
  Exec, refused, ac_limit_without_max_power, value_out_of_range, ◌>>=◌, ◌>>◌, pure, raise, gets,
  guard, modify,
}
use fronius_modbus.Controls.{
  Outside, w_max_lim_ena, w_max_lim_pct, out_pf_set_ena, out_pf_set, conn, InverterControls,
  known_power, on_bus, write_with_pulse, write_changed, percent, one, apply_mask_seconds,
}

abbrev enabled_value : Bool → ℕ
enabled_value b = if b then 1 else 0

module _ {W : Type 0} where
  abbrev mask_ac_limit : Float → InverterControls W → InverterControls W
  mask_ac_limit until s = record s { ac_limit_mask_until = until }

  abbrev mask_power_factor : Float → InverterControls W → InverterControls W
  mask_power_factor until s = record s { power_factor_mask_until = until }

module _ {W : Type 0} (o : Outside W) (numbers : Numbers) where
  -- `max(0.0, min(PERCENT, watts / self.max_power_w * PERCENT))`
  unfoldable pub ac_limit_percent : Float → Float → Float
  ac_limit_percent watts maximum =
      max_float zero_float (min_float percent (numbers.percent_of watts maximum))

  abbrev pub mask_end : InverterControls W → Float
  mask_end s = numbers.add (o.monotonic s.bus) apply_mask_seconds

  -- `set_ac_limit_w` with a known maximum.
  unfoldable pub limit_ac : Float → Exec (InverterControls W) (Unit {0})
  limit_ac pct = do
    until ← gets mask_end
    modify (mask_ac_limit until)
    was_enabled ← on_bus (write_with_pulse o w_max_lim_ena w_max_lim_pct pct)
    if was_enabled then pure tt else modify (mask_ac_limit zero_float)

  unfoldable pub set_ac_limit_w : Float → Exec (InverterControls W) (Unit {0})
  set_ac_limit_w watts s = elim (known_power s.max_power_w) [
    | none ↦ raise (refused ac_limit_without_max_power) s
    | some maximum ↦ limit_ac (ac_limit_percent watts maximum) s
  ]

  unfoldable pub set_ac_limit_enable : Bool → Exec (InverterControls W) (Unit {0})
  set_ac_limit_enable enabled = do
    on_bus (write_changed o w_max_lim_ena (enabled_value enabled))
    modify (mask_ac_limit zero_float)

  unfoldable pub set_power_factor : Float → Exec (InverterControls W) (Unit {0})
  set_power_factor value = do
    guard (leb_ℤ (neg_ℤ one) value && leb_ℤ value one) (refused value_out_of_range)
    until ← gets mask_end
    modify (mask_power_factor until)
    was_enabled ← on_bus (write_with_pulse o out_pf_set_ena out_pf_set value)
    if was_enabled then pure tt else modify (mask_power_factor zero_float)

  unfoldable pub set_power_factor_enable : Bool → Exec (InverterControls W) (Unit {0})
  set_power_factor_enable enabled = do
    on_bus (write_changed o out_pf_set_ena (enabled_value enabled))
    modify (mask_power_factor zero_float)

  unfoldable pub set_connected : Bool → Exec (InverterControls W) (Unit {0})
  set_connected value = on_bus (write_changed o conn (enabled_value value))
