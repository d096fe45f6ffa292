-- ===== src/Controls.antt =====
-- Immediate controls (SunSpec 123) with the enable pulse: fronius_modbus_api/controls.py. The lock
-- only keeps writes apart, so one action at a time needs none.
pub mod Pulse
pub mod Switches
mod Tests
use fronius_modbus.Common.{
  ℕ, Bool, true, false, Option, none, some, List, [], ◌∷◌, ◌==◌, ◌&&◌, not, if◌then◌else◌, Float,
  zero_float, pos, neg_ℤ, max_float, min_float, ltb_ℤ, leb_ℤ, eqb_ℤ,
}
use fronius_modbus.Numbers.{Numbers}
use fronius_modbus.Exec.{
  Exec, Error, ModbusError, modbus, left_disabled, bad_value, cancelled, sunspec, map_shift,
  refused, Result, ok, err, ac_limit_without_max_power, value_out_of_range, ◌>>=◌, ◌>>◌, pure,
  raise, gets, guard, modify, attempt, zoom,
}
use fronius_modbus.Registers.{Component, Value, int, float, registers_holding}

-- APPLY_MASK_SECONDS: 1.5
abbrev pub apply_mask_seconds : Float
apply_mask_seconds = pos 0x3ff8000000000000

-- PERCENT: 100.0
abbrev pub percent : Float
percent = pos 0x4059000000000000

-- 1.0
abbrev pub one : Float
one = pos 0x3ff0000000000000

-- The points of the Controls component.
pub data Field : Type 0 where
  w_max_lim_ena w_max_lim_pct out_pf_set_ena out_pf_set v_ar_pct_ena conn : Field

-- The points that the last refresh read, flags as ints.
pub record Points : Type 0 where
  pub w_max_lim_ena : Option ℕ
  pub w_max_lim_pct : Option Float
  pub out_pf_set_ena : Option ℕ
  pub out_pf_set : Option Float
  pub v_ar_pct_ena : Option ℕ
  pub conn : Option ℕ

-- What this file takes from outside: the component, its points, and the two clocks.
pub record Outside (W : Type 0) : Type 0 where
  pub component : Component W Field Value
  pub points : W → Points
  -- `time.monotonic()`
  pub monotonic : W → Float
  -- `asyncio.sleep(APPLY_TOGGLE_DELAY_SECONDS)`
  pub sleep : Exec W (Unit {0})
  -- whether the caller is cancelled while it awaits the write that switches the control back on;
  -- a second cancellation, while it waits for that write to end, is left out
  pub interrupted : W → Bool

abbrev pub flag_of : Field → Points → Option ℕ
flag_of w_max_lim_ena p = p.w_max_lim_ena
flag_of out_pf_set_ena p = p.out_pf_set_ena
flag_of v_ar_pct_ena p = p.v_ar_pct_ena
flag_of conn p = p.conn
flag_of _ p = none

-- `value == ENABLED`, which holds of no None, and the flag's three answers.
abbrev pub is_enabled : Option ℕ → Bool
is_enabled none = false
is_enabled (some n) = n == 1

abbrev pub state_of : Option ℕ → Option Bool
state_of none = none
state_of (some n) = some (n == 1)

pub record InverterControls (W : Type 0) : Type 0 where
  pub bus : W
  pub max_power_w : Option Float
  pub ac_limit_mask_until : Float
  pub power_factor_mask_until : Float

-- `__init__`
unfoldable pub new_controls : {W : Type 0} → W → Option Float → InverterControls W
new_controls bus max_power_w = record {
  bus = bus;
  max_power_w = max_power_w;
  ac_limit_mask_until = zero_float;
  power_factor_mask_until = zero_float;
}

-- `not self.max_power_w` is false of this one
abbrev pub known_power : Option Float → Option Float
known_power none = none
known_power (some w) = if eqb_ℤ w zero_float then none else some w

abbrev pub on_bus : {W A : Type 0} → Exec W A → Exec (InverterControls W) A
on_bus m = zoom (λ s. s.bus) (λ w s. record s { bus = w }) m

module _ {W : Type 0} (o : Outside W) where
  -- `_flag`
  unfoldable pub flag : Option ℕ → Float → W → Option Bool
  flag value mask_until w = if ltb_ℤ (o.monotonic w) mask_until then some true else state_of value

  unfoldable pub ac_limit_enabled : InverterControls W → Option Bool
  ac_limit_enabled s = flag (o.points s.bus).w_max_lim_ena s.ac_limit_mask_until s.bus

  unfoldable pub power_factor_enabled : InverterControls W → Option Bool
  power_factor_enabled s = flag (o.points s.bus).out_pf_set_ena s.power_factor_mask_until s.bus

  unfoldable pub var_percent_enabled : InverterControls W → Option Bool
  var_percent_enabled s = state_of (o.points s.bus).v_ar_pct_ena

  unfoldable pub connected : InverterControls W → Option Bool
  connected s = state_of (o.points s.bus).conn

  unfoldable pub ac_limit_w : Numbers → InverterControls W → Option Float
  ac_limit_w numbers s = elim (o.points s.bus).w_max_lim_pct [
    | none ↦ none
    | some pct ↦ elim (known_power s.max_power_w) [
      | none ↦ none
      | some w ↦ some (numbers.share_of w pct)
    ]
  ]

  -- What `_restore_enable` does once the write has ended. Uninterrupted, an error that is neither
  -- a Modbus error nor a cancellation leaves `shield` as it is; interrupted, every one is reported.
  unfoldable pub restored : Bool → Result (Unit {0}) → Exec W (Unit {0})
  restored interrupted (ok u) = pure u
  restored interrupted (err (modbus e)) = raise (modbus left_disabled)
  restored interrupted (err cancelled) = raise cancelled
  restored true (err e) = raise (modbus left_disabled)
  restored false (err e) = raise e

  -- `_restore_enable`
  unfoldable pub restore_enable : Field → Exec W (Unit {0})
  restore_enable f s = attempt (o.component.write f (int 1)) (restored (o.interrupted s)) s

  -- The body of the `try` of `_write_with_pulse`.
  unfoldable pub pulse : Field → Field → Float → Exec W (Unit {0})
  pulse enable value v = do
    o.component.write enable (int 0)
    o.component.write value (float v)
    o.sleep
    o.component.write enable (int 1)

  -- `except BaseException`, and the `return True` behind it
  unfoldable pub after_pulse : Field → Result (Unit {0}) → Exec W Bool
  after_pulse enable (ok u) = pure true
  after_pulse enable (err e) = do restore_enable enable; raise e

  unfoldable pub write_enabled : Field → Field → Float → Bool → Exec W Bool
  write_enabled enable value v was_enabled =
      if was_enabled
      then attempt (pulse enable value v) (after_pulse enable)
      else (do o.component.write value (float v); pure false)

  abbrev is_empty : List Field → Bool
  is_empty [] = true
  is_empty (f ∷ fs) = false

  -- `_write_with_pulse` once the registers are compared.
  unfoldable pub write_unless_held : Field → Field → Float → List Field → Exec W Bool
  write_unless_held enable value v holding =
      if is_empty holding
      then (do p ← gets o.points; write_enabled enable value v (is_enabled (flag_of enable p)))
      else pure false

  -- `_write_with_pulse`
  unfoldable pub write_with_pulse : Field → Field → Float → Exec W Bool
  write_with_pulse enable value v = do
    o.component.update
    holding ← registers_holding o.component ((value, float v) ∷ [])
    write_unless_held enable value v holding

  -- `_write_changed`
  unfoldable pub write_changed : Field → ℕ → Exec W (Unit {0})
  write_changed f v = do
    holding ← registers_holding o.component ((f, int v) ∷ [])
    if is_empty holding then o.component.write f (int v) else pure tt
