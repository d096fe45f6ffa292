-- ===== src/Storage/SetMode.antt =====
-- `set_mode` of StorageControl (fronius_modbus_api/storage.py).
use fronius_modbus.Common.{Option, none, some, List, [], ◌∷◌, if◌then◌else◌, Float}
use fronius_modbus.Numbers.{Numbers}
use fronius_modbus.Exec.{Exec, ◌>>=◌, ◌>>◌, pure, gets, modify}
use fronius_modbus.Registers.{Component, registers_holding, written_value, Value, float}
use fronius_modbus.Storage.Modes.{ExtendedMode, Image, mode_table}
use fronius_modbus.Storage.Control.{StorageControl, Written, holds_selected}
use fronius_modbus.Storage.Fields.{
  Field, has_field, rate_writes, without_kept, grid_power_field, note, rate_of, or_zero,
  is_selected, rate_in, note_kept, mode_writes,
}
use fronius_modbus.Storage.Live.{on_bus, with_lock, as_float, live_image}

-- `_grid_power_kept` for a grid mode that is selected already.
unfoldable pub kept_rate : ExtendedMode → Field → Written → Option Image → Option (Field × Float)
kept_rate x f w none = some (f, or_zero (rate_of w f))
kept_rate x f w (some r) = if holds_selected w x r then some (f, rate_in f r) else none

module _ {W : Type 0} (c : Component W Field Value) (numbers : Numbers) where
  unfoldable pub kept_power :
      ExtendedMode → Option Field → Exec (StorageControl W) (Option (Field × Float))
  kept_power x none = pure none
  kept_power x (some f) = do
    s ← gets (λ s. s)
    if is_selected x s.selected
        then (do r ← on_bus (live_image c numbers); pure (kept_rate x f s.written r))
        else pure none

  -- `_grid_power_kept`
  unfoldable pub grid_power_kept : ExtendedMode → Exec (StorageControl W) (Option (Field × Float))
  grid_power_kept x = kept_power x (grid_power_field x)

  -- `{name: await written_value(...) for name, value in rate_writes}`
  unfoldable pub written_rates : List (Field × Float) → Exec W Written
  written_rates [] = pure (record { in_w_rte = none; out_w_rte = none })
  written_rates ((f, v) ∷ writes) = do
    held ← written_value c f (float v)
    rest ← written_rates writes
    pure (note f (as_float numbers held) rest)

  -- `for field_name, value in writes: if field_name not in holding: await storage.write(...)`
  unfoldable pub write_all : List Field → List (Field × Value) → Exec W (Unit {0})
  write_all holding [] = pure tt
  write_all holding ((f, v) ∷ writes) =
      (if has_field f holding then pure tt else c.write f v) >> write_all holding writes

  unfoldable pub write_mode : ExtendedMode → Option (Field × Float) → Exec W Written
  write_mode x kept = do
    holding ← registers_holding c (mode_writes x kept)
    let r = mode_table x
    written ← written_rates (without_kept kept (rate_writes r.in_rate r.out_rate))
    write_all holding (mode_writes x kept)
    pure (note_kept kept written)

  abbrev own_mode : ExtendedMode → Written → StorageControl W → StorageControl W
  own_mode x w s = record s { selected = some x; unconfirmed_polls = some 0; written = w }

  unfoldable pub set_mode : ExtendedMode → Exec (StorageControl W) (Unit {0})
  set_mode x = with_lock (do
    kept ← grid_power_kept x
    written ← on_bus (write_mode x kept)
    modify (own_mode x written))
