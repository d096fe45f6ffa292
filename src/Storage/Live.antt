-- ===== src/Storage/Live.antt =====
-- The registers of the storage as they are now, and the lock (fronius_modbus_api/storage.py).
use fronius_modbus.Common.{ℕ, true, false, Option, none, some, Float}
use fronius_modbus.Numbers.{Numbers}
use fronius_modbus.Exec.{Exec, ◌>>=◌, pure, zoom}
use fronius_modbus.Registers.{Component, register_value, Value, int, float}
use fronius_modbus.Storage.Modes.{Image}
use fronius_modbus.Storage.Control.{StorageControl, applied}
use fronius_modbus.Storage.Fields.{Field, stor_ctl_mod, in_w_rte, out_w_rte}

module _ {W A : Type 0} where
  abbrev pub on_bus : Exec W A → Exec (StorageControl W) A
  on_bus m = zoom (λ s. s.bus) (λ w s. record s { bus = w }) m

  -- `async with self._write_lock`
  unfoldable pub with_lock : Exec (StorageControl W) A → Exec (StorageControl W) A
  with_lock m s = let (r, s') = m (record s { locked = true }) in (r, record s' { locked = false })

module _ (numbers : Numbers) where
  -- `int(value)` and `float(value)` of what a register reads as
  abbrev pub as_int : Value → ℕ
  as_int (int n) = n
  as_int (float x) = numbers.int_of x

  abbrev pub as_float : Value → Float
  as_float (int n) = numbers.float_of n
  as_float (float x) = x

  abbrev pub image_of : Option Value → Option Value → Option Value → Option Image
  image_of (some m) (some i) (some o) = some (applied (as_int m) (as_float i) (as_float o))
  image_of _ _ _ = none

module _ {W : Type 0} (c : Component W Field Value) (numbers : Numbers) where
  -- `_live_image`
  unfoldable pub live_image : Exec W (Option Image)
  live_image = do
    m ← register_value c stor_ctl_mod
    i ← register_value c in_w_rte
    o ← register_value c out_w_rte
    pure (image_of numbers m i o)
