-- ===== src/Registers/Interface.antt =====
-- What the library modbus_connection gives a component: its registers over the transport, and
-- the codec of its fields. The world `W` is the library's own; nothing is assumed of it here.
use fronius_modbus.Common.{ℕ, Bool, Option, List, ℤ, Float}
use fronius_modbus.Exec.{Exec}

-- What a register holds to Python: an int or a float.
pub data Value : Type 0 where
  int : ℕ → Value
  float : Float → Value

-- `encode` is `none` where it raises, `decode` where the point is not implemented.
pub record Component (W F V : Type 0) : Type 0 where
  -- `field.scale_register` and `resolved.scale_address` are there
  pub has_scale : F → Bool
  pub decode_int : ℕ → ℤ
  pub encode : F → V → Option ℤ → Option (List ℕ)
  pub decode : F → List ℕ → Option ℤ → Option V
  -- `unit.read_holding_registers(resolved.address, resolved.count)`
  pub read_words : F → Exec W (List ℕ)
  -- `unit.read_holding_registers(resolved.scale_address, 1)`
  pub read_scale : F → Exec W ℕ
  -- `component.write(name, value)`
  pub write : F → V → Exec W (Unit {0})
  -- `component.async_update()`
  pub update : Exec W (Unit {0})
