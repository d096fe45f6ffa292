-- ===== src/Device/Library.antt =====
-- What device.py takes from modbus_connection: the SunSpec chain of a unit, its identity, the
-- refresh of a component. The world `W` is the library's own.
use fronius_modbus.Common.{ℕ, Bool, Option, List, Float}
use fronius_modbus.Exec.{Exec}

-- SunSpecModel: where a model's block starts, and its length.
pub record Model : Type 0 where
  pub model_id : ℕ
  pub address : ℕ
  pub length : ℕ

-- SunSpecModels: a dict from model ids to the models found, in their order.
abbrev pub Chain : Type 0
Chain = List (ℕ × List Model)

-- What a poll refreshes, by its report name; `discovery` names the chain itself.
pub data Name : Type 0 where
  discovery inverter nameplate settings status controls mppt storage : Name
  meter : ℕ → Name

-- `Identity` is DeviceIdentity; its texts are only compared.
pub record Library (W Identity : Type 0) : Type 0 where
  -- `scan(unit, SUNSPEC_BASE_ADDRESS)`
  pub scan : ℕ → Exec W Chain
  -- `unit.read_holding_registers(address, MARKER_WORDS)`: a model's id and length
  pub read_header : ℕ → ℕ → Exec W (ℕ × ℕ)
  -- `chain.first(*ids)`
  pub first : Chain → List ℕ → Option Model
  -- `model.span`
  pub span : Model → ℕ
  -- `_read_identity` of the common model at the unit
  pub read_identity : ℕ → Model → Exec W Identity
  pub same_identity : Identity → Identity → Bool
  -- `component.async_update()`
  pub update : Name → Exec W (Unit {0})
  -- `time.monotonic()`
  pub monotonic : W → Float
  -- whether SunSpecError and SunSpecMapShiftError derive from ModbusError
  pub sunspec_is_modbus : Bool
