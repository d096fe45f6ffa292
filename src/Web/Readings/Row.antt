-- ===== src/Web/Readings/Row.antt =====
-- One row of COMPONENT_READINGS of component_readings.py.
use Prim.Native.String.{String}
use fronius_modbus.Common.{Bool, true, false, Option, none, List}

pub data Component : Type 0 where
  inverter storage : Component

pub data Transform : Type 0 where
  as_is positive yes_no : Transform

pub record ComponentReading : Type 0 where
  pub key : String
  pub component : Component
  pub fields : List String
  pub unit : Option String
  pub device_class : Option String
  pub measurement : Bool
  pub diagnostic : Bool
  pub enabled : Bool
  pub transform : Transform
  pub suggested_unit : Option String
  pub once_reported : Bool

-- A row with the defaults of the dataclass behind its fifth argument.
abbrev pub row : String → Component → List String → Option String → Option String → ComponentReading
row k c fs u d = record {
  key = k;
  component = c;
  fields = fs;
  unit = u;
  device_class = d;
  measurement = true;
  diagnostic = false;
  enabled = true;
  transform = as_is;
  suggested_unit = none;
  once_reported = false;
}

abbrev pub is_same : Component → Component → Bool
is_same inverter inverter = true
is_same storage storage = true
is_same inverter storage = false
is_same storage inverter = false
