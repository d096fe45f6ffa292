-- ===== src/Device/State.antt =====
-- The state of FroniusInverter (fronius_modbus_api/device.py): what discovery placed, and what a
-- poll reports. A dict is a list of its entries, by key.
use fronius_modbus.Common.{
  ℕ, Bool, true, false, ◌||◌, ◌&&◌, Option, none, some, List, [], ◌∷◌, ◌++◌, ◌==◌, if◌then◌else◌,
  Float,
}
use fronius_modbus.Exec.{ModbusError}
use fronius_modbus.Device.Library.{
  Model, Name, discovery, inverter, nameplate, settings, status, controls, mppt, storage, meter,
}

-- `d.get(k)`, `d[k] = v` and `d.pop(k, None)` of a dict with number keys
module _ {V : Type 0} where
  abbrev pub lookup : ℕ → List (ℕ × V) → Option V
  lookup k [] = none
  lookup k ((j, v) ∷ d) = if j == k then some v else lookup k d

  abbrev pub insert : ℕ → V → List (ℕ × V) → List (ℕ × V)
  insert k v [] = (k, v) ∷ []
  insert k v ((j, w) ∷ d) = if j == k then (k, v) ∷ d else (j, w) ∷ insert k v d

  abbrev pub erase : ℕ → List (ℕ × V) → List (ℕ × V)
  erase k [] = []
  erase k ((j, w) ∷ d) = if j == k then d else (j, w) ∷ erase k d

  abbrev pub keys : List (ℕ × V) → List ℕ
  keys [] = []
  keys ((j, w) ∷ d) = j ∷ keys d

-- A meter found on its unit; `component_at` is where its component reads, `address` where the
-- model of the last probe sits.
pub record MeterInfo (Identity : Type 0) : Type 0 where
  pub identity : Identity
  pub common : Model
  pub phases : ℕ
  pub component_at : ℕ
  pub address : ℕ

-- `components` are the models of `_components_by_model`, with the address that each component
-- reads; `undecided` holds the units of `_undecided_meters`.
pub record Device (Identity : Type 0) : Type 0 where
  pub unit_id : ℕ
  pub meter_unit_ids : List ℕ
  pub identity : Option Identity
  pub common : Option Model
  pub three_phase : Bool
  pub is_set_up : Bool
  pub present : List Name
  pub discovery_complete : Bool
  pub components : List (ℕ × ℕ)
  pub meter_addresses : List (ℕ × ℕ)
  pub meters : List (ℕ × MeterInfo Identity)
  pub undecided : List (ℕ × ℕ)

-- `__init__`
unfoldable pub new_device : {Identity : Type 0} → ℕ → List ℕ → Device Identity
new_device unit_id meter_unit_ids = record {
  unit_id = unit_id;
  meter_unit_ids = meter_unit_ids;
  identity = none;
  common = none;
  three_phase = false;
  is_set_up = false;
  present = [];
  discovery_complete = false;
  components = [];
  meter_addresses = [];
  meters = [];
  undecided = [];
}

-- UpdateReport; the spans are the start and the end of each read.
pub record UpdateReport : Type 0 where
  pub updated : List Name
  pub failed : List (Name × ModbusError)
  pub read_spans : List (Name × Float × Float)

abbrev pub empty_report : UpdateReport
empty_report = record { updated = []; failed = []; read_spans = [] }

abbrev pub name_code : Name → ℕ × ℕ
name_code discovery = (0, 0)
name_code inverter = (1, 0)
name_code nameplate = (2, 0)
name_code settings = (3, 0)
name_code status = (4, 0)
name_code controls = (5, 0)
name_code mppt = (6, 0)
name_code storage = (7, 0)
name_code (meter n) = (8, n)

abbrev pub same_name : Name → Name → Bool
same_name a b = let (i, j) = name_code a in let (k, m) = name_code b in (i == k) && (j == m)

abbrev pub has_name : Name → List Name → Bool
has_name n [] = false
has_name n (m ∷ ms) = same_name n m || has_name n ms

-- `report.failed[name] = err`
abbrev pub set_failed : Name → ModbusError → List (Name × ModbusError) → List (Name × ModbusError)
set_failed n e [] = (n, e) ∷ []
set_failed n e ((m, f) ∷ fs) = if same_name n m then (n, e) ∷ fs else (m, f) ∷ set_failed n e fs

abbrev pub failed_in : Name → List (Name × ModbusError) → Bool
failed_in n [] = false
failed_in n ((m, f) ∷ fs) = same_name n m || failed_in n fs

abbrev pub is_discovery : Name → Bool
is_discovery discovery = true
is_discovery _ = false

abbrev pub meter_names : List ℕ → List Name
meter_names [] = []
meter_names (n ∷ ns) = meter n ∷ meter_names ns

-- The optional models in chain order, `_polled_models`.
abbrev pub without_inverter : List Name → List Name
without_inverter [] = []
without_inverter (n ∷ ns) =
    if same_name n inverter then without_inverter ns else n ∷ without_inverter ns

-- The property `_polled`.
unfoldable pub polled : {Identity : Type 0} → Device Identity → List Name
polled d =
    if d.is_set_up
    then inverter ∷ (meter_names (keys d.meters) ++ without_inverter d.present)
    else []
