-- ===== src/Device/PartTests.antt =====
-- The MPPT channels, the identity check and the components of fronius_modbus_api/device.py on concrete modules and
-- answers.
use fronius_modbus.Common.{
  ℕ, ◌≡◌, refl, true, false, ◌||◌, none, some, List, [], ◌∷◌, ◌==◌, if◌then◌else◌, zero_float,
  length,
}
use fronius_modbus.Exec.{Result, ok, err, modbus, timeout, illegal_address}
use fronius_modbus.Device.Library.{Library, Model}
use fronius_modbus.Device.Setup.{Machine}
use fronius_modbus.Device.Poll.{async_update}
use fronius_modbus.Device.Fixed.{component_never_moves}
use fronius_modbus.Device.State.{lookup, Device, MeterInfo}
use fronius_modbus.Device.Meters.{as_modbus_error}
use fronius_modbus.Device.Channels.{Module, mppt_channels, Below, AllBelow, mppt_channels_bounds}
use fronius_modbus.Device.Identity.{identities_changed, differs, any_new, identities_changed_lem}

-- Four modules of firmware without labels.
abbrev unlabelled : Module
unlabelled = record { is_charge = false; is_discharge = false; is_pv = false; dcw = none }

abbrev four : List Module
four = unlabelled ∷ unlabelled ∷ unlabelled ∷ unlabelled ∷ []

mppt_channels_bounds_example :
    let ch = mppt_channels true (some four) in
    AllBelow (length four) ch.pv × Below (length four) ch.charge × Below (length four) ch.discharge
mppt_channels_bounds_example = mppt_channels_bounds true four

-- Unit 1 answers what is on record, unit 200 fails, and unit 201 names a new version.
abbrev answer : ℕ → Model → Result ℕ
answer u m = if u == 1 then ok 10 else if u == 200 then err (modbus timeout) else ok 31

abbrev library : Library Unit ℕ
library = record {
  scan = λ u s. (err (modbus illegal_address), s);
  read_header = λ u a s. (err (modbus illegal_address), s);
  first = λ chain ids. none;
  span = λ m. m.length;
  read_identity = λ u m s. (answer u m, s);
  same_identity = λ a b. a == b;
  update = λ n s. (ok tt, s);
  monotonic = λ s. zero_float;
  sunspec_is_modbus = true;
}

abbrev common : Model
common = record { model_id = 1; address = 40002; length = 66 }

abbrev meter_with : ℕ → MeterInfo ℕ
meter_with i = record {
  identity = i;
  common = common;
  phases = 3;
  component_at = 40070;
  address = 40070;
}

abbrev device : Device ℕ
device = record {
  unit_id = 1;
  meter_unit_ids = 200 ∷ 201 ∷ [];
  identity = some 10;
  common = some common;
  three_phase = true;
  is_set_up = true;
  present = [];
  discovery_complete = true;
  components = [];
  meter_addresses = (200, 40070) ∷ (201, 40070) ∷ [];
  meters = (200, meter_with 20) ∷ (201, meter_with 30) ∷ [];
  undecided = [];
}

identities_changed_lem_example :
    (identities_changed library device tt).0
    ≡ ok (differs library 10 device.identity || any_new library answer device.meters)
unfolding as_modbus_error
identities_changed_lem_example =
    identities_changed_lem library answer device common 10 tt (λ u m w. refl)
      ((timeout, refl, refl), (tt, tt)) refl refl

abbrev placed : Machine Unit ℕ
placed = record { device = record device { components = (103, 40070) ∷ [] }; bus = tt }

component_never_moves_example :
    lookup 103 (async_update library placed).1.device.components ≡ some 40070
component_never_moves_example = component_never_moves library 103 40070 placed refl
