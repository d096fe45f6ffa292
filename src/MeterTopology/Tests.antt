-- ===== src/MeterTopology/Tests.antt =====
-- Answers of the web API for meter_topology.py.
use fronius_modbus.Common.{◌≡◌, refl, some, [], ◌∷◌, pos, false}
use fronius_modbus.MeterTopology.{
  Info, parse_meter_topology, confirmed_is_whole, supported, topology_of, has_unit,
}

-- A broadcast address among the units, and a location of an unknown one.
abbrev answer : Info
answer = record {
  unit_ids = pos 200 ∷ pos 0 ∷ pos 201 ∷ [];
  primary_unit_id = some (pos 201);
  locations_by_unit_id = (pos 201, pos 0) ∷ (pos 9, pos 1) ∷ [];
  incomplete = false;
}

abbrev whole : Info
whole = record answer { unit_ids = pos 200 ∷ pos 201 ∷ [] }

confirmed_is_whole_example :
    ((parse_meter_topology (some whole)).unit_ids ≡ whole.unit_ids) × (whole.incomplete ≡ false)
unfolding parse_meter_topology supported topology_of has_unit
confirmed_is_whole_example = confirmed_is_whole whole refl
