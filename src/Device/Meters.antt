-- ===== src/Device/Meters.antt =====
-- Probing the meters of an inverter: `_async_probe_meter` and `_async_place_meter` of
-- fronius_modbus_api/device.py.
use fronius_modbus.Common.{
  ℕ, Bool, true, false, not, Option, none, some, List, [], ◌∷◌, ◌==◌, if◌then◌else◌,
}
use fronius_modbus.Exec.{
  Exec, Error, ModbusError, modbus, connection, other, incomplete_chain, bad_value, cancelled,
  sunspec, map_shift, refused, web, Result, ok, err, ◌>>=◌, pure, raise, attempt,
}
use fronius_modbus.Device.Library.{Library, Chain, Model}
use fronius_modbus.Device.Scan.{scan_unit, common_model_id, is_illegal_address}
use fronius_modbus.Device.State.{Device, MeterInfo, lookup, insert, erase}

-- METER_MODEL_IDS, SINGLE_PHASE_METER_MODEL_ID
abbrev pub meter_model_ids : List ℕ
meter_model_ids = 203 ∷ 201 ∷ 202 ∷ 204 ∷ []

abbrev pub single_phase_meter_model_id : ℕ
single_phase_meter_model_id = 201

-- The dicts that a probe files its meter in: the provisional ones of a discovery, or the live ones.
pub record Filed (Identity : Type 0) : Type 0 where
  pub meters : List (ℕ × MeterInfo Identity)
  pub undecided : List (ℕ × ℕ)
  pub addresses : List (ℕ × ℕ)

-- A raised error as the ModbusError that it is, if it is one.
unfoldable pub as_modbus_error : Bool → Error → Option ModbusError
as_modbus_error derives (modbus e) = some e
as_modbus_error derives sunspec = if derives then some other else none
as_modbus_error derives map_shift = if derives then some other else none
as_modbus_error derives bad_value = none
as_modbus_error derives cancelled = none
as_modbus_error derives (refused k) = none
as_modbus_error derives (web w) = none

abbrev pub is_connection : ModbusError → Bool
is_connection connection = true
is_connection _ = false

module _ {W Identity : Type 0} (l : Library W Identity) where
  -- The meter of a unit whose chain and identity are read: an unmoved one keeps its component.
  unfoldable pub meter_of : Device Identity → ℕ → Model → Model → Identity → MeterInfo Identity
  meter_of d unit_id m common identity = record {
    identity = identity;
    common = common;
    phases = if m.model_id == single_phase_meter_model_id then 1 else 3;
    component_at = elim (lookup unit_id d.meters) [
      | none ↦ m.address
      | some known ↦ elim (lookup unit_id d.meter_addresses) [
        | none ↦ m.address
        | some a ↦ if not (a == m.address) then m.address else known.component_at
      ]
    ];
    address = m.address;
  }

  -- The end of `_async_probe_meter`, at the meter's model and the common one.
  unfoldable pub found_meter :
      Device Identity → ℕ → Model → Model → Exec W (Option (MeterInfo Identity))
  found_meter d unit_id m common = do
    identity ← l.read_identity unit_id common
    pure (some (meter_of d unit_id m common identity))

  unfoldable pub with_meter :
      Device Identity → ℕ → Option Model → Option Model → Exec W (Option (MeterInfo Identity))
  with_meter d unit_id none common = pure none
  with_meter d unit_id (some m) none = raise bad_value
  with_meter d unit_id (some m) (some common) = found_meter d unit_id m common

  -- `_async_probe_meter` once the chain is read.
  unfoldable pub probe_chain :
      Device Identity → ℕ → Chain × Bool → Exec W (Option (MeterInfo Identity))
  probe_chain d unit_id (chain, complete) =
      if not complete
      then raise (modbus incomplete_chain)
      else with_meter d unit_id (l.first chain meter_model_ids)
          (l.first chain (common_model_id ∷ []))

  abbrev pub after_probe_scan :
      Device Identity → ℕ → Result (Chain × Bool) → Exec W (Option (MeterInfo Identity))
  after_probe_scan d unit_id (ok found) = probe_chain d unit_id found
  after_probe_scan d unit_id (err e) = if is_illegal_address e then pure none else raise e

  -- `_async_probe_meter`
  unfoldable pub probe_meter : Device Identity → ℕ → Exec W (Option (MeterInfo Identity))
  probe_meter d unit_id = attempt (scan_unit l unit_id) (after_probe_scan d unit_id)

  -- What `_async_place_meter` does with the outcome of the probe.
  unfoldable pub file_meter :
      ℕ → Filed Identity → Result (Option (MeterInfo Identity)) → Exec W (Filed Identity)
  file_meter unit_id f (ok none) = pure (record f { undecided = erase unit_id f.undecided })
  file_meter unit_id f (ok (some m)) = pure (record f {
    undecided = erase unit_id f.undecided;
    meters = insert unit_id m f.meters;
    addresses = insert unit_id m.address f.addresses;
  })
  file_meter unit_id f (err e) = elim (as_modbus_error l.sunspec_is_modbus e) [
    | none ↦ raise e
    | some m ↦
        if is_connection m
        then raise e
        else pure (record f { undecided = insert unit_id unit_id f.undecided })
  ]

  -- `_async_place_meter`
  unfoldable pub place_meter : Device Identity → ℕ → Filed Identity → Exec W (Filed Identity)
  place_meter d unit_id f = attempt (probe_meter d unit_id) (file_meter unit_id f)

  -- The loop over the meter units of a discovery.
  unfoldable pub place_meters : Device Identity → List ℕ → Filed Identity → Exec W (Filed Identity)
  place_meters d [] f = pure f
  place_meters d (u ∷ us) f = do g ← place_meter d u f; place_meters d us g
