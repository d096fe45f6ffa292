-- ===== src/Device/Setup.antt =====
-- Discovery: `_async_setup`, `_optional` and `async_probe` of fronius_modbus_api/device.py.
use fronius_modbus.Common.{
  ℕ, Bool, true, false, Option, none, some, List, [], ◌∷◌, ◌==◌, if◌then◌else◌,
}
use fronius_modbus.Exec.{
  Exec, modbus, not_fronius, bad_value, map_shift, ◌>>=◌, ◌>>◌, pure, raise, gets, modify, zoom,
}
use fronius_modbus.Device.Library.{
  Library, Chain, Model, Name, inverter, nameplate, settings, status, controls, mppt, storage,
}
use fronius_modbus.Device.Scan.{scan_unit, common_model_id}
use fronius_modbus.Device.State.{Device, lookup, insert}
use fronius_modbus.Device.Meters.{Filed, place_meters}

-- INVERTER_MODEL_IDS, THREE_PHASE_INVERTER_MODEL_ID
abbrev pub inverter_model_ids : List ℕ
inverter_model_ids = 103 ∷ 101 ∷ []

abbrev pub three_phase_inverter_model_id : ℕ
three_phase_inverter_model_id = 103

-- The device and the library's side of it.
pub record Machine (W Identity : Type 0) : Type 0 where
  pub device : Device Identity
  pub bus : W

module _ {W Identity A : Type 0} where
  abbrev pub on_bus : Exec W A → Exec (Machine W Identity) A
  on_bus m = zoom (λ s. s.bus) (λ w s. record s { bus = w }) m

-- The component that a model gets, or the error of a moved block.
module _ {Identity : Type 0} where
  unfoldable pub built : ℕ → Model → Device Identity → Option (Device Identity)
  built id m d = elim (lookup id d.components) [
    | none ↦ some (record d { components = insert id m.address d.components })
    | some a ↦ if a == m.address then some d else none
  ]

module _ {W Identity : Type 0} where
  -- The inverter's model and the common one, which are both there.
  unfoldable pub choose_inverter :
      Option Model → Option Model → Exec (Machine W Identity) (Model × Model)
  choose_inverter none common = raise (modbus not_fronius)
  choose_inverter (some m) none = raise bad_value
  choose_inverter (some m) (some common) = pure (m, common)

module _ {W Identity : Type 0} where
  unfoldable pub place : Option (Device Identity) → Exec (Machine W Identity) Bool
  place none = raise map_shift
  place (some d) = do modify (λ s. record s { device = d }); pure true

  unfoldable pub optional_at : ℕ → Option Model → Exec (Machine W Identity) Bool
  optional_at id none = pure false
  optional_at id (some m) = do s ← gets (λ s. s); place (built id m s.device)

module _ {W Identity : Type 0} (l : Library W Identity) where
  -- `_optional`, which answers whether the model has a component
  unfoldable pub optional : Chain → ℕ → Exec (Machine W Identity) Bool
  optional chain id = optional_at id (l.first chain (id ∷ []))

  abbrev pub also : Bool → Name → List Name → List Name
  also b n ns = if b then n ∷ ns else ns

  -- The components of `_async_setup`, by the names of those that are there.
  unfoldable pub build_components : Chain → Model → Exec (Machine W Identity) (List Name)
  build_components chain m = do
    a ← optional chain m.model_id
    b ← optional chain 120
    c ← optional chain 121
    d ← optional chain 122
    e ← optional chain 123
    f ← optional chain 160
    g ← optional chain 124
    pure (
        also a inverter (
          also b nameplate
            (also c settings (also d status (also e controls (also f mppt (also g storage [])))))))

  -- What `_async_setup` publishes, all at once.
  abbrev publish :
      Identity
      → Model
      → Model
      → List Name
      → Filed Identity
      → Bool
      → Machine W Identity
      → Machine W Identity
  publish identity common m present filed complete s = record s {
    device = record s.device {
      identity = some identity;
      common = some common;
      three_phase = m.model_id == three_phase_inverter_model_id;
      is_set_up = true;
      present = present;
      meters = filed.meters;
      meter_addresses = filed.addresses;
      undecided = filed.undecided;
      discovery_complete = complete;
    };
  }

  abbrev fresh_maps : Device Identity → Filed Identity
  fresh_maps d = record { meters = []; undecided = []; addresses = d.meter_addresses }

  -- `_async_setup`
  unfoldable pub setup : Exec (Machine W Identity) (Unit {0})
  setup = do
    s ← gets (λ s. s)
    found ← on_bus (scan_unit l s.device.unit_id)
    models ←
        choose_inverter (l.first found.0 inverter_model_ids)
          (l.first found.0 (common_model_id ∷ []))
    identity ← on_bus (l.read_identity s.device.unit_id models.1)
    present ← build_components found.0 models.0
    t ← gets (λ s. s)
    filed ← on_bus (place_meters l t.device t.device.meter_unit_ids (fresh_maps t.device))
    modify (publish identity models.1 models.0 present filed found.1)

  -- `async_probe`
  unfoldable pub probe_inverter : ℕ → Exec W Identity
  probe_inverter unit_id = do
    found ← scan_unit l unit_id
    elim (l.first found.0 inverter_model_ids) [
      | none ↦ raise (modbus not_fronius)
      | some m ↦ elim (l.first found.0 (common_model_id ∷ [])) [
        | none ↦ raise bad_value
        | some common ↦ l.read_identity unit_id common
      ]
    ]
