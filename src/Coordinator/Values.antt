-- ===== src/Coordinator/Values.antt =====
-- The controls that a good poll builds, and the values it derives: coordinator.py.
use fronius_modbus.Common.{
  ℕ, Bool, false, not, ◌||◌, Option, none, some, List, [], ◌∷◌, if◌then◌else◌, Float, eqb_ℤ,
  zero_float,
}
use fronius_modbus.Numbers.{Numbers}
use fronius_modbus.Exec.{
  Exec, map_shift, Result, ok, err, ◌>>=◌, ◌>>◌, pure, raise, gets, modify, attempt,
}
use fronius_modbus.Storage.Control.{Polled, StorageControl, new_control, sync_from_device}
use fronius_modbus.Derived.Grid.{GridStatus, grid_status}
use fronius_modbus.Derived.Load.{household_load}
use fronius_modbus.Device.Library.{Name, inverter, meter}
use fronius_modbus.Device.State.{UpdateReport, has_name, same_name}
use fronius_modbus.Device.Meters.{as_modbus_error}
use fronius_modbus.Device.Poll.{is_empty}
use fronius_modbus.Coordinator.{
  Coordinator, ModbusPoll, Outcome, shown, update_failed, Readings, Link, default_max_rate_w,
  on_bus, reload, reset, lost_poll, reload_for_new_sub_systems,
}

-- `a or b`, which passes over None and 0.0
abbrev pub or_else : Option Float → Option Float → Option Float
or_else none b = b
or_else (some x) b = if eqb_ℤ x zero_float then b else some x

abbrev or_default_rate : Option Float → Float
or_default_rate none = default_max_rate_w
or_default_rate (some x) = if eqb_ℤ x zero_float then default_max_rate_w else x

-- `reference or (nameplate rating) or DEFAULT_MAX_RATE_W`
unfoldable pub max_rate : Option Float → Option Float → Float
max_rate reference rating = or_default_rate (or_else reference rating)

abbrev pub charge_rating : Option (Option Float × Option Float) → Option Float
charge_rating none = none
charge_rating (some (c, d)) = c

abbrev pub discharge_rating : Option (Option Float × Option Float) → Option Float
discharge_rating none = none
discharge_rating (some (c, d)) = d

-- The storage control of a poll, built once and kept current.
unfoldable pub refreshed :
    Polled → Float → Float → Option (StorageControl (Unit {0})) → StorageControl (Unit {0})
refreshed p c d none = sync_from_device (new_control tt p c d)
refreshed p c d (some s) =
    sync_from_device (record s { polled = p; max_charge_rate_w = c; max_discharge_rate_w = d })

-- `_refresh_storage_control`, on what the poll read
unfoldable pub refresh_storage_control :
    Readings → Option (StorageControl (Unit {0})) → Option (StorageControl (Unit {0}))
refresh_storage_control r s = elim r.storage [
  | none ↦ s
  | some (p, reference) ↦ some (
      refreshed p (max_rate reference (charge_rating r.nameplate))
        (max_rate reference (discharge_rating r.nameplate)) s)
]

-- The inverter's controls of `_build_controls`.
abbrev pub with_controls : Bool → Option (Option Float) → Option (Option Float)
with_controls there none = if there then some none else none
with_controls there (some w) = some w

abbrev pub with_maximum : Option (Option Float) → Option (Option Float) → Option (Option Float)
with_maximum none controls = controls
with_maximum (some w) none = none
with_maximum (some w) (some v) = some w

-- The start and the end of the read of a name.
unfoldable pub span_of : Name → List (Name × Float × Float) → Option (Float × Float)
span_of n [] = none
span_of n ((m, started, finished) ∷ spans) =
    if same_name n m then some (started, finished) else span_of n spans

module _ {W : Type 0} where
  -- `_build_controls`
  unfoldable pub build_controls : Readings → Coordinator W → Coordinator W
  build_controls r s = record s {
    storage_control = refresh_storage_control r s.storage_control;
    inverter_controls = with_maximum r.settings (with_controls r.has_controls s.inverter_controls);
  }

module _ (numbers : Numbers) (primary : ℕ) (location : Option ℕ) where
  -- `_primary_meter_fresh`
  unfoldable pub primary_meter_fresh :
      Readings → UpdateReport → Option (Option Float × Option Float)
  primary_meter_fresh r report =
      if not (has_name (meter primary) report.updated) || not (has_name inverter report.updated)
      then none
      else r.meter

  -- `meter_finished - inverter_started` of two spans that are there
  abbrev window_of : Option (Float × Float) → Option (Float × Float) → Option Float
  window_of (some (started, _)) (some (_, finished)) = some (numbers.sub finished started)
  window_of _ _ = none

  -- `_load_w`; a name in `updated` has its span, so `window_of` is there.
  abbrev load_of : Readings → Option (Option Float × Option Float) → Option Float → Option Float
  load_of r (some (w, hz)) (some window) = household_load numbers w r.inverter_w location window
  load_of r _ _ = none

  unfoldable pub load_w : Readings → UpdateReport → Option Float
  load_w r report =
      load_of r (primary_meter_fresh r report)
        (window_of (span_of inverter report.read_spans) (span_of (meter primary) report.read_spans))

  -- `_grid_status`
  abbrev status_of : Readings → Option (Option Float × Option Float) → Option GridStatus
  status_of r none = none
  status_of r (some (w, hz)) = grid_status r.inverter_hz hz

  unfoldable pub poll_grid_status : Readings → UpdateReport → Option GridStatus
  poll_grid_status r report = status_of r (primary_meter_fresh r report)

  -- `_operating_state`
  unfoldable pub operating_state : Readings → UpdateReport → Option ℕ
  operating_state r report = if has_name inverter report.updated then r.inverter_st else none

  -- The ModbusPoll of a good poll.
  unfoldable pub poll_of : Readings → UpdateReport → ModbusPoll
  poll_of r report = record {
    report = report;
    load_w = load_w r report;
    grid = poll_grid_status r report;
    operating_state = operating_state r report;
    retained = false;
  }

  module _ {W : Type 0} (l : Link W) where
    -- `_reload_for_a_new_identity` once the identities are read again, or that raised.
    abbrev identity_read : Result Bool → Exec (Coordinator W) (Unit {0})
    identity_read (ok changed) =
        modify
          (λ s. let t = record s { identity_check_due = false } in if changed then reload t else t)
    identity_read (err e) = elim (as_modbus_error l.sunspec_is_modbus e) [
      | none ↦ raise e
      | some m ↦ pure tt
    ]

    unfoldable pub reload_for_a_new_identity : Exec (Coordinator W) (Unit {0})
    reload_for_a_new_identity = do
      s ← gets (λ s. s)
      if s.identity_check_due then attempt (on_bus l.identities_changed) identity_read else pure tt

    -- A poll whose reads returned, with a sub-system that answered.
    unfoldable pub good_poll : UpdateReport → Exec (Coordinator W) Outcome
    good_poll report = do
      modify (reload_for_new_sub_systems report)
      reload_for_a_new_identity
      modify (λ s. build_controls (l.readings s.bus) s)
      gets (λ s. shown (poll_of (l.readings s.bus) report))

    -- `_async_update_data` once the device's update has ended.
    unfoldable pub after_update : Result UpdateReport → Exec (Coordinator W) Outcome
    after_update (ok report) = do
      modify reset
      if is_empty report.updated then pure update_failed else good_poll report
    after_update (err map_shift) = do modify reload; pure update_failed
    after_update (err e) = lost_poll l e (as_modbus_error l.sunspec_is_modbus e)

    -- `_async_update_data`
    unfoldable pub update_data : Exec (Coordinator W) Outcome
    update_data = attempt (on_bus l.update) after_update
