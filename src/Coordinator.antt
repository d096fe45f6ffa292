-- ===== src/Coordinator.antt =====
-- The Modbus poll of the integration: FroniusModbusCoordinator of coordinator.py. What fails a poll
-- for the host application is a value here: `unreachable` and `update_failed`.
pub mod Values
pub mod Laws
pub mod Retained
pub mod Recycle
mod Tests
use fronius_modbus.Common.{
  ℕ, ◌+◌, Bool, true, false, not, ◌&&◌, Option, none, some, List, [], ◌∷◌, ◌++◌, ◌==◌, ltb,
  if◌then◌else◌, Float, zero_float, ltb_ℤ, pos, eqb_ℤ,
}
use fronius_modbus.Numbers.{Numbers}
use fronius_modbus.Exec.{
  Exec, Error, ModbusError, modbus, connection, timeout, gateway, map_shift, sunspec, bad_value,
  cancelled, refused, Result, ok, err, ◌>>=◌, ◌>>◌, pure, raise, gets, modify, attempt, zoom,
  caught_modbus,
}
use fronius_modbus.Storage.Control.{Polled, StorageControl, new_control, sync_from_device}
use fronius_modbus.Derived.Grid.{GridStatus}
use fronius_modbus.Device.Library.{Name}
use fronius_modbus.Device.State.{UpdateReport, has_name}
use fronius_modbus.Device.Meters.{as_modbus_error}
use fronius_modbus.Device.Poll.{is_timeout, is_empty}

-- TIMEOUTS_BEFORE_RECYCLE
abbrev pub timeouts_before_recycle : ℕ
timeouts_before_recycle = 3

-- DEFAULT_MAX_RATE_W: 11000
abbrev pub default_max_rate_w : Float
default_max_rate_w = pos 0x40c57c0000000000

pub record ModbusPoll : Type 0 where
  pub report : UpdateReport
  pub load_w : Option Float
  pub grid : Option GridStatus
  pub operating_state : Option ℕ
  pub retained : Bool

-- How a poll ends that raises nothing else: a ModbusPoll, DeviceUnreachable or UpdateFailed.
pub data Outcome : Type 0 where
  shown : ModbusPoll → Outcome
  unreachable update_failed : Outcome

-- `isinstance(err, NO_ANSWER)`
abbrev pub no_answer : ModbusError → Bool
no_answer connection = true
no_answer timeout = true
no_answer gateway = true
no_answer _ = false

-- `_raise_poll_failure`
unfoldable pub poll_failure : ModbusError → Outcome
poll_failure m = if no_answer m then unreachable else update_failed

-- What the last poll read of the inverter, of its settings and of its meters.
pub record Readings : Type 0 where
  pub inverter_w : Option Float
  pub inverter_hz : Option Float
  pub inverter_st : Option ℕ
  -- the primary meter's power and frequency, where that meter is there
  pub meter : Option (Option Float × Option Float)
  -- the points of the storage, where it is there, and its `w_cha_max`
  pub storage : Option (Polled × Option Float)
  -- the nameplate's `max_cha_rte` and `max_dis_cha_rte`, where it is there
  pub nameplate : Option (Option Float × Option Float)
  pub has_controls : Bool
  -- the settings' `w_max`, where they are there
  pub settings : Option (Option Float)

-- The device and its connection, as far as a poll calls them.
pub record Link (W : Type 0) : Type 0 where
  -- `device.async_update()`
  pub update : Exec W UpdateReport
  -- `device.unit.disconnect()`
  pub disconnect : Exec W (Unit {0})
  -- `device.async_identities_changed()`
  pub identities_changed : Exec W Bool
  pub readings : W → Readings
  -- `time.monotonic()`
  pub monotonic : W → Float
  pub sunspec_is_modbus : Bool

-- The coordinator; `last` is the attribute `data`, which the host application sets, and `reloads` counts the calls of `async_schedule_reload`, and the controls of the
-- inverter are their `max_power_w`. The names that failed last are only logged, and left out.
pub record Coordinator (W : Type 0) : Type 0 where
  pub bus : W
  pub last : Option ModbusPoll
  pub built_for : Option (List Name)
  pub identity_check_due : Bool
  pub timeouts : ℕ
  pub tolerate_until : Float
  pub tolerated_failures : ℕ
  pub storage_control : Option (StorageControl (Unit {0}))
  pub inverter_controls : Option (Option Float)
  pub reloads : ℕ

-- `__init__`
unfoldable pub new_coordinator : {W : Type 0} → W → Coordinator W
new_coordinator bus = record {
  bus = bus;
  last = none;
  built_for = none;
  identity_check_due = false;
  timeouts = 0;
  tolerate_until = zero_float;
  tolerated_failures = 0;
  storage_control = none;
  inverter_controls = none;
  reloads = 0;
}

-- `answered - self._built_for`
unfoldable pub without : List Name → List Name → List Name
without known [] = []
without known (n ∷ ns) = let rest = without known ns in if has_name n known then rest else n ∷ rest

-- `replace(self.data, retained=True)`
abbrev pub kept : ModbusPoll → ModbusPoll
kept p = record p { retained = true }

module _ {W : Type 0} where
  abbrev pub on_bus : {A : Type 0} → Exec W A → Exec (Coordinator W) A
  on_bus m = zoom (λ s. s.bus) (λ w s. record s { bus = w }) m

  abbrev pub reload : Coordinator W → Coordinator W
  reload s = record s { reloads = s.reloads + 1 }

  unfoldable pub tolerate_failures_until : Float → Coordinator W → Coordinator W
  tolerate_failures_until deadline s = record s { tolerate_until = deadline }

  -- `_reload_for_new_sub_systems` once the new names are known.
  unfoldable pub add_new : List Name → List Name → Coordinator W → Coordinator W
  add_new known [] s = s
  add_new known (n ∷ ns) s = record (reload s) { built_for = some (known ++ n ∷ ns) }

  -- `_reload_for_new_sub_systems`, on the names that the platforms were built for.
  unfoldable pub reload_beyond : UpdateReport → Option (List Name) → Coordinator W → Coordinator W
  reload_beyond r none s = record s { built_for = some r.updated }
  reload_beyond r (some known) s = add_new known (without known r.updated) s

  unfoldable pub reload_for_new_sub_systems : UpdateReport → Coordinator W → Coordinator W
  reload_for_new_sub_systems r s = reload_beyond r s.built_for s

  abbrev pub count_tolerated : Coordinator W → Coordinator W
  count_tolerated s = record s { tolerated_failures = s.tolerated_failures + 1 }

  abbrev reset : Coordinator W → Coordinator W
  reset s = record s { timeouts = 0; tolerate_until = zero_float; tolerated_failures = 0 }

  abbrev close_window : Coordinator W → Coordinator W
  close_window s = record s { tolerated_failures = 0; tolerate_until = zero_float }

  abbrev check_identity : Coordinator W → Coordinator W
  check_identity s = record s { identity_check_due = true }

module _ {W : Type 0} (l : Link W) where
  -- The end of `_failed_poll`, where the outage is not tolerated.
  unfoldable pub give_up : ModbusError → Exec (Coordinator W) Outcome
  give_up m = do
    s ← gets (λ s. s)
    (if s.tolerated_failures == 0 then pure tt else (modify close_window >> on_bus l.disconnect))
    modify check_identity
    pure (poll_failure m)

  abbrev pub in_window : Coordinator W → Bool
  in_window s = ltb_ℤ (l.monotonic s.bus) s.tolerate_until

  -- `_failed_poll` on the data of the last poll that was shown.
  unfoldable pub failed_with : ModbusError → Option ModbusPoll → Exec (Coordinator W) Outcome
  failed_with m none = give_up m
  failed_with m (some p) = do
    s ← gets (λ s. s)
    if in_window s then (modify count_tolerated >> pure (shown (kept p))) else give_up m

  -- `_failed_poll`
  unfoldable pub failed_poll : ModbusError → Exec (Coordinator W) Outcome
  failed_poll m = do s ← gets (λ s. s); failed_with m s.last

  -- The branch of ModbusTimeoutError.
  unfoldable pub timed_out : Exec (Coordinator W) (Unit {0})
  timed_out = do
    modify (λ s. record s { timeouts = s.timeouts + 1 })
    s ← gets (λ s. s)
    if ltb s.timeouts timeouts_before_recycle
        then pure tt
        else (on_bus l.disconnect >> modify (λ s. record s { timeouts = 0 }))

  -- `except ModbusTimeoutError` and `except ModbusError`, on the error that was raised.
  unfoldable pub lost_poll : Error → Option ModbusError → Exec (Coordinator W) Outcome
  lost_poll e none = raise e
  lost_poll e (some m) = do (if is_timeout m then timed_out else pure tt); failed_poll m
