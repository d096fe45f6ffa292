-- ===== src/Device/Poll.antt =====
-- One poll of the device: `async_update` of fronius_modbus_api/device.py and what it calls.
use fronius_modbus.Common.{
  ℕ, Bool, true, false, not, ◌||◌, ◌&&◌, Option, none, some, List, [], ◌∷◌, ◌++◌, if◌then◌else◌,
  Float,
}
use fronius_modbus.Exec.{
  Exec, Error, ModbusError, timeout, incomplete_chain, Result, ok, err, ◌>>=◌, ◌>>◌, pure, raise,
  gets, modify, attempt,
}
use fronius_modbus.Device.Library.{Library, Name, discovery, meter}
use fronius_modbus.Device.State.{
  Device, UpdateReport, empty_report, set_failed, is_discovery, polled, lookup, keys,
}
use fronius_modbus.Device.Meters.{Filed, as_modbus_error, is_connection, place_meter}
use fronius_modbus.Device.Setup.{Machine, on_bus, setup}

abbrev pub is_timeout : ModbusError → Bool
is_timeout timeout = true
is_timeout _ = false

-- `report.failed.keys() - {REPORT_DISCOVERY}` is not empty
abbrev pub any_failed : List (Name × ModbusError) → Bool
any_failed [] = false
any_failed ((n, e) ∷ fs) = not (is_discovery n) || any_failed fs

abbrev pub is_empty : List Name → Bool
is_empty [] = true
is_empty (n ∷ ns) = false

abbrev pub nothing_answered : UpdateReport → Bool
nothing_answered r = is_empty r.updated && not (any_failed r.failed)

module _ {W Identity : Type 0} where
  -- `except ModbusConnectionError: raise` and `except (ModbusError, ...)`, which passes it over
  unfoldable pub passed_over : Error → Option ModbusError → Exec (Machine W Identity) (Unit {0})
  passed_over e none = raise e
  passed_over e (some m) = if is_connection m then raise e else pure tt

  -- `except ModbusError: self.inverter = None; raise`
  unfoldable pub taken_down : Error → Option ModbusError → Exec (Machine W Identity) (Unit {0})
  taken_down e none = raise e
  taken_down e (some m) =
      modify (λ s. record s { device = record s.device { is_set_up = false } }) >> raise e

module _ {W Identity : Type 0} (l : Library W Identity) where
  abbrev pub add_updated : Name → Float → Float → UpdateReport → UpdateReport
  add_updated n started finished r = record r {
    updated = r.updated ++ n ∷ [];
    read_spans = (n, started, finished) ∷ r.read_spans;
  }

  -- The `except` clauses of `_async_update_component`, on the ModbusError that was raised.
  unfoldable pub file_error : Name → UpdateReport → Error → Option ModbusError → Exec W UpdateReport
  file_error n r e none = raise e
  file_error n r e (some m) =
      if is_connection m || (is_timeout m && nothing_answered r)
      then raise e
      else pure (record r { failed = set_failed n m r.failed })

  -- `_async_update_component` once the read has ended.
  unfoldable pub file_read : Name → Float → UpdateReport → Result (Unit {0}) → Exec W UpdateReport
  file_read n started r (ok u) = do
    finished ← gets l.monotonic
    pure (add_updated n started finished r)
  file_read n started r (err e) = file_error n r e (as_modbus_error l.sunspec_is_modbus e)

  -- `_async_update_component`
  unfoldable pub update_component : Name → UpdateReport → Exec W UpdateReport
  update_component n r = do started ← gets l.monotonic; attempt (l.update n) (file_read n started r)

  -- `for name in self._polled: await self._async_update_component(name, report)`
  unfoldable pub update_components : List Name → UpdateReport → Exec W UpdateReport
  update_components [] r = pure r
  update_components (n ∷ ns) r = do q ← update_component n r; update_components ns q

  abbrev live_maps : Device Identity → Filed Identity
  live_maps d = record { meters = d.meters; undecided = d.undecided; addresses = d.meter_addresses }

  abbrev file_live : Filed Identity → Machine W Identity → Machine W Identity
  file_live f s = record s {
    device = record s.device {
      meters = f.meters;
      undecided = f.undecided;
      meter_addresses = f.addresses;
    };
  }

  abbrev after_retry : ℕ → UpdateReport → Device Identity → Exec W UpdateReport
  after_retry u r d = elim (lookup u d.undecided) [
    | some _ ↦ pure (record r { failed = set_failed (meter u) timeout r.failed })
    | none ↦ elim (lookup u d.meters) [ none ↦ pure r | some _ ↦ update_component (meter u) r ]
  ]

  -- `_async_retry_undecided_meters`
  unfoldable pub retry_undecided : List ℕ → UpdateReport → Exec (Machine W Identity) UpdateReport
  retry_undecided [] r = pure r
  retry_undecided (u ∷ us) r = do
    s ← gets (λ s. s)
    filed ← on_bus (place_meter l s.device u (live_maps s.device))
    modify (file_live filed)
    t ← gets (λ s. s)
    q ← on_bus (after_retry u r t.device)
    retry_undecided us q

  -- `_async_retry_discovery`, once its `_async_setup` has ended
  abbrev pub discovery_result : Result (Unit {0}) → Exec (Machine W Identity) (Unit {0})
  discovery_result (ok u) = pure u
  discovery_result (err e) = passed_over e (as_modbus_error l.sunspec_is_modbus e)

  unfoldable pub retry_discovery : Exec (Machine W Identity) (Unit {0})
  retry_discovery = attempt (setup l) discovery_result

  -- `_async_open_report` where the discovery is not complete.
  abbrev pub report_after : Machine W Identity → UpdateReport
  report_after s =
      if s.device.discovery_complete
      then empty_report
      else record empty_report { failed = (discovery, incomplete_chain) ∷ [] }

  unfoldable pub rediscover : Exec (Machine W Identity) UpdateReport
  rediscover = do retry_discovery; gets report_after

  -- `_async_open_report`
  unfoldable pub open_report : Exec (Machine W Identity) UpdateReport
  open_report = do
    s ← gets (λ s. s)
    if s.device.discovery_complete then pure empty_report else rediscover

  -- The first setup of `async_update`: a failed one leaves the device as not set up.
  abbrev pub first_setup : Result (Unit {0}) → Exec (Machine W Identity) (Unit {0})
  first_setup (ok u) = pure u
  first_setup (err e) = taken_down e (as_modbus_error l.sunspec_is_modbus e)

  unfoldable pub set_up : Exec (Machine W Identity) (Unit {0})
  set_up = attempt (setup l) first_setup

  -- `async_update`
  unfoldable pub async_update : Exec (Machine W Identity) UpdateReport
  async_update = do
    s ← gets (λ s. s)
    (if s.device.is_set_up then pure tt else set_up)
    opened ← open_report
    t ← gets (λ s. s)
    report ← on_bus (update_components (polled t.device) opened)
    u ← gets (λ s. s)
    retry_undecided (keys u.device.undecided) report
