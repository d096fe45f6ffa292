-- ===== src/Device/Tests.antt =====
-- The device of fronius_modbus_api/device.py over a simulated unit.
use fronius_modbus.Common.{
  ◌⊎◌, ℕ, ◌+◌, ◌≡◌, inl, refl, arith, Bool, true, false, ◌||◌, Option, none, some, List, [], ◌∷◌,
  ◌==◌, if◌then◌else◌, zero_float,
}
use fronius_modbus.Exec.{Result, ok, err, modbus, illegal_address, timeout, ◌>>=◌}
use fronius_modbus.Device.Library.{Library, Chain, Model, inverter, controls}
use fronius_modbus.Device.Scan.{scan_until_refused}
use fronius_modbus.Device.Scan.Walk.{models_in, with_id, scan_until_refused_complete}
use fronius_modbus.Device.State.{new_device, UpdateReport, empty_report, has_name}
use fronius_modbus.Device.Setup.{Machine}
use fronius_modbus.Device.Poll.{
  async_update, update_components, update_component, file_read, file_error, is_timeout,
  nothing_answered,
}
use fronius_modbus.Device.Meters.{as_modbus_error, is_connection}
use fronius_modbus.Device.Reported.{reported, polled_reported}
use fronius_modbus.Device.Outage.{raised_by_first_read}
use fronius_modbus.Device.Addresses.{MetersPlaced}
use fronius_modbus.Device.Kept.{async_update-MetersPlaced}

-- A map with a common model and an inverter, which refuses what lies behind them.
abbrev map : ℕ → Result (ℕ × ℕ)
map a =
    if a == 40002
    then ok (1, 66)
    else if a == 40070
    then ok (103, 50)
    else err (modbus illegal_address)

abbrev wanted_in : ℕ → List ℕ → Bool
wanted_in k [] = false
wanted_in k (j ∷ ids) = j == k || wanted_in k ids

abbrev first_of : Chain → List ℕ → Option Model
first_of [] ids = none
first_of ((k, []) ∷ chain) ids = first_of chain ids
first_of ((k, m ∷ ms) ∷ chain) ids = if wanted_in k ids then some m else first_of chain ids

abbrev library : Library ℕ ℕ
library = record {
  scan = λ u s. (err (modbus illegal_address), s);
  read_header = λ u a s. (map a, s);
  first = first_of;
  span = λ m. m.length + 2;
  read_identity = λ u m s. (ok u, s);
  same_identity = λ a b. a == b;
  update = λ n s. (ok tt, s + 1);
  monotonic = λ s. zero_float;
  sunspec_is_modbus = true;
}

abbrev common : Model
common = record { model_id = 1; address = 40002; length = 66 }

abbrev three_phase : Model
three_phase = record { model_id = 103; address = 40070; length = 50 }

scan_until_refused_complete_example :
    (chain : Chain) × ((scan_until_refused library 1 0).0 ≡ ok chain)
    × ((k : ℕ) → models_in k chain ≡ with_id k (common ∷ three_phase ∷ []))
scan_until_refused_complete_example =
    scan_until_refused_complete library 1 map (common ∷ three_phase ∷ []) 0 (λ a s. refl)
      (refl, refl, omega arith, (refl, refl, omega arith, inl refl)) (omega arith)

abbrev machine : Machine ℕ ℕ
machine = record { device = new_device 1 (200 ∷ []); bus = 0 }

async_update-MetersPlaced_example : MetersPlaced library (async_update library machine).1
unfolding new_device
async_update-MetersPlaced_example =
    async_update-MetersPlaced library machine
      (record { at = λ u m e. cc e; on_record = λ u m e. cc e })

abbrev both : UpdateReport
both = record {
  updated = inverter ∷ controls ∷ [];
  failed = [];
  read_spans = (controls, zero_float, zero_float) ∷ (inverter, zero_float, zero_float) ∷ [];
}

polled_reported_example :
    reported controls both
    ≡ (has_name controls (inverter ∷ controls ∷ []) || reported controls empty_report)
unfolding update_components update_component file_read ◌>>=◌
polled_reported_example =
    polled_reported library controls (inverter ∷ controls ∷ []) empty_report both 0 refl

-- A unit that does not answer.
abbrev silent : Library ℕ ℕ
silent = record library { update = λ n s. (err (modbus timeout), s) }

raised_by_first_read_example :
    (is_connection timeout ≡ true)
    ⊎ (((update_component silent inverter empty_report 0).0 ≡ err (modbus timeout))
        × (is_timeout timeout ≡ true)
        × (nothing_answered empty_report ≡ true))
unfolding update_components update_component file_read file_error as_modbus_error ◌>>=◌
raised_by_first_read_example =
    raised_by_first_read silent inverter (controls ∷ []) empty_report 0 (modbus timeout) timeout
      (refl, (refl, tt)) refl refl
