-- ===== src/Coordinator/Tests.antt =====
-- The polls of coordinator.py over a link that does not answer.
use fronius_modbus.Common.{
  ◌≤◌, ◌<◌, arith, ℕ, ◌+◌, ◌≡◌, refl, inl, true, false, none, some, [], ◌∷◌, pos, zero_float,
}
use fronius_modbus.Numbers.Plain.{plain}
use fronius_modbus.Exec.{modbus, timeout, ok, err, ◌>>=◌, zoom}
use fronius_modbus.Device.Library.{inverter, meter}
use fronius_modbus.Device.Meters.{as_modbus_error}
use fronius_modbus.Device.State.{UpdateReport}
use fronius_modbus.Coordinator.{
  timeouts_before_recycle, Coordinator, Link, Readings, ModbusPoll, kept, in_window,
  reload_for_new_sub_systems, lost_poll, timed_out, failed_poll, failed_with,
}
use fronius_modbus.Coordinator.Values.{
  update_data, after_update, load_w, primary_meter_fresh, span_of,
}
use fronius_modbus.Derived.Load.{household_load}
use fronius_modbus.Coordinator.Laws.{BothFresh, reloads_once, derived_are_fresh}
use fronius_modbus.Coordinator.Recycle.{NeverAnswers, timeouts_recycle}
use fronius_modbus.Coordinator.Retained.{From, retained_in_window}

abbrev readings : Readings
readings = record {
  inverter_w = some (pos 700);
  inverter_hz = some (pos 50);
  inverter_st = some 4;
  meter = some (some (pos 300), some (pos 50));
  storage = none;
  nameplate = none;
  has_controls = false;
  settings = none;
}

-- The world is a clock, which each read moves on.
abbrev silent : Link ℕ
silent = record {
  update = λ w. (err (modbus timeout), w + 1);
  disconnect = λ w. (ok tt, w);
  identities_changed = λ w. (ok false, w);
  readings = λ w. readings;
  monotonic = pos;
  sunspec_is_modbus = true;
}

abbrev both : UpdateReport
both = record {
  updated = inverter ∷ meter 200 ∷ [];
  failed = [];
  read_spans = (inverter, zero_float, zero_float) ∷ (meter 200, zero_float, zero_float) ∷ [];
}

abbrev poll : ModbusPoll
poll = record {
  report = both;
  load_w = none;
  grid = none;
  operating_state = none;
  retained = false;
}

abbrev started : Coordinator ℕ
started = record {
  bus = 0;
  last = some poll;
  built_for = some (inverter ∷ []);
  identity_check_due = false;
  timeouts = 0;
  tolerate_until = pos 10;
  tolerated_failures = 0;
  storage_control = none;
  inverter_controls = none;
  reloads = 0;
}

retained_in_window_example :
    From (some poll) (kept poll)
    × (in_window silent (update_data plain 200 none silent started).1 ≡ true)
unfolding update_data after_update lost_poll timed_out failed_poll failed_with ◌>>=◌ zoom
    as_modbus_error
retained_in_window_example = retained_in_window silent plain 200 none started (kept poll) refl refl

reloads_once_example :
    reload_for_new_sub_systems both (reload_for_new_sub_systems both started)
    ≡ reload_for_new_sub_systems both started
reloads_once_example = reloads_once both started

derived_are_fresh_example : BothFresh 200 both
unfolding load_w primary_meter_fresh span_of household_load
derived_are_fresh_example = derived_are_fresh plain 200 (some 0) readings both (inl (λ e. cc e))

-- A clock that only a recycling moves on.
abbrev stuck : Link ℕ
stuck = record silent { update = λ w. (err (modbus timeout), w); disconnect = λ w. (ok tt, w + 1) }

stuck-NeverAnswers : NeverAnswers stuck (λ w. w)
stuck-NeverAnswers = record {
  times_out = λ w. refl;
  update_count = λ w. refl;
  disconnects = λ w. refl;
  disconnect_count = λ w. refl;
}

abbrev poll_of_link : Coordinator ℕ → Coordinator ℕ
poll_of_link s = (update_data plain 200 none stuck s).1

timeouts_recycle_example :
    (1 ≤ (poll_of_link (poll_of_link (poll_of_link started))).bus)
    × ((poll_of_link (poll_of_link (poll_of_link started))).timeouts < timeouts_before_recycle)
timeouts_recycle_example =
    timeouts_recycle stuck (λ w. w) stuck-NeverAnswers plain 200 none started (omega arith)
