-- ===== src/Web/Control/Tests.antt =====
-- The theorems of web_control.py at concrete inputs.
use fronius_modbus.Common.{
  ℕ, ◌≡◌, refl, ◌⊎◌, inr, Bool, true, false, Option, none, some, List, [], ◌∷◌, pos, leb_ℤ,
  zero_float,
}
use fronius_modbus.Exec.{
  Exec, Error, ok, err, refused, web, auth_failed, web_api_auth_failed, soc_minimum_above_maximum,
  ◌>>=◌, pure, raise,
}
use fronius_modbus.Exec.Meets.{Meets}
use fronius_modbus.Json.{int, Members, end, member, get, find, put, put_all}
use fronius_modbus.Events.Parse.{InverterEvent, Strings, warning}
use fronius_modbus.Web.Simulated.{plain_words, server, kept_config, is_flat}
use fronius_modbus.Events.Tracker.Queue.{uuid_in}
use fronius_modbus.Web.Configs.{is_description, config_object, without_descriptions}
use fronius_modbus.Web.Flags.{is_number, same}
use fronius_modbus.Web.Client.{
  batteries_path, get_config, get_json, checked, json, names_refused, is_refusal, post_changes,
  post_changes_to, post_if_any, changes_in, post, payload_of, read_or_nothing, empty_if_unread,
}
use fronius_modbus.Web.Client.Batteries.{
  check_soc_window, is_above, set_battery_charge_sources, set_battery_config,
}
use fronius_modbus.Web.Control.{Site, WebControl, no_data, new_control, soc_mode_is_manual}
use fronius_modbus.Web.Control.Jobs.{web_job}
use fronius_modbus.Web.Control.Refresh.{async_refresh}
use fronius_modbus.Web.Control.Setters.{implied_charge_sources}
use fronius_modbus.Web.Control.SocLimits.{apply_soc_minimum}
use fronius_modbus.Web.Control.SocLimits.Laws.{Refused, refused_minimum_unwritten}
use fronius_modbus.Web.Control.Tickets.{
  Event, calls, other_calls, ends, resumes, free, at_rest, run, step,
}
use fronius_modbus.Web.Control.Tickets.Queued.{last_of, called}
use fronius_modbus.Web.Control.Tickets.Laws.{last_writer_wins}
use fronius_modbus.Web.Control.Tickets.Bursts.{burst, burst_writes_two}
use fronius_modbus.Web.Control.Login.{Lost, web_job-Lost}
use fronius_modbus.Web.Control.Windows.{mode, set, sent, Opens, set-Opens}
use fronius_modbus.Web.Control.Sources.{ThroughAc, implied_sources-ThroughAc}
use fronius_modbus.Web.Control.Delivery.{Waits, Settles, waiting-Settles}

abbrev battery : Members
battery =
    member "BAT_M0_SOC_MIN" (int (pos 10))
      (member "BAT_M0_SOC_MAX" (int (pos 90)) (member "HYB_EM_MODE" (int (pos 0)) end))

abbrev plain_strings : Strings
plain_strings = record { to_str = λ v. ""; without_hyphens = λ s. s; code_of = λ v n. "" }

abbrev site : Site Members
site = record {
  client = server;
  public_client = some server;
  words = plain_words;
  strings = plain_strings;
  has_entry = true;
  is_technician = true;
  storage_present = true;
  firmware = λ w. none;
  attached = true;
  language = "en";
  wall_clock = λ w. zero_float;
  monotonic = λ w. zero_float;
  after_interval = λ x. x;
  at_or_after = λ started since. leb_ℤ since started;
  rounded = λ x. x;
  forget_login = pure tt;
}

-- An instance in manual SoC mode, on the battery's configuration.
abbrev manual : WebControl Members
manual = record (new_control battery true) {
  web_data = record no_data { soc_mode_raw = some "manual" };
}

-- Three calls of a control and one of another, in one order of many.
abbrev mixed : List (Event ℕ)
mixed =
    calls 3
    ∷ other_calls
    ∷ calls 5
    ∷ calls 7
    ∷ ends
    ∷ resumes
    ∷ ends
    ∷ resumes
    ∷ resumes
    ∷ ends
    ∷ []

mixed_is_done : (run mixed at_rest).holder ≡ free
unfolding run step at_rest
mixed_is_done = refl

last_writer_wins_example : last_of (run mixed at_rest).written ≡ called none mixed
last_writer_wins_example = last_writer_wins mixed mixed_is_done

abbrev later : List ℕ
later = 5 ∷ 7 ∷ []

burst_writes_two_example : (run (burst {V = ℕ} 3 later) at_rest).written ≡ 3 ∷ 7 ∷ []
burst_writes_two_example = burst_writes_two {V = ℕ} 3 5 (7 ∷ []) 7 refl

-- A minimum above the maximum.
too_high : Refused site (pos 95) manual
unfolding new_control check_soc_window get_config get_json checked json is_flat is_description
    config_object get find is_number is_above ◌>>=◌ without_descriptions names_refused is_refusal
too_high = inr (refused soc_minimum_above_maximum, refl)

abbrev other_minimum : Exec Members (Unit {0})
other_minimum = raise (web auth_failed)

is_manual : soc_mode_is_manual manual.web_data ≡ true
unfolding soc_mode_is_manual new_control no_data
is_manual = refl

has_client : manual.has_client ≡ true
unfolding new_control
has_client = refl

refused_minimum_unwritten_example :
    (apply_soc_minimum site (pos 95) (pure tt) manual
      ≡ apply_soc_minimum site (pos 95) other_minimum manual)
    × ((e : Error) × ((apply_soc_minimum site (pos 95) (pure tt) manual).0 ≡ err e))
refused_minimum_unwritten_example =
    refused_minimum_unwritten site (pos 95) manual (pure tt) other_minimum has_client is_manual
      too_high

forgets : (w : Members) → (site.forget_login w).0 ≡ ok tt
unfolding ◌>>=◌
forgets w = refl

rejected : (other_minimum manual.bus).0 ≡ err (web auth_failed)
unfolding ◌>>=◌
rejected = refl

web_job-Lost_example :
    ((web_job site other_minimum manual).0 ≡ err (refused web_api_auth_failed))
    × Lost manual (web_job site other_minimum manual).1
web_job-Lost_example = web_job-Lost site forgets other_minimum manual has_client rejected

-- Manual self-consumption, where the battery was in auto.
mode_written : (set_battery_config server plain_words (pos 1) battery).0 ≡ ok true
unfolding set_battery_config post_changes post_changes_to post_if_any changes_in same get_config
    get_json checked json is_flat is_description config_object get find is_number is_above ◌>>=◌
    without_descriptions names_refused is_refusal post payload_of put put_all read_or_nothing
    empty_if_unread
mode_written = refl

set-Opens_example :
    Opens site manual true (sent site (mode (pos 1)) battery).1 (set site (mode (pos 1)) manual)
unfolding new_control
set-Opens_example = set-Opens site manual true (mode (pos 1)) has_client refl mode_written

abbrev unnamed : Option Bool
unnamed = none

implied_sources-ThroughAc_example :
    Meets
      (λ b u. ((some true ≡ none) × (unnamed ≡ none)) ⊎ ThroughAc plain_words u)
      (λ e u. Unit)
      (set_battery_charge_sources server plain_words (some true) (some true) battery)
unfolding implied_charge_sources
implied_sources-ThroughAc_example =
    implied_sources-ThroughAc server (kept_config batteries_path) plain_words (some true) none
      battery

abbrev waiting_event : InverterEvent
waiting_event = record {
  uuid = "a";
  code = "1006";
  label = "Arc detected";
  text_shown = "";
  severity = some warning;
  visible_to = none;
  started = pos 20;
  ended = none;
  confirmable = false;
}

abbrev with_event : WebControl Members
with_event = record manual {
  tracker = record {
    seen = none;
    unread_since = none;
    pending = waiting_event ∷ [];
    readable = true;
  };
}

with_event-Waits : Waits site "a" with_event
unfolding uuid_in
with_event-Waits = refl

waiting-Settles_example :
    Meets (Settles site "a") (λ e. Waits site "a") (async_refresh site with_event)
waiting-Settles_example = waiting-Settles site "a" server with_event refl with_event-Waits
