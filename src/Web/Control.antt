-- ===== src/Web/Control.antt =====
-- The web half of the integration: FroniusWebControl of web_control.py. Its clients are the parts of
-- Web/Client over one world; the clocks, the host application and the tokens are the parameter Site.
pub mod Firmware
pub mod Jobs
pub mod Apply
pub mod Refresh
pub mod Setters
pub mod SocLimits
pub mod Tickets
pub mod Login
pub mod Windows
pub mod Sources
pub mod Delivery
mod Tests
use Prim.Native.String.{String}
use text.Mathlib.Text.{◌==◌}
use fronius_modbus.Common.{
  ℕ, ◌+◌, Bool, true, false, not, Option, none, some, List, [], ◌∷◌, ℤ, pos, eqb_ℤ, Float,
  zero_float, if◌then◌else◌,
}
use fronius_modbus.Exec.{Exec}
use fronius_modbus.Json.{Json, null, Members}
use fronius_modbus.Events.Parse.{InverterEvent, Texts, Strings}
use fronius_modbus.Events.Tracker.{EventTracker, new_tracker}
use fronius_modbus.Web.Text.{Text}
use fronius_modbus.Web.Client.{Http}

-- The modes as BATTERY_MODE_AUTO, BATTERY_MODE_MANUAL, SOC_MODE_AUTO and SOC_MODE_MANUAL.
abbrev pub battery_mode_auto : ℤ
battery_mode_auto = pos 0

abbrev pub battery_mode_manual : ℤ
battery_mode_manual = pos 1

abbrev pub soc_mode_manual : String
soc_mode_manual = "manual"

abbrev pub soc_mode_auto : String
soc_mode_auto = "auto"

pub record WebData : Type 0 where
  pub modbus_mode : Option String
  pub modbus_control : Option String
  -- `sunspecMode` and the restriction's `ip`, as answered
  pub sunspec_mode : Json
  pub modbus_restriction : Option String
  pub modbus_restriction_ip : Json
  pub solar_api_enabled : Option Bool
  pub battery_mode_raw : Option ℤ
  pub battery_mode_effective : Option ℤ
  pub battery_mode : Option String
  pub soc_mode_raw : Option String
  pub soc_mode : Option String
  pub battery_power_w : Option ℤ
  pub soc_min : Option ℤ
  pub soc_max : Option ℤ
  pub backup_reserved : Option ℤ
  pub charge_from_ac : Option Bool
  pub charge_from_grid : Option Bool
  pub export_soft_limit_w : Option ℤ
  pub storage_manufacturer : Option String
  pub storage_model : Option String
  pub storage_serial : Option String
  pub inverter_readings : Option Members
  pub storage_readings : Option Members
  pub inverter_endpoint_missing : Bool
  pub storage_endpoint_missing : Bool
  pub active_events : Option (List InverterEvent)
  pub new_events : List InverterEvent
  pub event_log_readable : Bool

-- `WebData()`
unfoldable pub no_data : WebData
no_data = record {
  modbus_mode = none;
  modbus_control = none;
  sunspec_mode = null;
  modbus_restriction = none;
  modbus_restriction_ip = null;
  solar_api_enabled = none;
  battery_mode_raw = none;
  battery_mode_effective = none;
  battery_mode = none;
  soc_mode_raw = none;
  soc_mode = none;
  battery_power_w = none;
  soc_min = none;
  soc_max = none;
  backup_reserved = none;
  charge_from_ac = none;
  charge_from_grid = none;
  export_soft_limit_w = none;
  storage_manufacturer = none;
  storage_model = none;
  storage_serial = none;
  inverter_readings = none;
  storage_readings = none;
  inverter_endpoint_missing = false;
  storage_endpoint_missing = false;
  active_events = none;
  new_events = [];
  event_log_readable = false;
}

-- `WebData(**{field: getattr(self.data, field) for field in _PUBLIC_FIELDS})`
unfoldable pub public_part : WebData → WebData
unfolding no_data
public_part d = record no_data {
  inverter_readings = d.inverter_readings;
  inverter_endpoint_missing = d.inverter_endpoint_missing;
  storage_readings = d.storage_readings;
  storage_endpoint_missing = d.storage_endpoint_missing;
  storage_manufacturer = d.storage_manufacturer;
  storage_model = d.storage_model;
  storage_serial = d.storage_serial;
  active_events = d.active_events;
}

-- What an instance is made with, and what it calls of the host application.
pub record Site (W : Type 0) : Type 0 where
  -- `self._client`, while there is one, and `self._public_client`
  pub client : Http W
  pub public_client : Option (Http W)
  pub words : Text
  pub strings : Strings
  -- `self._entry is not None`, and whether `self._api_username` is the technician
  pub has_entry : Bool
  pub is_technician : Bool
  pub storage_present : Bool
  pub firmware : W → Option String
  -- whether there is a coordinator to publish to
  pub attached : Bool
  -- `hass.config.language.split("-")[0].lower()`
  pub language : String
  -- `time.time()`, `time.monotonic()`, and a time plus EVENT_LOG_INTERVAL_SECONDS
  pub wall_clock : W → Float
  pub monotonic : W → Float
  pub after_interval : Float → Float
  -- `event.started >= since`
  pub at_or_after : ℤ → Float → Bool
  -- `int(round(value))`
  pub rounded : Float → ℤ
  -- `async_get_token_store(hass).async_delete_token(host, api_username)`
  pub forget_login : Exec W (Unit {0})

-- The instance. What it sets off elsewhere is counted: publications to the coordinator with the
-- last of them, recovery windows opened, delayed refreshes scheduled, logins asked for; `warned` is
-- whether the issue of the low firmware stands.
pub record WebControl (W : Type 0) : Type 0 where
  pub bus : W
  pub web_data : WebData
  pub has_client : Bool
  pub shut_down : Bool
  pub tracker : EventTracker
  pub known_texts : Option Texts
  pub next_event_log_read : Float
  pub published : Option WebData
  pub recoveries : ℕ
  pub delayed_refreshes : ℕ
  pub reauths : ℕ
  pub warned : Bool

-- `__init__`, with a client or without one
unfoldable pub new_control : {W : Type 0} → W → Bool → WebControl W
new_control bus has_client = record {
  bus = bus;
  web_data = no_data;
  has_client = has_client;
  shut_down = false;
  tracker = new_tracker;
  known_texts = none;
  next_event_log_read = zero_float;
  published = none;
  recoveries = 0;
  delayed_refreshes = 0;
  reauths = 0;
  warned = false;
}

-- The properties `battery_mode_is_manual` and `soc_mode_is_manual`.
abbrev pub is_number : ℤ → Option ℤ → Bool
is_number n none = false
is_number n (some m) = eqb_ℤ m n

abbrev pub is_word : String → Option String → Bool
is_word w none = false
is_word w (some s) = s == w

unfoldable pub battery_mode_is_manual : WebData → Bool
battery_mode_is_manual d = is_number battery_mode_manual d.battery_mode_effective

unfoldable pub soc_mode_is_manual : WebData → Bool
soc_mode_is_manual d = is_word soc_mode_manual d.soc_mode_raw

-- `_derive_api_battery_mode`
abbrev pub known_mode : ℤ → Option ℤ
known_mode n =
    if eqb_ℤ n battery_mode_manual
    then some battery_mode_manual
    else if eqb_ℤ n battery_mode_auto
    then some battery_mode_auto
    else none

unfoldable pub derive_api_battery_mode : Option ℤ → Option ℤ
derive_api_battery_mode none = none
derive_api_battery_mode (some n) = known_mode n

-- API_BATTERY_MODE and API_SOC_MODE of const.py
abbrev pub battery_mode_text : Option ℤ → Option String
battery_mode_text none = none
battery_mode_text (some n) =
    if eqb_ℤ n (pos 0) then some "auto" else if eqb_ℤ n (pos 1) then some "manual" else none

abbrev pub soc_mode_text : Option String → Option String
soc_mode_text none = none
soc_mode_text (some s) = if s == "auto" then some "automatic" else some s

-- `_set_effective_battery_mode`
unfoldable pub set_effective_battery_mode : Option ℤ → Option String → WebData → WebData
unfolding derive_api_battery_mode
set_effective_battery_mode raw_mode raw_soc_mode d =
    let effective = derive_api_battery_mode raw_mode in
    record d {
      battery_mode_raw = raw_mode;
      battery_mode_effective = effective;
      battery_mode = battery_mode_text effective;
      soc_mode_raw = raw_soc_mode;
      soc_mode = soc_mode_text raw_soc_mode;
    }
