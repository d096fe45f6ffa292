-- ===== src/Web/Client/Reads.antt =====
-- The reads of FroniusWebClient of froniuswebclient.py that are only shown, and their parsers.
use Prim.Native.String.{String}
use fronius_modbus.Common
use fronius_modbus.Common.{
  ℕ, Bool, true, false, Option, none, some, List, [], ◌∷◌, ℤ, if◌then◌else◌,
}
use fronius_modbus.Exec.{
  Exec, web, response, bad_value, cancelled, Result, ok, err, ◌>>=◌, pure, raise, attempt,
}
use fronius_modbus.Json.{Json, null, Members, end, member, get, as_object}
use fronius_modbus.MeterTopology.{Info}
use fronius_modbus.Web.Text.{Text}
use fronius_modbus.Web.Configs.{body_data}
use fronius_modbus.Web.Meters.{clean_text, parse_power_meter_info}
use fronius_modbus.Web.Readings.Row.{inverter, storage}
use fronius_modbus.Web.Readings.Taken.{json_object, take_readings}
use fronius_modbus.Web.Client.{Http, get_json, modbus_path, solar_api_path}

-- What `get_optional_json` returns: ENDPOINT_MISSING, None, or the answer.
pub data Answer : Type 0 where
  no_endpoint unanswered : Answer
  answered : Json → Answer

abbrev pub is_missing : Answer → Bool
is_missing no_endpoint = true
is_missing unanswered = false
is_missing (answered v) = false

abbrev pub json_in : Answer → Json
json_in (answered v) = v
json_in no_endpoint = null
json_in unanswered = null

module _ {W : Type 0} (h : Http W) where
  -- `except (FroniusWebResponseError, ValueError)`
  unfoldable pub optional : Result Json → Exec W Answer
  optional (ok v) = pure (answered v)
  optional (err (web (response n))) =
      if Common.◌==◌ n 404 then pure no_endpoint else pure unanswered
  optional (err bad_value) = pure unanswered
  optional (err e) = raise e

  unfoldable pub get_optional_json : String → Exec W Answer
  get_optional_json path = attempt (get_json h true path) optional

  unfoldable pub get_modbus_config : Exec W Json
  get_modbus_config = get_json h true modbus_path

  unfoldable pub get_solar_api_config : Exec W Json
  get_solar_api_config = get_json h true solar_api_path

-- The dicts of `_parse_inverter_readable` and `_parse_storage_readable`.
pub record InverterInfo : Type 0 where
  pub readings : Option Members
  pub missing : Bool

pub record StorageInfo : Type 0 where
  pub readings : Option Members
  pub missing : Bool
  pub manufacturer : Option String
  pub model : Option String
  pub serial : Option String

abbrev first_value : Option Members → Option Members
first_value none = none
first_value (some end) = none
first_value (some (member k v rest)) = as_object v

-- `_component_device`
unfoldable pub component_device : Answer → Option Members
component_device a = first_value (body_data (json_in a) ("Body" ∷ "Data" ∷ []))

-- `a or b`, of texts that are not empty
abbrev pub or_next : Option String → Option String → Option String
or_next (some s) other = some s
or_next none other = other

module _ (t : Text) where
  abbrev named_in : Option Members → Option Members × Bool → StorageInfo
  named_in none (readings, missing) = record {
    readings = readings;
    missing = missing;
    manufacturer = none;
    model = some "Battery Storage";
    serial = none;
  }
  named_in (some attributes) (readings, missing) =
      let nameplate = json_object t (get "nameplate" attributes) in
      let at = λ (key : String). clean_text t (get key attributes) in
      let on_plate = λ (key : String). clean_text t (get key nameplate) in
      record {
        readings = readings;
        missing = missing;
        manufacturer = or_next (on_plate "manufacturer") (at "manufacturer");
        model =
            or_next (at "model")
              (or_next (on_plate "model") (or_next (at "DisplayName") (some "Battery Storage")));
        serial = or_next (at "serial") (on_plate "serial");
      }

  abbrev storage_in : Bool → Option Members → StorageInfo
  storage_in gone none = named_in none (none, gone)
  storage_in gone (some device) =
      named_in (as_object (get "attributes" device)) (some (take_readings t device storage), gone)

  -- `_parse_storage_readable`, with `_parse_storage_info`
  unfoldable pub parse_storage_readable : Answer → StorageInfo
  parse_storage_readable a = storage_in (is_missing a) (component_device a)

  abbrev inverter_in : Bool → Option Members → InverterInfo
  inverter_in gone none = record { readings = none; missing = gone }
  inverter_in gone (some device) = record {
    readings = some (take_readings t device inverter);
    missing = gone;
  }

  -- `_parse_inverter_readable`
  unfoldable pub parse_inverter_readable : Answer → InverterInfo
  parse_inverter_readable a = inverter_in (is_missing a) (component_device a)

  module _ {W : Type 0} (h : Http W) where
    unfoldable pub get_storage_info : Exec W StorageInfo
    get_storage_info = do
      a ← get_optional_json h "/api/components/BatteryManagementSystem/readable"
      pure (parse_storage_readable a)

    unfoldable pub get_inverter_info : Exec W InverterInfo
    get_inverter_info = do
      a ← get_optional_json h "/api/components/inverter/readable"
      pure (parse_inverter_readable a)

    -- `except Exception`, which a cancellation is not
    abbrev info_or_none : ℤ → Result Json → Exec W (Option Info)
    info_or_none offset (ok v) = pure (parse_power_meter_info t offset v)
    info_or_none offset (err cancelled) = raise cancelled
    info_or_none offset (err e) = pure none

    unfoldable pub get_power_meter_info : ℤ → Exec W (Option Info)
    get_power_meter_info offset =
        attempt (get_json h false "/api/components/PowerMeter/readable") (info_or_none offset)
