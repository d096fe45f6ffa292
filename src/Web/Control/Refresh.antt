-- ===== src/Web/Control/Refresh.antt =====
-- One poll of the web interface: `async_refresh` of web_control.py.
use Prim.Native.String.{String, ◌++◌}
use text.Mathlib.Text.{◌==◌}
use fronius_modbus.Common
use fronius_modbus.Common.{
  Bool, true, false, not, ◌&&◌, Option, none, some, List, [], ◌∷◌, Float, ltb_ℤ, if◌then◌else◌,
}
use fronius_modbus.Exec.{
  Exec, cancelled, Result, ok, err, ◌>>=◌, ◌>>◌, pure, raise, gets, modify, attempt,
}
use fronius_modbus.Json.{Json, Members, get, as_object}
use fronius_modbus.Events.Parse.{InverterEvent, Texts, event_texts, parse_events}
use fronius_modbus.Events.Tracker.{missed, read, batch, delivered}
use fronius_modbus.MeterTopology.{Info, MeterTopology, parse_meter_topology, default_meter_unit_id}
use fronius_modbus.Web.Flags.{flag_value}
use fronius_modbus.Web.ExportLimit.{shown_soft_limit, get_export_limit_config}
use fronius_modbus.Web.Client.Batteries.{get_battery_config}
use fronius_modbus.Web.Client.Reads.{
  Answer, no_endpoint, unanswered, answered, json_in, get_optional_json, get_modbus_config,
  get_solar_api_config, get_storage_info, get_inverter_info, get_power_meter_info,
}
use fronius_modbus.Web.Client.{Http}
use fronius_modbus.Web.Control.{Site, WebControl, WebData}
use fronius_modbus.Web.Control.Jobs.{client_job, public_job, sync_solar_api_warning}
use fronius_modbus.Web.Control.Apply.{
  apply_web_battery_config, apply_web_modbus_config, apply_storage_info, apply_inverter_info,
}

abbrev pub answer_of : Option Answer → Answer
answer_of none = unanswered
answer_of (some a) = a

abbrev is_answered : Answer → Bool
is_answered unanswered = false
is_answered no_endpoint = true
is_answered (answered v) = true

-- `isinstance(answer, dict)`, of a call that may have returned None
abbrev pub dict_of : Option Json → Option Members
dict_of none = none
dict_of (some v) = as_object v

abbrev pub path_of : String → String
path_of language = "/app/assets/i18n/StateCodeTranslations/" ++ (language ++ ".json")

module _ {W : Type 0} (site : Site W) where
  abbrev pub on_data : (WebData → WebData) → WebControl W → WebControl W
  on_data f s = record s { web_data = f s.web_data }

  -- `_async_public_read`
  unfoldable pub public_read : String → Exec (WebControl W) Answer
  public_read path = do a ← public_job site (λ h. get_optional_json h path); pure (answer_of a)

  -- The loop of `_async_event_texts`: later texts come in front, so a lookup meets them first.
  unfoldable pub read_texts : List String → Texts → Bool → Exec (WebControl W) (Texts × Bool)
  read_texts [] merged all = pure (merged, all)
  read_texts (language ∷ rest) merged all = do
    a ← public_read (path_of language)
    read_texts rest (Common.◌++◌ (event_texts site.strings (json_in a)) merged)
        (all && is_answered a)

  -- `dict.fromkeys((EVENT_TEXTS_FALLBACK_LANGUAGE, language))`
  abbrev pub languages : List String
  languages = if site.language == "en" then "en" ∷ [] else "en" ∷ site.language ∷ []

  abbrev pub remember : Texts × Bool → WebControl W → WebControl W
  remember (texts, all) s = if all then record s { known_texts = some texts } else s

  abbrev pub texts_or_read : Option Texts → Exec (WebControl W) Texts
  texts_or_read (some texts) = pure texts
  texts_or_read none = do
    found ← read_texts languages [] true
    modify (remember found)
    pure found.0

  -- `_async_event_texts`
  unfoldable pub known_event_texts : Exec (WebControl W) Texts
  known_event_texts = do s ← gets (λ s. s); texts_or_read s.known_texts

  abbrev pub logged : Option (List InverterEvent) → WebControl W → WebControl W
  logged none s = s
  logged (some _) s = record s { next_event_log_read = site.after_interval (site.monotonic s.bus) }

  abbrev pub track : Option (List InverterEvent) → WebControl W → WebControl W
  track log s = record s { tracker = read site.at_or_after log (site.wall_clock s.bus) s.tracker }

  -- The second half of `_async_refresh_events`, where the log is due.
  unfoldable pub read_log : Texts → Exec (WebControl W) (Unit {0})
  read_log texts = do
    a ← public_read "/api/status/events"
    let log = parse_events site.strings (json_in a) texts
    modify (track log)
    modify (logged log)

  -- `_async_refresh_events`
  unfoldable pub refresh_events : Exec (WebControl W) (Unit {0})
  refresh_events = do
    texts ← known_event_texts
    a ← public_read "/api/status/activeEvents"
    modify (on_data (λ d. record d { active_events = parse_events site.strings (json_in a) texts }))
    s ← gets (λ s. s)
    if ltb_ℤ (site.monotonic s.bus) s.next_event_log_read then pure tt else read_log texts

  abbrev pub apply_if : (Members → WebData → WebData) → Option Members → WebData → WebData
  apply_if f none d = d
  apply_if f (some ms) d = f ms d

  abbrev pub solar_api_of : Option Members → Option Bool
  solar_api_of none = none
  solar_api_of (some ms) = flag_value site.words (get "SolarAPIv1Enabled" ms)

  -- The storage part of `_async_refresh_locked`.
  unfoldable pub refresh_storage : Exec (WebControl W) (Unit {0})
  refresh_storage = do
    info ← public_job site (λ h. get_storage_info site.words h)
    modify (on_data (apply_storage_info info))
    config ← client_job site (get_battery_config site.client site.words)
    modify (on_data (apply_if (apply_web_battery_config site.words) (dict_of config)))

  abbrev pub with_events : WebControl W → WebControl W
  with_events s =
      on_data
        (λ d. record d { new_events = batch s.tracker; event_log_readable = s.tracker.readable }) s

  -- The reads of `_async_refresh_locked`, and what they put into the data.
  unfoldable pub read_web : Exec (WebControl W) (Unit {0})
  read_web = do
    info ← public_job site (λ h. get_inverter_info site.words h)
    modify (on_data (apply_inverter_info info))
    refresh_events
    modbus_config ← client_job site (get_modbus_config site.client)
    modify (on_data (apply_if (apply_web_modbus_config site.words) (dict_of modbus_config)))
    solar ← client_job site (get_solar_api_config site.client)
    modify (on_data (λ d. record d { solar_api_enabled = solar_api_of (dict_of solar) }))
    (if site.storage_present then refresh_storage else pure tt)
    limits ← client_job site (get_export_limit_config site.client site.words)
    modify (
        on_data
          (λ d. record d { export_soft_limit_w = shown_soft_limit site.words (dict_of limits) }))
    modify (sync_solar_api_warning site)

  -- `_async_refresh_locked` behind its first test.
  unfoldable pub refresh_all : Exec (WebControl W) WebData
  refresh_all = do read_web; modify with_events; gets (λ s. s.web_data)

  abbrev pub refresh_if : Option (Http W) → Exec (WebControl W) WebData
  refresh_if none = gets (λ s. s.web_data)
  refresh_if (some h) = refresh_all

  -- `_async_refresh_locked`
  unfoldable pub refresh_locked : Exec (WebControl W) WebData
  refresh_locked = refresh_if site.public_client

  abbrev pub miss : WebControl W → WebControl W
  miss s = record s { tracker = missed (site.wall_clock s.bus) s.tracker }

  abbrev pub deliver : WebData → WebControl W → WebControl W
  deliver d s = record s { tracker = delivered d.new_events s.tracker }

  -- How `async_refresh` ends a poll. A cancellation is no Exception.
  unfoldable pub after_refresh : Result WebData → Exec (WebControl W) WebData
  after_refresh (ok d) = do modify (deliver d); pure d
  after_refresh (err cancelled) = raise cancelled
  after_refresh (err e) = do modify miss; raise e

  unfoldable pub async_refresh : Exec (WebControl W) WebData
  async_refresh = attempt refresh_locked after_refresh

  abbrev pub info_of : Option (Option Info) → Option Info
  info_of none = none
  info_of (some i) = i

  -- `async_meter_topology`
  unfoldable pub meter_topology : Exec (WebControl W) MeterTopology
  meter_topology = do
    i ← public_job site (λ h. get_power_meter_info site.words h default_meter_unit_id)
    pure (parse_meter_topology (info_of i))
