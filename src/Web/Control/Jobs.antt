-- ===== src/Web/Control/Jobs.antt =====
-- How web_control.py runs the client's calls, and what a rejected login does to it.
use Prim.Native.String.{String}
use fronius_modbus.Common.{◌+◌, Bool, true, false, ◌&&◌, Option, none, some, if◌then◌else◌}
use fronius_modbus.Exec.{
  Exec, web, auth_failed, refused, web_api_not_configured, web_api_auth_failed, Result, ok, err,
  ◌>>=◌, ◌>>◌, pure, raise, gets, modify, attempt, zoom,
}
use fronius_modbus.Web.Client.{Http}
use fronius_modbus.Web.Control.{Site, WebControl, public_part}
use fronius_modbus.Web.Control.Firmware.{Version, parse_version, minimum_version, is_older}

abbrev is_on : Option Bool → Bool
is_on none = false
is_on (some b) = b

module _ {W : Type 0} (site : Site W) where
  abbrev pub on_bus : {A : Type 0} → Exec W A → Exec (WebControl W) A
  on_bus m = zoom (λ s. s.bus) (λ w s. record s { bus = w }) m

  abbrev pub low_version : Option Version → Bool
  low_version none = false
  low_version (some v) = is_older v minimum_version

  -- `_parse_firmware_version`
  abbrev pub version_of : Option String → Option Version
  version_of none = none
  version_of (some text) = parse_version site.words.digit (site.words.strip text)

  -- `_solar_api_warning_needed`
  unfoldable pub solar_api_warning_needed : Option String → WebControl W → Bool
  solar_api_warning_needed firmware s =
      s.has_client && low_version (version_of firmware) && is_on s.web_data.solar_api_enabled

  -- `_async_sync_solar_api_warning`: without an entry there is no issue to keep.
  unfoldable pub sync_solar_api_warning : WebControl W → WebControl W
  sync_solar_api_warning s =
      if site.has_entry
      then record s { warned = solar_api_warning_needed (site.firmware s.bus) s }
      else s

  abbrev pub ask_for_login : WebControl W → WebControl W
  ask_for_login s = if site.has_entry then record s { reauths = s.reauths + 1 } else s

  -- `_async_handle_web_api_auth_failure`
  unfoldable pub handle_auth_failure : Exec (WebControl W) (Unit {0})
  handle_auth_failure = do
    s ← gets (λ s. s)
    if s.has_client
        then (modify (λ r. record r { has_client = false; web_data = public_part r.web_data })
            >> on_bus site.forget_login
            >> modify sync_solar_api_warning
            >> modify ask_for_login)
        else pure tt

  module _ {A : Type 0} where
    -- `except FroniusWebAuthError` of `_async_web_job`
    unfoldable pub after_web_job : Result A → Exec (WebControl W) A
    after_web_job (ok a) = pure a
    after_web_job (err (web auth_failed)) = do
      handle_auth_failure
      raise (refused web_api_auth_failed)
    after_web_job (err e) = raise e

    -- `_async_web_job`, as the setters call it: with `raise_on_auth_failure=True`
    unfoldable pub web_job : Exec W A → Exec (WebControl W) A
    web_job m = do
      s ← gets (λ s. s)
      if s.has_client
          then attempt (on_bus m) after_web_job
          else raise (refused web_api_not_configured)

    -- `except FroniusWebAuthError` of `_async_client_job`
    unfoldable pub after_client_job : Result A → Exec (WebControl W) (Option A)
    after_client_job (ok a) = pure (some a)
    after_client_job (err (web auth_failed)) = do handle_auth_failure; pure none
    after_client_job (err e) = raise e

    -- `_async_client_job`, and with `public=True`
    unfoldable pub client_job : Exec W A → Exec (WebControl W) (Option A)
    client_job m = do
      s ← gets (λ s. s)
      if s.has_client then attempt (on_bus m) after_client_job else pure none

    abbrev pub public_with : (Http W → Exec W A) → Option (Http W) → Exec (WebControl W) (Option A)
    public_with m none = pure none
    public_with m (some h) = attempt (on_bus (m h)) after_client_job

    unfoldable pub public_job : (Http W → Exec W A) → Exec (WebControl W) (Option A)
    public_job m = public_with m site.public_client

  -- `_publish`
  unfoldable pub publish : WebControl W → WebControl W
  publish s = if site.attached then record s { published = some s.web_data } else s

  -- `_schedule_delayed_web_refresh`
  unfoldable pub schedule_refresh : WebControl W → WebControl W
  schedule_refresh s =
      if s.shut_down then s else record s { delayed_refreshes = s.delayed_refreshes + 1 }

  -- `_after_battery_write`
  unfoldable pub after_battery_write : Bool → WebControl W → WebControl W
  unfolding publish schedule_refresh
  after_battery_write written s =
      if written
      then schedule_refresh (publish (record s { recoveries = s.recoveries + 1 }))
      else publish s

  -- `shutdown`
  unfoldable shutdown : WebControl W → WebControl W
  shutdown s = record s { shut_down = true }
