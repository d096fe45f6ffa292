-- ===== src/Web/Control/SocLimits.antt =====
-- The SoC limits of web_control.py: `_set_api_soc_manual` and its callers, and `apply_soc_minimum`,
-- which writes the minimum to Modbus too.
pub mod Laws
use Prim.Native.String.{String}
use fronius_modbus.Common.{Bool, true, false, not, ◌&&◌, Option, none, some, ℤ, if◌then◌else◌}
use fronius_modbus.Exec.{
  Exec, Error, modbus, bad_value, cancelled, sunspec, map_shift, refused, web, unreachable,
  auth_failed, mode_change_needed, no_client_ip, malformed, response, soc_minimum_web_failed,
  needs_manual_soc_mode, Result, ok, err, ◌>>=◌, ◌>>◌, pure, raise, gets, modify, guard, attempt,
}
use fronius_modbus.Web.Client.Batteries
use fronius_modbus.Web.Control.{Site, WebControl, WebData, soc_mode_is_manual}
use fronius_modbus.Web.Control.Jobs.{web_job, on_bus, after_battery_write}
use fronius_modbus.Web.Control.Refresh.{on_data}
use fronius_modbus.Web.Control.Setters.{require_client, check_soc_range, or_kept}

module _ {W : Type 0} (site : Site W) where
  -- `_require_soc_mode_manual`
  unfoldable pub require_soc_mode_manual : Exec (WebControl W) (Unit {0})
  require_soc_mode_manual = do
    s ← gets (λ s. s)
    guard (soc_mode_is_manual s.web_data) (refused needs_manual_soc_mode)

  -- `_set_api_soc_manual`
  unfoldable pub set_api_soc_manual : Option ℤ → Option ℤ → Exec (WebControl W) (Unit {0})
  set_api_soc_manual soc_min soc_max = do
    require_client site
    require_soc_mode_manual
    check_soc_range site soc_min soc_max
    written ← web_job site (Batteries.set_soc_limits site.client site.words soc_min soc_max)
    modify (
        on_data site (λ d. record d {
          soc_min = or_kept soc_min d.soc_min;
          soc_max = or_kept soc_max d.soc_max;
        }))
    modify (after_battery_write site written)

  unfoldable set_soc_maximum : ℤ → Exec (WebControl W) (Unit {0})
  set_soc_maximum soc_max = do require_client site; set_api_soc_manual none (some soc_max)

  unfoldable set_soc_minimum_manual : ℤ → Exec (WebControl W) (Unit {0})
  set_soc_minimum_manual soc_min = do require_client site; set_api_soc_manual (some soc_min) none

  -- Whether `except (RuntimeError, ValueError, OSError)` catches the error of a web write.
  abbrev pub is_web_failure : Error → Bool
  is_web_failure (web malformed) = false
  is_web_failure (web _) = true
  is_web_failure (refused k) = true
  is_web_failure bad_value = true
  is_web_failure _ = false

  -- The end of `apply_soc_minimum`, where Modbus holds the new minimum.
  unfoldable pub after_web_minimum : Result (Unit {0}) → Exec (WebControl W) (Unit {0})
  after_web_minimum (ok u) = pure tt
  after_web_minimum (err e) =
      if is_web_failure e then raise (refused soc_minimum_web_failed) else raise e

  -- The two writes, in manual SoC mode; `write_modbus` is the caller's.
  unfoldable pub apply_both : ℤ → Exec W (Unit {0}) → Exec (WebControl W) (Unit {0})
  apply_both soc_min write_modbus = do
    check_soc_range site (some soc_min) none
    web_job site (Batteries.check_soc_window site.client site.words (some soc_min) none)
    on_bus site write_modbus
    attempt (set_api_soc_manual (some soc_min) none) after_web_minimum

  unfoldable pub apply_soc_minimum : ℤ → Exec W (Unit {0}) → Exec (WebControl W) (Unit {0})
  apply_soc_minimum soc_min write_modbus = do
    s ← gets (λ s. s)
    if s.has_client && soc_mode_is_manual s.web_data
        then apply_both soc_min write_modbus
        else on_bus site write_modbus
