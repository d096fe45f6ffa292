-- ===== src/Web/Control/Setters.antt =====
-- The setters of web_control.py; each runs alone, under the write lock.
use Prim.Native.String.{String}
use fronius_modbus.Common.{
  Bool, true, false, not, ◌&&◌, ◌||◌, Option, none, some, ℤ, pos, neg_ℤ, Float, leb_ℤ, ltb_ℤ,
}
use fronius_modbus.Exec.{
  Exec, refused, web_api_not_configured, technician_not_configured, value_out_of_range,
  needs_manual_self_consumption, ◌>>=◌, ◌>>◌, pure, gets, modify, guard,
}
use fronius_modbus.Web.Client.Batteries
use fronius_modbus.Web.ExportLimit
use fronius_modbus.Web.Modbus
use fronius_modbus.Web.Control.{
  Site, WebControl, WebData, battery_mode_is_manual, set_effective_battery_mode, soc_mode_manual,
  soc_mode_auto,
}
use fronius_modbus.Web.Control.Jobs.{web_job, publish, after_battery_write, sync_solar_api_warning}
use fronius_modbus.Web.Control.Refresh.{on_data}

-- SOC_LOWEST and SOC_HIGHEST
abbrev pub soc_lowest : ℤ
soc_lowest = pos 5

abbrev pub soc_highest : ℤ
soc_highest = pos 100

-- `_implied_charge_sources`
unfoldable pub implied_charge_sources : Option Bool → Option Bool → Option Bool × Option Bool
implied_charge_sources grid (some false) = (some false, some false)
implied_charge_sources (some true) from_ac = (some true, some true)
implied_charge_sources grid from_ac = (grid, from_ac)

abbrev within : ℤ → ℤ → Option ℤ → Bool
within lo hi none = true
within lo hi (some n) = leb_ℤ lo n && leb_ℤ n hi

-- Whether `_check_soc_range` lets the limits through.
unfoldable pub in_soc_range : Option ℤ → Option ℤ → Bool
in_soc_range soc_min soc_max =
    within soc_lowest soc_highest soc_min && within (pos 0) soc_highest soc_max

abbrev pub or_kept : {A : Type 0} → Option A → Option A → Option A
or_kept none old = old
or_kept (some a) old = some a

module _ {W : Type 0} (site : Site W) where
  -- `if not self._client: raise ControlUnavailable(...)`
  unfoldable pub require_client : Exec (WebControl W) (Unit {0})
  require_client = do s ← gets (λ s. s); guard s.has_client (refused web_api_not_configured)

  -- `_check_soc_range`
  unfoldable pub check_soc_range : Option ℤ → Option ℤ → Exec (WebControl W) (Unit {0})
  check_soc_range soc_min soc_max =
      guard (in_soc_range soc_min soc_max) (refused value_out_of_range)

  unfoldable pub set_solar_api_enabled : Bool → Exec (WebControl W) (Unit {0})
  set_solar_api_enabled enabled = do
    require_client
    web_job site (Modbus.set_solar_api_enabled site.client site.words enabled)
    modify (on_data site (λ d. record d { solar_api_enabled = some enabled }))
    modify (publish site)
    modify (sync_solar_api_warning site)

  unfoldable pub reset_modbus_control : Exec (WebControl W) (Unit {0})
  reset_modbus_control = do
    require_client
    web_job site (Modbus.reset_modbus_control site.client site.words)
    pure tt

  unfoldable pub set_battery_mode : ℤ → Exec (WebControl W) (Unit {0})
  set_battery_mode mode = do
    require_client
    written ← web_job site (Batteries.set_battery_config site.client site.words mode)
    modify (on_data site (λ d. set_effective_battery_mode (some mode) d.soc_mode_raw d))
    modify (after_battery_write site written)

  -- `_require_battery_mode_manual`
  unfoldable pub require_battery_mode_manual : Exec (WebControl W) (Unit {0})
  require_battery_mode_manual = do
    s ← gets (λ s. s)
    guard (battery_mode_is_manual s.web_data) (refused needs_manual_self_consumption)

  unfoldable pub set_battery_power_w : Float → Exec (WebControl W) (Unit {0})
  set_battery_power_w value = do
    require_client
    require_battery_mode_manual
    written ←
        web_job site
          (Batteries.set_battery_power site.client site.words (neg_ℤ (site.rounded value)))
    modify (on_data site (λ d. record d { battery_power_w = some (site.rounded value) }))
    modify (after_battery_write site written)

  abbrev pub soc_mode_of : Bool → String
  soc_mode_of true = soc_mode_manual
  soc_mode_of false = soc_mode_auto

  unfoldable pub set_soc_mode : Bool → Exec (WebControl W) (Unit {0})
  set_soc_mode manual = do
    require_client
    written ← web_job site (Batteries.set_soc_mode site.client site.words (soc_mode_of manual))
    modify (
        on_data site
          (λ d. set_effective_battery_mode d.battery_mode_raw (some (soc_mode_of manual)) d))
    modify (after_battery_write site written)

  unfoldable pub set_backup_reserve : ℤ → Exec (WebControl W) (Unit {0})
  set_backup_reserve percent = do
    require_client
    guard (not (ltb_ℤ percent soc_lowest || ltb_ℤ soc_highest percent)) (refused value_out_of_range)
    written ← web_job site (Batteries.set_backup_reserve site.client site.words percent)
    modify (on_data site (λ d. record d { backup_reserved = some percent }))
    modify (after_battery_write site written)

  abbrev with_sources : Option Bool × Option Bool → WebData → WebData
  with_sources (grid, from_ac) d = record d {
    charge_from_grid = or_kept grid d.charge_from_grid;
    charge_from_ac = or_kept from_ac d.charge_from_ac;
  }

  unfoldable pub set_charge_sources : Option Bool → Option Bool → Exec (WebControl W) (Unit {0})
  unfolding implied_charge_sources
  set_charge_sources charge_from_grid charge_from_ac = do
    require_client
    let flags = implied_charge_sources charge_from_grid charge_from_ac
    written ←
        web_job site (Batteries.set_battery_charge_sources site.client site.words flags.0 flags.1)
    modify (on_data site (with_sources flags))
    modify (after_battery_write site written)

  unfoldable set_export_soft_limit_w : Float → Exec (WebControl W) (Unit {0})
  set_export_soft_limit_w value = do
    s ← gets (λ s. s)
    guard (s.has_client && site.is_technician) (refused technician_not_configured)
    web_job site (ExportLimit.set_export_soft_limit site.client site.words (site.rounded value))
    modify (on_data site (λ d. record d { export_soft_limit_w = some (site.rounded value) }))
    modify (publish site)
