-- ===== src/Web/Control/Windows.antt =====
-- When a write of web_control.py opens the Modbus recovery window.
use mathlib.Core.Path.{subst}
use fronius_modbus.Common.{
  ◌+◌, ◌≡◌, refl, sym, Bool, true, false, ◌&&◌, Option, ℤ, Float, neg_ℤ, leb_ℤ, if◌then◌else◌,
  arith,
}
use fronius_modbus.Exec.{
  Exec, Error, Result, ok, ◌>>=◌, zoom, attempt, ◌>>◌, continue, guard, modify,
}
use fronius_modbus.Web.Control.Refresh.{on_data}
use fronius_modbus.Web.Client.Batteries
use fronius_modbus.Web.Control.{
  Site, WebControl, WebData, battery_mode_is_manual, soc_mode_is_manual,
}
use fronius_modbus.Web.Control.Jobs.{web_job, after_web_job, after_battery_write}
use fronius_modbus.Web.Control.Setters
use fronius_modbus.Web.Control.Setters.{
  require_client, require_battery_mode_manual, set_battery_mode, set_battery_power_w, set_soc_mode,
  set_backup_reserve, set_charge_sources, implied_charge_sources, soc_mode_of, in_soc_range,
  check_soc_range,
}
use fronius_modbus.Web.Control.SocLimits.{set_api_soc_manual, require_soc_mode_manual}

-- The controls that write the battery's configuration.
pub data BatteryControl : Type 0 where
  mode : ℤ → BatteryControl
  power : Float → BatteryControl
  soc_mode : Bool → BatteryControl
  reserve : ℤ → BatteryControl
  sources : Option Bool → Option Bool → BatteryControl
  limits : Option ℤ → Option ℤ → BatteryControl

module _ {W : Type 0} (site : Site W) where
  abbrev pub set : BatteryControl → Exec (WebControl W) (Unit {0})
  set (mode m) = set_battery_mode site m
  set (power v) = set_battery_power_w site v
  set (soc_mode b) = set_soc_mode site b
  set (reserve p) = set_backup_reserve site p
  set (sources g a) = set_charge_sources site g a
  set (limits l u) = set_api_soc_manual site l u

  -- The call of the client that a control makes.
  abbrev pub sent : BatteryControl → Exec W Bool
  sent (mode m) = Batteries.set_battery_config site.client site.words m
  sent (power v) = Batteries.set_battery_power site.client site.words (neg_ℤ (site.rounded v))
  sent (soc_mode b) = Batteries.set_soc_mode site.client site.words (soc_mode_of site b)
  sent (reserve p) = Batteries.set_backup_reserve site.client site.words p
  sent (sources g a) =
      Batteries.set_battery_charge_sources site.client site.words (implied_charge_sources g a).0
        (implied_charge_sources g a).1
  sent (limits l u) = Batteries.set_soc_limits site.client site.words l u

  -- What a control asks of the data and of its value, before it calls the client.
  abbrev pub permits : BatteryControl → WebData → Bool
  permits (mode m) d = true
  permits (power v) d = battery_mode_is_manual d
  permits (soc_mode b) d = true
  permits (reserve p) d = leb_ℤ Setters.soc_lowest p && leb_ℤ p Setters.soc_highest
  permits (sources g a) d = true
  permits (limits l u) d = soc_mode_is_manual d && in_soc_range l u

  passes :
      {B : Type 0} (b : Bool) (e : Error) (k : Unit {0} → Exec (WebControl W) B) (s : WebControl W)
      → b ≡ true
      → continue (guard b e s).0 k (guard b e s).1 ≡ k tt s
  unfolding ◌>>=◌
  passes true e k s h = refl
  passes false e k s h = absurd (cc h)

  module _ (s : WebControl W) (written : Bool) where
    -- A write that returned, and what it opened.
    abbrev pub Opens : W → Result (Unit {0}) × WebControl W → Type 0
    Opens left end =
        (end.0 ≡ ok tt)
        × (end.1.bus ≡ left)
        × (end.1.recoveries ≡ (if written then s.recoveries + 1 else s.recoveries))

    -- The end of every control.
    abbrev rest_of : (WebData → WebData) → Exec W Bool → Exec (WebControl W) (Unit {0})
    rest_of f m = do
      w ← web_job site m
      modify (on_data site f)
      modify (after_battery_write site w)

    rest-Opens :
        (f : WebData → WebData) (m : Exec W Bool)
        → s.has_client ≡ true
        → (m s.bus).0 ≡ ok written
        → Opens (m s.bus).1 (rest_of f m s)
    unfolding web_job after_web_job attempt zoom ◌>>=◌ after_battery_write
    rest-Opens f m c e = ground arith

    module _ (c : s.has_client ≡ true) where
      behind_client :
          (left : W) (k : Unit {0} → Exec (WebControl W) (Unit {0}))
          → Opens left (k tt s)
          → Opens left ((require_client site >>= k) s)
      unfolding require_client ◌>>=◌
      behind_client left k h = subst (Opens left) (sym (passes s.has_client _ k s c)) h

    behind_battery_mode :
        (left : W) (k : Unit {0} → Exec (WebControl W) (Unit {0}))
        → battery_mode_is_manual s.web_data ≡ true
        → Opens left (k tt s)
        → Opens left ((require_battery_mode_manual site >>= k) s)
    unfolding require_battery_mode_manual ◌>>=◌
    behind_battery_mode left k m h =
        subst (Opens left) (sym (passes (battery_mode_is_manual s.web_data) _ k s m)) h

    behind_soc_mode :
        (left : W) (k : Unit {0} → Exec (WebControl W) (Unit {0}))
        → soc_mode_is_manual s.web_data ≡ true
        → Opens left (k tt s)
        → Opens left ((require_soc_mode_manual site >>= k) s)
    unfolding require_soc_mode_manual ◌>>=◌
    behind_soc_mode left k m h =
        subst (Opens left) (sym (passes (soc_mode_is_manual s.web_data) _ k s m)) h

    behind_guard :
        (left : W) (b : Bool) (e : Error) (k : Unit {0} → Exec (WebControl W) (Unit {0}))
        → b ≡ true
        → Opens left (k tt s)
        → Opens left ((guard b e >>= k) s)
    unfolding ◌>>=◌
    behind_guard left b e k h o = subst (Opens left) (sym (passes b e k s h)) o

    pub set-Opens :
        (c : BatteryControl)
        → s.has_client ≡ true
        → permits c s.web_data ≡ true
        → (sent c s.bus).0 ≡ ok written
        → Opens (sent c s.bus).1 (set c s)
    unfolding set_battery_mode set_battery_power_w set_soc_mode set_backup_reserve
        set_charge_sources set_api_soc_manual check_soc_range
    set-Opens (mode m) c p e = behind_client c _ _ (rest-Opens _ _ c e)
    set-Opens (power v) c p e = behind_client c _ _ (behind_battery_mode _ _ p (rest-Opens _ _ c e))
    set-Opens (soc_mode b) c p e = behind_client c _ _ (rest-Opens _ _ c e)
    set-Opens (reserve n) c p e =
        behind_client c _ _ (behind_guard _ _ _ _ (ground (arith, p)) (rest-Opens _ _ c e))
    set-Opens (sources g a) c p e = behind_client c _ _ (rest-Opens _ _ c e)
    set-Opens (limits l u) c p e = behind_client c _ _ (
        behind_soc_mode _ _ (ground (arith, p))
          (behind_guard _ _ _ _ (ground (arith, p)) (rest-Opens _ _ c e)))
