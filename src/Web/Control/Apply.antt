-- ===== src/Web/Control/Apply.antt =====
-- What a poll of the web interface puts into the data: the `_apply_` methods of web_control.py.
use Prim.Native.String.{String}
use fronius_modbus.Common.{Bool, true, false, Option, none, some, ℤ, neg_ℤ}
use fronius_modbus.Json.{Json, null, str, Members, end, get}
use fronius_modbus.Web.Text.{Text}
use fronius_modbus.Web.Flags.{flag_value, int_of}
use fronius_modbus.Web.Configs.{config_part}
use fronius_modbus.Web.Client.Reads.{StorageInfo, InverterInfo}
use fronius_modbus.Web.Control.{WebData, set_effective_battery_mode}

abbrev negated : Option ℤ → Option ℤ
negated none = none
negated (some n) = some (neg_ℤ n)

module _ (t : Text) where
  abbrev lowered : Json → Option String
  lowered (str s) = some (t.lower s)
  lowered _ = none

  -- `_apply_web_battery_config`
  unfoldable pub apply_web_battery_config : Members → WebData → WebData
  apply_web_battery_config c d =
      let moded =
        set_effective_battery_mode (int_of t (get "HYB_EM_MODE" c))
          (lowered (get "BAT_M0_SOC_MODE" c)) d in
      record moded {
        battery_power_w = negated (int_of t (get "HYB_EM_POWER" c));
        soc_min = int_of t (get "BAT_M0_SOC_MIN" c);
        soc_max = int_of t (get "BAT_M0_SOC_MAX" c);
        backup_reserved = int_of t (get "HYB_BACKUP_RESERVED" c);
        charge_from_ac = flag_value t (get "HYB_BM_CHARGEFROMAC" c);
        charge_from_grid = flag_value t (get "HYB_EVU_CHARGEFROMGRID" c);
      }

  -- `_enabled_state`
  abbrev enabled_state : Bool → String
  enabled_state true = "enabled"
  enabled_state false = "disabled"

  abbrev state_of : Option Bool → Option String
  state_of none = none
  state_of (some b) = some (enabled_state b)

  -- `_flag_state`
  unfoldable pub flag_state : Option Members → Option String
  flag_state none = none
  flag_state (some part) = elim (get "on" part) [
    | null ↦ some "disabled"
    | v ↦ state_of (flag_value t v)
  ]

  abbrev or_empty : Option Members → Members
  or_empty none = end
  or_empty (some ms) = ms

  abbrev upper_text : Json → Option String
  upper_text null = none
  upper_text (str s) = some (t.upper s)
  upper_text v = some (t.upper (t.to_str v))

  -- `_apply_web_modbus_config`
  unfoldable pub apply_web_modbus_config : Members → WebData → WebData
  unfolding flag_state
  apply_web_modbus_config c d =
      let slave = config_part (some c) "slave" in
      let ctr = config_part slave "ctr" in
      let restriction = config_part ctr "restriction" in
      record d {
        modbus_mode = upper_text (get "mode" (or_empty slave));
        modbus_control = flag_state ctr;
        sunspec_mode = get "sunspecMode" (or_empty slave);
        modbus_restriction = flag_state restriction;
        modbus_restriction_ip = get "ip" (or_empty restriction);
      }

abbrev with_identity : StorageInfo → Option Members → WebData → WebData
with_identity i none d = d
with_identity i (some _) d = record d {
  storage_manufacturer = i.manufacturer;
  storage_model = i.model;
  storage_serial = i.serial;
}

-- `_apply_storage_info`
unfoldable pub apply_storage_info : Option StorageInfo → WebData → WebData
apply_storage_info none d = record d { storage_readings = none }
apply_storage_info (some i) d =
    with_identity i i.readings
      (record d { storage_readings = i.readings; storage_endpoint_missing = i.missing })

-- The first lines of `_async_refresh_locked`, on the inverter's answer.
unfoldable pub apply_inverter_info : Option InverterInfo → WebData → WebData
apply_inverter_info none d = record d {
  inverter_readings = none;
  inverter_endpoint_missing = false;
}
apply_inverter_info (some i) d = record d {
  inverter_readings = i.readings;
  inverter_endpoint_missing = i.missing;
}
