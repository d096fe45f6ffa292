-- ===== src/Web/Modbus.antt =====
-- The Modbus and Solar API settings of the inverter: `ensure_modbus_enabled` of
-- froniuswebclient.py with its helpers, `set_solar_api_enabled` and `reset_modbus_control`.
pub mod Restriction
pub mod Laws
use Prim.Native.String.{String}
use text.Mathlib.Text.{◌==◌, starts_with}
use fronius_modbus.Common.{
  Bool, true, false, not, ◌&&◌, ◌||◌, Option, none, some, List, [], ◌∷◌, ℤ, eqb_ℤ, if◌then◌else◌,
}
use fronius_modbus.Exec.{
  Exec, Error, web, malformed, response, mode_change_needed, no_client_ip, ◌>>=◌, ◌>>◌, pure, raise,
  or_raise,
}
use fronius_modbus.Json.{
  Json, null, bool, int, str, arr, obj, Items, nil, cons, Members, end, member, get, find, put,
  put_all,
}
use fronius_modbus.Web.Text.{Text}
use fronius_modbus.Web.Flags.{Setting, flag, is_enabled, int_or, same, eqb}
use fronius_modbus.Web.Configs.{config_object, nested_object, or_else}
use fronius_modbus.Web.Client.{
  Http, Settings, get_config, post, modbus_path, solar_api_path, changes_in, payload_of,
}
use Restriction.{Networks, restriction_with}

-- ModbusRestriction of const.py
pub data ModbusRestriction : Type 0 where
  keep home_assistant off : ModbusRestriction

-- The arguments of `ensure_modbus_enabled`.
pub record Wish : Type 0 where
  pub port : ℤ
  pub meter_address : ℤ
  pub inverter_unit_id : ℤ
  pub restriction : ModbusRestriction
  pub switch_sunspec_mode : Bool

abbrev interface : String → Json
interface name = obj (member "if" (str name) end)

-- `MASTER_RTUIF["master"]`
abbrev master_rtuif : Json
master_rtuif =
    obj (member "rtuif" (arr (cons (interface "rtu0") (cons (interface "rtu1") nil))) end)

-- The parts of a configuration that are checked and written back.
pub record Parts : Type 0 where
  pub master : Members
  pub slave : Members
  pub ctr : Members
  pub restriction : Members

abbrev pub with_restriction : Members → Members → Members → Option Members → Option Parts
with_restriction m s c none = none
with_restriction m s c (some r) = some (record { master = m; slave = s; ctr = c; restriction = r })

abbrev pub with_ctr : Members → Members → Option Members → Option Parts
with_ctr m s none = none
with_ctr m s (some c) = with_restriction m s c (nested_object c "restriction")

abbrev pub with_slave : Members → Option Members → Option Parts
with_slave m none = none
with_slave m (some s) = with_ctr m s (nested_object s "ctr")

abbrev pub with_master : Members → Option Members → Option Parts
with_master config none = none
with_master config (some m) = with_slave m (nested_object config "slave")

-- The first lines of `ensure_modbus_enabled`; none is the error of a part that is no object.
unfoldable pub parts_of : Members → Option Parts
parts_of config = with_master config (config_object (or_else (find "master" config) master_rtuif))

-- `value == text`
abbrev pub is_text : String → Json → Bool
is_text w (str s) = s == w
is_text w _ = false

-- `_MODE_WITH_TCP.get(mode, "tcp")`; none where the mode cannot be hashed
unfoldable pub mode_with_tcp : Json → Option String
mode_with_tcp (arr xs) = none
mode_with_tcp (obj ms) = none
mode_with_tcp (str s) =
    if s == "rtu" then some "both" else if s == "both" then some "both" else some "tcp"
mode_with_tcp _ = some "tcp"

module _ (t : Text) where
  -- `_as_int(value, wanted) == int(wanted)`
  abbrev is_number_of : ℤ → Json → Bool
  is_number_of wanted v = eqb_ℤ (int_or t v wanted) wanted

  -- The condition under which nothing is written.
  unfoldable pub is_settled : Wish → Parts → Members → Bool
  is_settled w p wanted =
      (is_text "tcp" (get "mode" p.slave) || is_text "both" (get "mode" p.slave))
      && is_text "int" (get "sunspecMode" p.slave)
      && is_enabled t (get "on" p.ctr)
      && is_number_of w.port (get "port" p.slave)
      && is_number_of w.meter_address (get "meterAddress" p.slave)
      && is_number_of w.inverter_unit_id (get "rtu_inverter_slave_id" p.slave)
      && eqb (is_enabled t (get "on" p.restriction)) (is_enabled t (get "on" wanted))
      && t.equal (get "ip" p.restriction) (get "ip" wanted)

abbrev is_null : Json → Bool
is_null null = true
is_null _ = false

-- `other_mode and served and not switch_sunspec_mode`
unfoldable pub needs_consent : Wish → Parts → Bool
needs_consent w p =
    not (is_null (get "sunspecMode" p.slave))
    && not (is_text "int" (get "sunspecMode" p.slave))
    && not (is_text "off" (get "mode" p.slave))
    && not w.switch_sunspec_mode

-- The slave part of the payload.
unfoldable pub slave_of : Wish → Parts → Members → String → Members
slave_of w p wanted mode =
    put "ctr" (obj (put "restriction" (obj wanted) (put "on" (bool true) p.ctr))) (
      put "rtu_inverter_slave_id" (int w.inverter_unit_id) (
        put "meterAddress" (int w.meter_address) (
          put "sunspecMode" (str "int") (
            put "port" (int w.port) (
              put "mode" (str mode)
                (put "rtuif" (or_else (find "rtuif" p.slave) (arr nil)) p.slave))))))

unfoldable pub payload : Wish → Parts → Members → String → Members
payload w p wanted mode =
    member "master" (obj p.master) (member "slave" (obj (slave_of w p wanted mode)) end)

-- What `ensure_modbus_enabled` does on a configuration: nothing, a write, or an error.
pub data Decision : Type 0 where
  settled : Decision
  writes : Members → Decision
  fails : Error → Decision

-- What the code calls of the network: the library ipaddress, and the address of this host towards
-- the inverter, which is none where the socket raises.
pub record Network (W : Type 0) : Type 0 where
  pub networks : Networks
  pub own_address : Exec W (Option String)

abbrev pub write_in : Wish → Parts → Members → Option String → Decision
write_in w p wanted none = fails (web malformed)
write_in w p wanted (some mode) = writes (payload w p wanted mode)

module _ (t : Text) where
  unfoldable pub decide_wanted : Wish → Parts → Members → Decision
  decide_wanted w p wanted =
      if is_settled t w p wanted
      then settled
      else if needs_consent w p
      then fails (web mode_change_needed)
      else write_in w p wanted (mode_with_tcp (get "mode" p.slave))

module _ (t : Text) (n : Networks) where
  -- `wanted`, with the address of this host
  unfoldable pub wanted_restriction : ModbusRestriction → String → Members → Members
  wanted_restriction keep address current = current
  wanted_restriction home_assistant address current = restriction_with t n current address
  wanted_restriction off address current = put "on" (bool false) current

  unfoldable pub decide_parts : Wish → String → Parts → Decision
  decide_parts w address p =
      decide_wanted t w p (wanted_restriction w.restriction address p.restriction)

  abbrev pub decide_read : Wish → String → Option Parts → Decision
  decide_read w address none = fails (web (response 200))
  decide_read w address (some p) = decide_parts w address p

  -- `ensure_modbus_enabled` on a configuration that was read.
  unfoldable pub decide : Wish → String → Members → Decision
  decide w address config = decide_read w address (parts_of config)

module _ {W : Type 0} (h : Http W) (t : Text) (network : Network W) where
  abbrev usable : Option String → Option String
  usable none = none
  usable (some a) = if a == "" || starts_with a "127." then none else some a

  -- `_resolve_client_ip`
  unfoldable pub resolve_client_ip : Exec W String
  resolve_client_ip = do a ← network.own_address; or_raise (usable a) (web no_client_ip)

  -- The address is asked for where the restriction needs it.
  abbrev address_for : ModbusRestriction → Exec W String
  address_for home_assistant = resolve_client_ip
  address_for keep = pure ""
  address_for off = pure ""

  abbrev carry_out : Decision → Exec W Bool
  carry_out settled = pure false
  carry_out (writes p) = (post h modbus_path (some (obj p)) >> pure true)
  carry_out (fails e) = raise e

  unfoldable pub ensure_modbus_enabled : Wish → Exec W Bool
  ensure_modbus_enabled w = do
    config ← get_config h modbus_path
    p ← or_raise (parts_of config) (web (response 200))
    address ← address_for w.restriction
    carry_out (decide_parts t network.networks w address p)

module _ {W : Type 0} (h : Http W) (t : Text) where
  unfoldable pub reset_modbus_control : Exec W Bool
  reset_modbus_control = (post h "/api/commands/ModbusReset" none >> pure true)

  -- `wanted` of `set_solar_api_enabled`
  unfoldable pub solar_api_wanted : Bool → Settings
  solar_api_wanted true = ("SolarAPIv1Enabled", flag true) ∷ []
  solar_api_wanted false =
      ("SolarAPIv1Enabled", flag false) ∷ ("activeOnExternalDevicesDiscovered", flag false) ∷ []

  abbrev all_held : Settings → Bool
  all_held [] = true
  all_held (c ∷ cs) = false

  unfoldable pub set_solar_api_enabled : Bool → Exec W Bool
  set_solar_api_enabled enabled = do
    current ← get_config h solar_api_path
    if all_held (changes_in t (solar_api_wanted enabled) current)
        then pure false
        else (post h solar_api_path
              (some (obj (put_all (payload_of (solar_api_wanted enabled)) current)))
            >> pure true)
