-- ===== src/Web/ExportLimit.antt =====
-- Where the export limit settings keep the soft limit: export_limit.py, with its write by
-- `set_export_soft_limit` of froniuswebclient.py and its reading by web_control.py.
pub mod Laws
use Prim.Native.String.{String}
use text.Mathlib.Text.{◌==◌}
use fronius_modbus.Common
use fronius_modbus.Common.{Bool, true, false, not, ◌&&◌, ◌||◌, Option, none, some, ℤ, if◌then◌else◌}
use fronius_modbus.Exec.{
  Exec, Error, web, malformed, response, Result, ok, err, ◌>>=◌, ◌>>◌, pure, raise, or_raise,
  attempt,
}
use fronius_modbus.Json.{
  Json, null, bool, int, obj, Members, end, get, find, put, as_object, object_or_empty,
}
use fronius_modbus.Web.Text.{Text}
use fronius_modbus.Web.Flags.{Setting, number, same, is_enabled, flag_value, int_of, is_true_flag}
use fronius_modbus.Web.Configs.{config_part}
use fronius_modbus.Web.Client.{Http, get_json, post, power_limits_path}

abbrev pub export_limit_key : String
export_limit_key = "exportLimit"

-- Which object `soft_limit_location` names: the activePower block itself, or its softLimit.
pub data Place : Type 0 where
  in_block in_soft : Place

abbrev pub place_at : Option Json → Place
place_at none = in_soft
place_at (some v) = in_block

unfoldable pub soft_limit_place : Members → Place
soft_limit_place active_power = place_at (find export_limit_key active_power)

-- `soft_limit_location`: the object at a place, and its key
unfoldable pub holder_at : Place → Members → Members
holder_at in_block active_power = active_power
holder_at in_soft active_power = object_or_empty (get "softLimit" active_power)

abbrev pub key_at : Place → String
key_at in_block = export_limit_key
key_at in_soft = "powerLimit"

-- `soft_limit_value` of a dict
unfoldable pub soft_limit_value : Members → Json
unfolding soft_limit_place holder_at
soft_limit_value active_power =
    let place = soft_limit_place active_power in get (key_at place) (holder_at place active_power)

-- The block with `soft["enabled"] = True` and `holder[key] = int(power_w)`.
unfoldable pub limited : Place → Members → Members → ℤ → Members
limited in_block active_power soft w =
    put export_limit_key (int w)
      (put "softLimit" (obj (put "enabled" (bool true) soft)) active_power)
limited in_soft active_power soft w =
    put "softLimit" (obj (put "powerLimit" (int w) (put "enabled" (bool true) soft))) active_power

-- `value[key]` that is then used as a dict; none where Python raises
unfoldable pub part : String → Json → Option Members
part key (obj ms) = as_object (get key ms)
part key _ = none

-- The configuration with another activePower block.
unfoldable pub with_block : Members → Members → Members → Members
with_block config limits active_power =
    put "exportLimits" (obj (put "activePower" (obj active_power) limits)) config

module _ (t : Text) where
  -- `_as_int(soft_limit_value(active_power))`
  abbrev limit_of_block : Option Members → Option ℤ
  limit_of_block none = none
  limit_of_block (some block) = int_of t (soft_limit_value block)

  abbrev pub limit_if_on : Option Members → Option Members → Option ℤ
  limit_if_on active_power none = none
  limit_if_on active_power (some soft) =
      if is_true_flag (flag_value t (get "enabled" soft)) then limit_of_block active_power else none

  -- What the refresh of web_control.py shows as the soft limit.
  unfoldable pub shown_soft_limit : Option Members → Option ℤ
  shown_soft_limit config =
      let active_power = config_part (config_part config "exportLimits") "activePower" in
      limit_if_on active_power (config_part active_power "softLimit")

module _ {W : Type 0} (h : Http W) (t : Text) where
  -- `set_export_soft_limit` once the parts are there.
  unfoldable pub write_soft_limit : Members → Members → Members → Members → ℤ → Exec W Bool
  write_soft_limit config limits active_power soft w =
      let place = soft_limit_place active_power in
      if is_enabled t (get "enabled" soft)
        && same t (get (key_at place) (holder_at place active_power)) (number w)
      then pure false
      else (post h power_limits_path
            (some (obj (with_block config limits (limited place active_power soft w))))
          >> pure true)

  unfoldable pub set_export_soft_limit : ℤ → Exec W Bool
  set_export_soft_limit w = do
    answer ← get_json h true power_limits_path
    config ← or_raise (as_object answer) (web malformed)
    limits ← or_raise (part "exportLimits" answer) (web malformed)
    active_power ← or_raise (part "activePower" (obj limits)) (web malformed)
    soft ← or_raise (part "softLimit" (obj active_power)) (web malformed)
    write_soft_limit config limits active_power soft w

  -- `except FroniusWebResponseError` of `get_export_limit_config`
  abbrev not_found_is_empty : Result Json → Exec W Json
  not_found_is_empty (ok v) = pure v
  not_found_is_empty (err (web (response n))) =
      if Common.◌==◌ n 404 then pure (obj end) else raise (web (response n))
  not_found_is_empty (err e) = raise e

  unfoldable pub get_export_limit_config : Exec W Json
  get_export_limit_config = attempt (get_json h true power_limits_path) not_found_is_empty
