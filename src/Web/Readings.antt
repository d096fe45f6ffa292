-- ===== src/Web/Readings.antt =====
-- What the inverter's component endpoints add beyond Modbus: component_readings.py. A dict of
-- readings is a list of members, and a set a list.
pub mod Row
pub mod First
pub mod Second
pub mod Taken
pub mod Laws
use Prim.Native.Char.{code}
use Prim.Native.String.{String}
use Prim.Native.String
use text.Mathlib.Text.{◌==◌}
use fronius_modbus.Common
use fronius_modbus.Common.{
  Bool, true, false, not, ◌&&◌, ◌||◌, Option, none, some, List, [], ◌∷◌, ◌++◌, ℤ, pos, neg_ℤ, ltb_ℤ,
  if◌then◌else◌,
}
use fronius_modbus.Json.{
  Json, null, bool, int, str, arr, obj, Members, end, member, get, find, put, as_object,
  object_or_empty,
}
use fronius_modbus.Events.Parse.{is_empty}
use fronius_modbus.Web.Text.{Text}
use fronius_modbus.Web.Flags.{flag_value, as_number, is_set, has_text}
use Row.{ComponentReading, Component, inverter, storage, as_is, positive, yes_no, is_same}
use First.{first_readings}
use Second.{second_readings}

-- COMPONENT_READINGS
unfoldable pub component_readings : List ComponentReading
component_readings = first_readings ++ second_readings

abbrev pub absolute_limit_reached : String
absolute_limit_reached = "ACBRIDGE_VALUE_POWERACTIVE_PRODUCTION_LIMIT_REACHED_U8"

abbrev pub relative_limit_reached : String
relative_limit_reached = "ACBRIDGE_VALUE_POWERACTIVE_RELATIVE_PRODUCTION_LIMIT_REACHED_U8"

-- `field in readings`
unfoldable pub has_field : String → Members → Bool
has_field field end = false
has_field field (member k v rest) = k == field || has_field field rest

-- `any(field in readings for field in fields)`
unfoldable pub any_field : List String → Members → Bool
any_field [] readings = false
any_field (f ∷ fs) readings = has_field f readings || any_field fs readings

-- The rows of a component that follow its report.
unfoldable pub rows_once_reported : Component → List ComponentReading → List ComponentReading
rows_once_reported c [] = []
rows_once_reported c (r ∷ rs) =
    let rest = rows_once_reported c rs in
    if r.once_reported && is_same r.component c then r ∷ rest else rest

-- Whether an answer names a field of one of the rows: `group & readings.keys()`
unfoldable pub names_any : List ComponentReading → Members → Bool
names_any [] readings = false
names_any (r ∷ rs) readings = any_field r.fields readings || names_any rs readings

unfoldable pub reported : ComponentReading → Option Members → Bool
reported r none = true
reported r (some readings) =
    if not r.once_reported
    then true
    else if not (names_any (rows_once_reported r.component component_readings) readings)
    then true
    else any_field r.fields readings

unfoldable keys_named : List ComponentReading → Members → List String
keys_named [] readings = []
keys_named (r ∷ rs) readings =
    let rest = keys_named rs readings in if any_field r.fields readings then r.key ∷ rest else rest

unfoldable reported_rows : Component → Option Members → List String
reported_rows c none = []
reported_rows c (some readings) = keys_named (rows_once_reported c component_readings) readings

-- STORAGE_DEVICE_FIELDS
abbrev pub storage_device_fields : List String
storage_device_fields = "sw_version" ∷ "hw_version" ∷ []

unfoldable pub fields_of : Component → List ComponentReading → List String
fields_of c [] = []
fields_of c (r ∷ rs) =
    let rest = fields_of c rs in if is_same r.component c then r.fields ++ rest else rest

unfoldable pub readable_fields : Component → List String
readable_fields inverter = fields_of inverter component_readings
readable_fields storage = fields_of storage component_readings ++ storage_device_fields

-- `[readings[field] for field in fields if field in readings]`
unfoldable values_in : List String → Members → List Json
values_in [] readings = []
values_in (f ∷ fs) readings =
    let rest = values_in fs readings in elim (find f readings) [ none ↦ rest | some v ↦ v ∷ rest ]

-- `abs(value)` of a number
abbrev pub absolute : Json → Json
absolute (int n) = if ltb_ℤ n (pos 0) then int (neg_ℤ n) else int n
absolute (Json.float x) = if ltb_ℤ x (pos 0) then Json.float (neg_ℤ x) else Json.float x
absolute v = v

module _ (t : Text) where
  unfoldable any_set : List Json → Bool
  any_set [] = false
  any_set (v ∷ vs) = is_set t v || any_set vs

  abbrev in_unit : Option String → Json → Option Json
  in_unit none v = some v
  in_unit (some u) v = as_number t v

  -- The positive rows have a unit, so what is left of them is a number.
  abbrev positive_of : Option Json → Json
  positive_of none = null
  positive_of (some v) = absolute v

  abbrev shown_as : Option Json → Json
  shown_as none = null
  shown_as (some v) = v

  -- The value of a row that is reported; the first value and all of them
  abbrev shown_value : ComponentReading → Json → List Json → Json
  shown_value r v vs = elim r.transform [
    | yes_no ↦ if any_set (v ∷ vs) then str "yes" else str "no"
    | positive ↦ positive_of (in_unit r.unit v)
    | as_is ↦ shown_as (in_unit r.unit v)
  ]

  abbrev value_of : ComponentReading → List Json → Json
  value_of r [] = null
  value_of r (v ∷ vs) = shown_value r v vs

  unfoldable component_value : ComponentReading → Option Members → Json
  unfolding any_set
  component_value r none = null
  component_value r (some readings) = value_of r (values_in r.fields readings)

  -- The relative limit, and the absolute one.
  unfoldable limits_reached : Option Members → Option Bool × Option Bool
  limits_reached none = (none, none)
  limits_reached (some readings) = (
    flag_value t (get relative_limit_reached readings),
    flag_value t (get absolute_limit_reached readings),
  )
