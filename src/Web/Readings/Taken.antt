-- ===== src/Web/Readings/Taken.antt =====
-- The fields that the web client takes from a component's answer: `take_readings` of
-- component_readings.py.
use Prim.Native.Char.{code}
use Prim.Native.String.{String, ◌++◌}
use text.Mathlib.Text.{◌==◌}
use fronius_modbus.Common
use fronius_modbus.Common.{Bool, true, false, not, Option, none, some, List, [], ◌∷◌, if◌then◌else◌}
use fronius_modbus.Json.{Json, null, str, Members, end, get, find, put, object_or_empty}
use fronius_modbus.Events.Parse.{is_empty}
use fronius_modbus.Web.Text.{Text}
use fronius_modbus.Web.Readings.Row.{Component}
use fronius_modbus.Web.Readings.{readable_fields}

-- `field.removeprefix(prefix)` where `field.startswith(prefix)`
unfoldable pub behind : String → String → Option String
behind String.[] s = some s
behind (String.◌∷◌ c p) String.[] = none
behind (String.◌∷◌ c p) (String.◌∷◌ d s) =
    let rest = behind p s in if Common.◌==◌ (code c) (code d) then rest else none

abbrev or_whole : Option String → String → String
or_whole none s = s
or_whole (some r) s = r

-- `text.rsplit("/", 1)[-1]`
unfoldable pub last_segment : String → Option String
last_segment String.[] = none
last_segment (String.◌∷◌ c s) =
    let deeper = last_segment s in
    elim deeper [ some r ↦ some r | none ↦ if Common.◌==◌ (code c) b'/' then some s else none ]

-- One round of the loop of `take_readings`
abbrev pub keep_reading : String → Json → Members → Members
keep_reading field null found = found
keep_reading field v found = put field v found

module _ (t : Text) where
  -- `json_object`
  unfoldable pub json_object : Json → Members
  json_object (str s) = elim (t.loads s) [ none ↦ end | some v ↦ object_or_empty v ]
  json_object _ = end

  -- `str(value or "")`
  abbrev text_or_empty : Json → String
  text_or_empty v = if is_empty v then "" else t.to_str v

  unfoldable pub connection_text : Members → Json
  unfolding json_object last_segment
  connection_text attributes =
      let connection = json_object (get "connection" attributes) in
      let protocol = get "protocol" connection in
      let interface = text_or_empty (get "rtu-interface" connection) in
      let ending = or_whole (last_segment interface) interface in
      let shown = t.strip (t.to_str protocol ++ (" " ++ ending)) in
      let address = get "addr" attributes in
      if is_empty protocol
      then null
      else if is_empty address
      then str shown
      else str (shown ++ (":" ++ t.to_str address))

  abbrev found_or : Option Json → Json → Json
  found_or (some v) d = v
  found_or none d = d

  -- `_reading`
  unfoldable pub reading_of : String → Members → Members → Members → Json
  unfolding behind connection_text
  reading_of field channels attributes nameplate = elim (behind "nameplate." field) [
    | some name ↦ get name nameplate
    | none ↦
        if field == "connection"
        then connection_text attributes
        else found_or (find field channels) (get field attributes)
  ]

  unfoldable pub taken : List String → Members → Members → Members → Members
  taken [] channels attributes nameplate = end
  taken (field ∷ fields) channels attributes nameplate =
      let rest = taken fields channels attributes nameplate in
      keep_reading field (reading_of field channels attributes nameplate) rest

  unfoldable pub take_readings : Members → Component → Members
  unfolding taken json_object
  take_readings device component =
      let channels = object_or_empty (get "channels" device) in
      let attributes = object_or_empty (get "attributes" device) in
      taken (readable_fields component) channels attributes
        (json_object (get "nameplate" attributes))
