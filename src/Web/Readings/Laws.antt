-- ===== src/Web/Readings/Laws.antt =====
-- Which fields of a component leave the web client.
use Prim.Native.String.{String}
use text.Mathlib.Text.{◌==◌}
use text.Mathlib.TextEquality.{eq_iff}
use fronius_modbus.Common.{◌≡◌, refl, true, false, ◌||◌, List, [], ◌∷◌, arith, Bool-cases, inl, inr}
use fronius_modbus.Json.{
  Json, null, bool, int, str, arr, obj, Members, end, member, get, put, object_or_empty,
}
use fronius_modbus.Web.Text.{Text}
use fronius_modbus.Web.Flags.{has_text}
use fronius_modbus.Web.Readings.Row.{Component, inverter, storage}
use fronius_modbus.Web.Readings.{has_field, readable_fields, fields_of, component_readings}
use fronius_modbus.Web.Readings.First.{first_readings}
use fronius_modbus.Web.Readings.Second.{second_readings}
use fronius_modbus.Web.Readings.Taken.{keep_reading, taken, take_readings, reading_of, json_object}

has_field-put :
    (j key : String) (v : Json) (ms : Members)
    → has_field j (put key v ms) ≡ (key == j || has_field j ms)
unfolding has_field put
has_field-put j key v end = refl
has_field-put j key v (member k w rest) =
    ground (arith, has_field-put j key v rest, eq_iff k key, eq_iff key j, eq_iff k j)

has_field-keep_reading :
    (j key : String) (v : Json) (ms : Members)
    → has_field j (keep_reading key v ms) ≡ true
    → (key == j || has_field j ms) ≡ true
has_field-keep_reading j key null ms h = ground (arith, h)
has_field-keep_reading j key (bool b) ms h = ground (arith, has_field-put j key (bool b) ms)
has_field-keep_reading j key (int n) ms h = ground (arith, has_field-put j key (int n) ms)
has_field-keep_reading j key (Json.float x) ms h =
    ground (arith, has_field-put j key (Json.float x) ms)
has_field-keep_reading j key (str s) ms h = ground (arith, has_field-put j key (str s) ms)
has_field-keep_reading j key (arr xs) ms h = ground (arith, has_field-put j key (arr xs) ms)
has_field-keep_reading j key (obj ys) ms h = ground (arith, has_field-put j key (obj ys) ms)

module _ (t : Text) (j : String) where
  taken_listed :
      (fields : List String) (channels attributes nameplate : Members)
      → has_field j (taken t fields channels attributes nameplate) ≡ true
      → has_text j fields ≡ true
  unfolding taken has_text has_field
  taken_listed [] channels attributes nameplate h = h
  taken_listed (f ∷ fs) channels attributes nameplate h = ground (
    arith,
    has_field-keep_reading j f (reading_of t f channels attributes nameplate)
        (taken t fs channels attributes nameplate),
    taken_listed fs channels attributes nameplate,
  )

  -- Whatever a component answers, the web client hands on only the fields that COMPONENT_READINGS
  -- and STORAGE_DEVICE_FIELDS name for it.
  take_readings_listed :
      (device : Members) (c : Component)
      → has_field j (take_readings t device c) ≡ true
      → has_text j (readable_fields c) ≡ true
  unfolding take_readings
  take_readings_listed device c h =
      taken_listed (readable_fields c) (object_or_empty (get "channels" device))
        (object_or_empty (get "attributes" device))
        (json_object t (get "nameplate" (object_or_empty (get "attributes" device)))) h

serial_unlisted : (c : Component) → has_text "serial" (readable_fields c) ≡ false
unfolding has_text readable_fields fields_of component_readings first_readings second_readings
serial_unlisted inverter = refl
serial_unlisted storage = refl

-- The serial number of a device, which its attributes hold, is never handed on.
serial_withheld :
    (t : Text) (device : Members) (c : Component)
    → has_field "serial" (take_readings t device c) ≡ false
serial_withheld t device c = elim (Bool-cases (has_field "serial" (take_readings t device c))) [
  | inl h ↦ cc (take_readings_listed t "serial" device c h, serial_unlisted c)
  | inr h ↦ h
]
