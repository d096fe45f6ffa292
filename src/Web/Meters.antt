-- ===== src/Web/Meters.antt =====
-- The meters that the inverter's web interface names: `_parse_power_meter_info` of
-- froniuswebclient.py, and `async_meter_topology` on it.
pub mod Laws
use Prim.Native.String.{String}
use text.Mathlib.Text.{◌==◌, find?}
use fronius_modbus.Common.{
  Bool, true, false, not, ◌&&◌, ◌||◌, Option, none, some, List, [], ◌∷◌, ◌++◌, ℤ, pos, negsuc,
  neg_ℤ, ltb_ℤ, leb_ℤ, eqb_ℤ, sub_ℕ, pos_part, neg_part, ◌+◌, if◌then◌else◌,
}
use fronius_modbus.Json.{
  Json, null, bool, int, str, arr, obj, Members, end, member, get, find, as_object,
}
use fronius_modbus.MeterTopology.{Info, has_unit}
use fronius_modbus.Web.Text.{Text}
use fronius_modbus.Web.Flags.{or_fallback, eqb}
use fronius_modbus.Web.Configs.{body_data, or_else}

-- A meter of the answer, as the comprehension of the source builds it.
pub record Meter : Type 0 where
  pub unit_id : ℤ
  pub rtu_addr : ℤ
  pub is_primary : Bool
  pub location : ℤ

-- What a node of the answer is: no meter, a meter with no address, or a meter.
pub data Node : Type 0 where
  other : Node
  unplaced : Node
  placed : Meter → Node

abbrev or_none : String → Option String
or_none s = if s == "" then none else some s

-- `part in text`
abbrev has_part : String → String → Bool
has_part part s = elim (find? s part) [ none ↦ false | some i ↦ true ]

module _ (t : Text) where
  -- `_clean_text`
  unfoldable pub clean_text : Json → Option String
  clean_text null = none
  clean_text (str s) = or_none (t.strip s)
  clean_text v = or_none (t.strip (t.to_str v))

  -- `_is_power_meter_model`
  unfoldable pub is_power_meter_model : Option String → Bool
  is_power_meter_model none = false
  is_power_meter_model (some model) =
      let m = t.lower model in has_part "meter" m || has_part "wattnode" m || has_part "42,0411" m

  abbrev text_of : Json → String
  text_of (str s) = s
  text_of v = t.to_str v

  abbrev if_positive : Option ℤ → Option ℤ
  if_positive none = none
  if_positive (some n) = if ltb_ℤ (pos 0) n then some n else none

  -- `_rtu_address`
  unfoldable pub rtu_address : Members → Option ℤ
  rtu_address attributes =
      if_positive (t.int_of_text (t.strip (text_of (or_else (find "addr" attributes) (str "")))))

  -- `a + b - 1`
  abbrev unit_at : ℤ → ℤ → ℤ
  unit_at a b = sub_ℕ (pos_part a + pos_part b) (neg_part a + neg_part b + 1)

  -- `location == "0"`, `_as_int(location, -1)` and `(label or "").lower() == "<primary>"`
  abbrev is_zero : Option String → Bool
  is_zero none = false
  is_zero (some s) = s == "0"

  abbrev place_of : Option String → ℤ
  place_of none = negsuc 0
  place_of (some s) = or_fallback (t.int_of_text s) (negsuc 0)

  abbrev says_primary : Option String → Bool
  says_primary none = t.lower "" == "<primary>"
  says_primary (some s) = t.lower s == "<primary>"

  abbrev meter_at : ℤ → Members → Option ℤ → Node
  meter_at offset attributes none = unplaced
  meter_at offset attributes (some rtu) =
      let location = clean_text (get "meter-location" attributes) in
      placed (record {
        unit_id = unit_at offset rtu;
        rtu_addr = rtu;
        is_primary = says_primary (clean_text (get "label" attributes)) || is_zero location;
        location = place_of location;
      })

  abbrev node_of : ℤ → Option Members → Node
  node_of offset none = other
  node_of offset (some attributes) =
      if is_power_meter_model (clean_text (get "model" attributes))
      then meter_at offset attributes (rtu_address attributes)
      else other

  -- One round of the loop over the nodes.
  unfoldable pub read_node : ℤ → Json → Node
  unfolding clean_text is_power_meter_model rtu_address
  read_node offset (obj node) = node_of offset (as_object (get "attributes" node))
  read_node offset _ = other

  unfoldable pub meters_in : ℤ → Members → List Meter
  meters_in offset end = []
  meters_in offset (member k node rest) =
      let others = meters_in offset rest in
      elim (read_node offset node) [ other ↦ others | unplaced ↦ others | placed m ↦ m ∷ others ]

  -- `result["incomplete"]`
  unfoldable pub some_unplaced : ℤ → Members → Bool
  some_unplaced offset end = false
  some_unplaced offset (member k node rest) =
      let others = some_unplaced offset rest in
      elim (read_node offset node) [ other ↦ others | unplaced ↦ true | placed m ↦ others ]

-- The order of the keys `(not is_primary, rtu_addr, unit_id)`.
unfoldable pub no_later : Meter → Meter → Bool
no_later a b =
    if not (eqb a.is_primary b.is_primary)
    then a.is_primary
    else if not (eqb_ℤ a.rtu_addr b.rtu_addr)
    then ltb_ℤ a.rtu_addr b.rtu_addr
    else leb_ℤ a.unit_id b.unit_id

-- `meters.sort(key=...)`, stable: a meter goes behind its equals.
unfoldable pub insert : Meter → List Meter → List Meter
insert m [] = m ∷ []
insert m (x ∷ xs) = let rest = insert m xs in if no_later x m then x ∷ rest else m ∷ x ∷ xs

unfoldable pub sorted_into : List Meter → List Meter → List Meter
sorted_into found [] = found
sorted_into found (m ∷ ms) = sorted_into (insert m found) ms

-- One round of the loop over the sorted meters; `primary_if` and `places_with` are its two tests.
abbrev pub primary_if : Bool → ℤ → Option ℤ → Option ℤ
primary_if is_primary unit (some p) = some p
primary_if is_primary unit none = if is_primary then some unit else none

abbrev places_with : ℤ → ℤ → List (ℤ × ℤ) → List (ℤ × ℤ)
places_with unit location places =
    if leb_ℤ (pos 0) location then places ++ (unit, location) ∷ [] else places

unfoldable pub take_meter : Meter → Info → Info
take_meter m info = if has_unit m.unit_id info.unit_ids then info else record info {
  unit_ids = info.unit_ids ++ m.unit_id ∷ [];
  primary_unit_id = primary_if m.is_primary m.unit_id info.primary_unit_id;
  locations_by_unit_id = places_with m.unit_id m.location info.locations_by_unit_id;
}

unfoldable pub take_meters : List Meter → Info → Info
take_meters [] info = info
take_meters (m ∷ ms) info = take_meters ms (take_meter m info)

abbrev pub first_of : List ℤ → Option ℤ
first_of [] = none
first_of (u ∷ us) = some u

abbrev pub or_first : Option ℤ → List ℤ → Option ℤ
or_first (some p) us = some p
or_first none us = first_of us

-- The end of `_parse_power_meter_info`.
unfoldable pub with_primary : Info → Info
with_primary info = record info { primary_unit_id = or_first info.primary_unit_id info.unit_ids }

unfoldable pub info_of : Bool → List Meter → Info
info_of incomplete ms = with_primary (
    take_meters (sorted_into [] ms) (record {
      unit_ids = [];
      primary_unit_id = none;
      locations_by_unit_id = [];
      incomplete = incomplete;
    }))

module _ (t : Text) where
  abbrev pub info_in : ℤ → Option Members → Option Info
  info_in offset none = none
  info_in offset (some nodes) =
      some (info_of (some_unplaced t offset nodes) (meters_in t offset nodes))

  abbrev pub or_nested : Option Members → Option Members → Option Members
  or_nested (some nodes) others = some nodes
  or_nested none others = others

  -- `_parse_power_meter_info`
  unfoldable pub parse_power_meter_info : ℤ → Json → Option Info
  parse_power_meter_info offset payload = info_in offset (
      or_nested (body_data payload ("Body" ∷ "Data" ∷ []))
        (body_data payload ("meter" ∷ "Body" ∷ "Data" ∷ [])))
