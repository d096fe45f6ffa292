-- ===== src/MeterTopology.antt =====
-- Which meters the inverter's web API reports: meter_topology.py. A unit id is an int, of either
-- sign, and a location one too.
mod Tests
use fronius_modbus.Common.{
  ℕ, ◌+◌, ◌≤◌, ◌≡◌, ◌≢◌, refl, Bool, true, false, not, ◌&&◌, ◌||◌, Option, none, some, List, [],
  ◌∷◌, ◌==◌, if◌then◌else◌, ℤ, pos, eqb_ℤ, eqb_ℤ_iff, ltb_ℤ, leb_ℤ, ◌≤ℤ◌, length, arith, All,
  Bool-cases, inl, inr, ◌∙◌,
}

-- DEFAULT_METER_UNIT_ID of const.py
abbrev pub default_meter_unit_id : ℤ
default_meter_unit_id = pos 200

abbrev pub maximum_unit_id : ℤ
maximum_unit_id = pos 247

-- What the web client read; a key that is missing is none, or empty.
pub record Info : Type 0 where
  pub unit_ids : List ℤ
  pub primary_unit_id : Option ℤ
  pub locations_by_unit_id : List (ℤ × ℤ)
  pub incomplete : Bool

pub record MeterTopology : Type 0 where
  pub unit_ids : List ℤ
  pub primary_unit_id : ℤ
  pub locations : List (ℤ × ℤ)
  pub confirmed : Bool

abbrev pub default_topology : MeterTopology
default_topology = record {
  unit_ids = default_meter_unit_id ∷ [];
  primary_unit_id = default_meter_unit_id;
  locations = [];
  confirmed = false;
}

-- `0 < unit <= MAXIMUM_UNIT_ID`
abbrev pub is_unit : ℤ → Bool
is_unit u = ltb_ℤ (pos 0) u && leb_ℤ u maximum_unit_id

unfoldable pub supported : List ℤ → List ℤ
supported [] = []
supported (u ∷ us) = let rest = supported us in if is_unit u then u ∷ rest else rest

-- `unit in unit_ids`
unfoldable pub has_unit : ℤ → List ℤ → Bool
has_unit u [] = false
has_unit u (v ∷ vs) = eqb_ℤ u v || has_unit u vs

-- `info.get("primary_unit_id") or unit_ids[0]`
abbrev pub primary_or : Option ℤ → ℤ → ℤ
primary_or none first = first
primary_or (some p) first = if eqb_ℤ p (pos 0) then first else p

unfoldable pub known_locations : List ℤ → List (ℤ × ℤ) → List (ℤ × ℤ)
known_locations us [] = []
known_locations us ((u, place) ∷ ls) =
    let rest = known_locations us ls in if has_unit u us then (u, place) ∷ rest else rest

-- `parse_meter_topology` once the supported units are known.
unfoldable pub topology_of : Info → List ℤ → MeterTopology
topology_of info [] = default_topology
topology_of info (first ∷ rest) =
    let primary = primary_or info.primary_unit_id first in
    if has_unit primary (first ∷ rest)
    then record {
      unit_ids = first ∷ rest;
      primary_unit_id = primary;
      locations = known_locations (first ∷ rest) info.locations_by_unit_id;
      confirmed = length (first ∷ rest) == length info.unit_ids && not info.incomplete;
    }
    else default_topology

unfoldable pub parse_meter_topology : Option Info → MeterTopology
parse_meter_topology none = default_topology
parse_meter_topology (some info) = topology_of info (supported info.unit_ids)

-- A topology that the pollers can use.
pub record IsUsable (t : MeterTopology) : Type 0 where
  pub units : All (λ u. is_unit u ≡ true) t.unit_ids
  pub primary : has_unit t.primary_unit_id t.unit_ids ≡ true
  pub placed : All (λ l. has_unit l.0 t.unit_ids ≡ true) t.locations

default-IsUsable : IsUsable default_topology
unfolding has_unit
default-IsUsable = record { units = (refl, tt); primary = refl; placed = tt }

supported-units : (us : List ℤ) → All (λ u. is_unit u ≡ true) (supported us)
unfolding supported
supported-units [] = tt
supported-units (u ∷ us) = elim (Bool-cases (is_unit u)) [
  | inl h ↦ rw h (h, supported-units us)
  | inr h ↦ rw h (supported-units us)
]

known_locations-placed :
    (us : List ℤ) (ls : List (ℤ × ℤ)) → All (λ l. has_unit l.0 us ≡ true) (known_locations us ls)
unfolding known_locations
known_locations-placed us [] = tt
known_locations-placed us ((u, place) ∷ ls) = elim (Bool-cases (has_unit u us)) [
  | inl h ↦ rw h (h, known_locations-placed us ls)
  | inr h ↦ rw h (known_locations-placed us ls)
]

topology_of-IsUsable :
    (info : Info) (us : List ℤ) → All (λ u. is_unit u ≡ true) us → IsUsable (topology_of info us)
unfolding topology_of
topology_of-IsUsable info [] h = default-IsUsable
topology_of-IsUsable info (first ∷ rest) h =
    elim (Bool-cases (has_unit (primary_or info.primary_unit_id first) (first ∷ rest))) [
      | inl p ↦ rw p (record {
        units = h;
        primary = p;
        placed = known_locations-placed (first ∷ rest) info.locations_by_unit_id;
      })
      | inr p ↦ rw p default-IsUsable
    ]

-- Whatever the web API answers, the meters to poll are units that Modbus serves, the primary one
-- is among them, and so is every unit that has a location.
pub parse_meter_topology-IsUsable : (info : Option Info) → IsUsable (parse_meter_topology info)
unfolding parse_meter_topology
parse_meter_topology-IsUsable none = default-IsUsable
parse_meter_topology-IsUsable (some info) =
    topology_of-IsUsable info (supported info.unit_ids) (supported-units info.unit_ids)

supported-shorter : (us : List ℤ) → length (supported us) ≤ length us
unfolding supported
supported-shorter [] = omega arith
supported-shorter (u ∷ us) = ground (arith, supported-shorter us)

all_supported : (us : List ℤ) → length (supported us) ≡ length us → supported us ≡ us
unfolding supported
all_supported [] h = refl
all_supported (u ∷ us) h = ground (arith, supported-shorter us, all_supported us)

topology_of-confirmed :
    (info : Info) (us : List ℤ)
    → (topology_of info us).confirmed ≡ true
    → ((topology_of info us).unit_ids ≡ us)
      × (length us ≡ length info.unit_ids)
      × (info.incomplete ≡ false)
unfolding topology_of
topology_of-confirmed info [] h = cc h
topology_of-confirmed info (first ∷ rest) h =
    elim (Bool-cases (has_unit (primary_or info.primary_unit_id first) (first ∷ rest))) [
      | inl p ↦ ground arith
      | inr p ↦ ground arith
    ]

-- A topology that may retire entities leaves out no meter of the answer: its units are the ones
-- reported, all of them, and the web client did not mark the answer as incomplete.
pub confirmed_is_whole :
    (info : Info)
    → (parse_meter_topology (some info)).confirmed ≡ true
    → ((parse_meter_topology (some info)).unit_ids ≡ info.unit_ids) × (info.incomplete ≡ false)
unfolding parse_meter_topology
confirmed_is_whole info h =
    let (e, n, c) = topology_of-confirmed info (supported info.unit_ids) h in
    (e ∙ all_supported info.unit_ids n, c)
