-- ===== src/Events/Tracker/Queue.antt =====
-- The list of pending entries of inverter_events.py: at most one for each id, in the order of
-- their start.
pub mod Laws
use Prim.Native.String.{String}
use text.Mathlib.Text.{◌==◌}
use text.Mathlib.TextEquality.{eq_iff}
use fronius_modbus.Common.{
  ◌≡◌, ◌≤◌, refl, Bool, true, false, not, ◌||◌, ◌&&◌, Option, none, some, List, [], ◌∷◌, ◌++◌,
  if◌then◌else◌, ℤ, leb_ℤ, ◌≤ℤ◌, arith, Bool-cases,
}
use fronius_modbus.Events.Parse.{InverterEvent}

-- Whether an entry of this id is in the list.
unfoldable pub uuid_in : String → List InverterEvent → Bool
uuid_in u [] = false
uuid_in u (e ∷ es) = e.uuid == u || uuid_in u es

unfoldable pub keep : (InverterEvent → Bool) → List InverterEvent → List InverterEvent
keep p [] = []
keep p (e ∷ es) = let rest = keep p es in if p e then e ∷ rest else rest

-- One step of `{event.uuid: event for event in ...}`: a known key keeps its place.
unfoldable pub put : InverterEvent → List InverterEvent → List InverterEvent
put e [] = e ∷ []
put e (x ∷ xs) = if x.uuid == e.uuid then e ∷ xs else x ∷ put e xs

unfoldable pub put_all : List InverterEvent → List InverterEvent → List InverterEvent
put_all found [] = found
put_all found (e ∷ es) = put_all (put e found) es

-- The values of `{event.uuid: event for event in events}`.
unfoldable pub by_uuid : List InverterEvent → List InverterEvent
by_uuid events = put_all [] events

-- `sorted(..., key=lambda event: event.started)`, stable: an entry goes behind its equals.
unfoldable pub insert : InverterEvent → List InverterEvent → List InverterEvent
insert e [] = e ∷ []
insert e (x ∷ xs) = if leb_ℤ x.started e.started then x ∷ insert e xs else e ∷ x ∷ xs

unfoldable pub insert_all : List InverterEvent → List InverterEvent → List InverterEvent
insert_all found [] = found
insert_all found (e ∷ es) = insert_all (insert e found) es

unfoldable pub sorted : List InverterEvent → List InverterEvent
sorted events = insert_all [] events

abbrev pub Unique : List InverterEvent → Type 0
Unique [] = Unit
Unique (e ∷ es) = (uuid_in e.uuid es ≡ false) × Unique es

abbrev pub SortedFrom : ℤ → List InverterEvent → Type 0
SortedFrom lo [] = Unit
SortedFrom lo (e ∷ es) = (lo ≤ℤ e.started) × SortedFrom e.started es

abbrev pub Sorted : List InverterEvent → Type 0
Sorted [] = Unit
Sorted (e ∷ es) = SortedFrom e.started es
