-- ===== src/Events/Tracker.antt =====
-- `EventTracker` of inverter_events.py: which log entries are new, held until a poll publishes
-- them. A set of ids is a list; a dict by id keeps the place of a key that it has.
pub mod Queue
pub mod Laws
use Prim.Native.String.{String}
use text.Mathlib.Text.{◌==◌}
use fronius_modbus.Common.{
  Bool, true, false, not, ◌||◌, Option, none, some, List, [], ◌∷◌, ◌++◌, map, if◌then◌else◌, ℤ,
  Float,
}
use fronius_modbus.Events.Parse.{InverterEvent}
use fronius_modbus.Events.Tracker.Queue.{by_uuid, sorted, uuid_in, keep}

-- `uuid in seen`
unfoldable pub seen_in : String → List String → Bool
seen_in u [] = false
seen_in u (k ∷ ks) = k == u || seen_in u ks

pub record EventTracker : Type 0 where
  pub seen : Option (List String)
  pub unread_since : Option Float
  pub pending : List InverterEvent
  pub readable : Bool

-- `__init__`
unfoldable pub new_tracker : EventTracker
new_tracker = record { seen = none; unread_since = none; pending = []; readable = false }

unfoldable pub missed : Float → EventTracker → EventTracker
missed now t = elim t.seen [
  | some _ ↦ t
  | none ↦ elim t.unread_since [ some _ ↦ t | none ↦ record t { unread_since = some now } ]
]

-- `at_or_after` is Python's `event.started >= self._unread_since`, of an int and a float.
module _ (at_or_after : ℤ → Float → Bool) where
  -- `_is_new`
  unfoldable pub is_new : Option Float → Option (List String) → InverterEvent → Bool
  is_new unread (some seen) e = not (seen_in e.uuid seen)
  is_new none none e = false
  is_new (some since) none e = at_or_after e.started since

  -- `[event for event in log if self._is_new(event, seen)]`
  unfoldable pub fresh_in : EventTracker → List InverterEvent → List InverterEvent
  fresh_in t log = keep (is_new t.unread_since t.seen) log

  unfoldable pub read : Option (List InverterEvent) → Float → EventTracker → EventTracker
  read none now t = missed now (record t { readable = false })
  read (some log) now t = record t {
    seen = some (map (λ e. e.uuid) log);
    pending = sorted (by_uuid (t.pending ++ fresh_in t log));
    readable = true;
  }

-- The property `batch`.
unfoldable pub batch : EventTracker → List InverterEvent
batch t = if t.readable then t.pending else []

unfoldable pub delivered : List InverterEvent → EventTracker → EventTracker
delivered published t = record t { pending = keep (λ e. not (uuid_in e.uuid published)) t.pending }
