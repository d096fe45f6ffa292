-- ===== src/Events/Tests.antt =====
-- The tracker of inverter_events.py on concrete logs.
use Prim.Native.String.{String}
use fronius_modbus.Common.{
  ◌≡◌, refl, Bool, false, none, some, [], ◌∷◌, ℤ, Float, pos, leb_ℤ, All, Has,
}
use fronius_modbus.Events.Parse.{InverterEvent, Severity, error, warning}
use fronius_modbus.Events.Leading.{leading_event, ranks_before, Leads, leading_event-Leads}
use fronius_modbus.Events.Tracker.{EventTracker, read, delivered, new_tracker}
use fronius_modbus.Events.Tracker.Queue.{uuid_in}
use fronius_modbus.Events.Tracker.Laws.{
  IsOrdered, reads, after, after-IsOrdered, published_once, first_read_is_history,
}

-- An int against a float that stands for itself.
abbrev at_or_after : ℤ → Float → Bool
at_or_after started since = leb_ℤ since started

abbrev entry : String → Severity → ℤ → InverterEvent
entry uuid severity started = record {
  uuid = uuid;
  code = "1006";
  label = "Arc detected";
  text_shown = "";
  severity = some severity;
  visible_to = none;
  started = started;
  ended = none;
  confirmable = false;
}

abbrev first : InverterEvent
first = entry "a" warning (pos 20)

abbrev second : InverterEvent
second = entry "b" error (pos 10)

leading_event-Leads_example :
    Has second (first ∷ second ∷ []) × All (Leads second) (first ∷ second ∷ [])
unfolding leading_event ranks_before
leading_event-Leads_example = leading_event-Leads (first ∷ second ∷ []) second refl

-- A tracker that failed to read until the log came back at 5.
abbrev late : EventTracker
late = record { seen = none; unread_since = some (pos 5); pending = []; readable = false }

after-IsOrdered_example :
    IsOrdered (after at_or_after (reads (some (first ∷ second ∷ first ∷ [])) (pos 30)) late)
after-IsOrdered_example =
    after-IsOrdered at_or_after (reads (some (first ∷ second ∷ first ∷ [])) (pos 30)) late
      (record { in_order = tt; once = tt })

published_once_example :
    uuid_in "a"
      (read at_or_after
        (some (first ∷ second ∷ []))
        (pos 40)
        (delivered (first ∷ []) (read at_or_after (some (first ∷ [])) (pos 30) late))).pending
    ≡ false
unfolding uuid_in
published_once_example =
    published_once at_or_after "a" (first ∷ []) (first ∷ []) (first ∷ second ∷ []) (pos 30) (pos 40)
      late refl refl

first_read_is_history_example :
    uuid_in "a" (read at_or_after (some (first ∷ second ∷ [])) (pos 30) new_tracker).pending ≡ false
first_read_is_history_example = first_read_is_history at_or_after "a" (first ∷ second ∷ []) (pos 30)
