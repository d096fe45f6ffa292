-- ===== src/Events/Tracker/Laws.antt =====
-- What `EventTracker` of inverter_events.py promises: no new entry is lost before it is published,
-- none is published twice, and the ones that wait stand in order.
use Prim.Native.String.{String}
use fronius_modbus.Common.{
  ◌≡◌, ◌∙◌, refl, Bool, true, false, not, ◌||◌, ◌&&◌, Option, none, some, List, [], ◌∷◌, ◌++◌, map,
  ℤ, Float, arith,
}
use fronius_modbus.Events.Parse.{InverterEvent}
use fronius_modbus.Events.Tracker.{
  EventTracker, seen_in, is_new, fresh_in, missed, read, delivered, new_tracker,
}
use fronius_modbus.Events.Tracker.Queue.{uuid_in, keep, by_uuid, Unique, Sorted}
use fronius_modbus.Events.Tracker.Queue.Laws.{
  uuid_in-queue, queue-Sorted, queue-Unique, uuid_in-append, uuid_in-keep, keep-Sorted, keep-Unique,
}

-- The pending entries stand in the order of their start, and each id once.
pub record IsOrdered (t : EventTracker) : Type 0 where
  pub in_order : Sorted t.pending
  pub once : Unique t.pending

-- A poll of the tracker: the log that answered, or None, at a time; or a publication.
pub data Event : Type 0 where
  reads : Option (List InverterEvent) → Float → Event
  fails : Float → Event
  publishes : List InverterEvent → Event

module _ (at_or_after : ℤ → Float → Bool) where
  unfoldable pub after : Event → EventTracker → EventTracker
  after (reads log now) t = read at_or_after log now t
  after (fails now) t = missed now t
  after (publishes es) t = delivered es t

  pub missed-pending : (now : Float) (t : EventTracker) → (missed now t).pending ≡ t.pending
  unfolding missed
  missed-pending now t = ground arith

  -- Reads, failed polls and publications keep the pending entries in order, each id once.
  pub after-IsOrdered : (e : Event) (t : EventTracker) → IsOrdered t → IsOrdered (after e t)
  unfolding after read delivered
  after-IsOrdered (reads none now) t h =
      ground (arith, missed-pending now (record t { readable = false }))
  after-IsOrdered (reads (some log) now) t h = record {
    in_order = queue-Sorted (by_uuid (t.pending ++ fresh_in at_or_after t log));
    once = queue-Unique (t.pending ++ fresh_in at_or_after t log);
  }
  after-IsOrdered (fails now) t h = ground (arith, missed-pending now t)
  after-IsOrdered (publishes es) t h = record {
    in_order = keep-Sorted (λ e. not (uuid_in e.uuid es)) t.pending h.in_order;
    once = keep-Unique (λ e. not (uuid_in e.uuid es)) t.pending h.once;
  }

  -- After a read an id is pending exactly when it was, or when the log has a new entry of it.
  pub pending-read :
      (u : String) (log : List InverterEvent) (now : Float) (t : EventTracker)
      → uuid_in u (read at_or_after (some log) now t).pending
        ≡ (uuid_in u t.pending || uuid_in u (fresh_in at_or_after t log))
  unfolding read
  pending-read u log now t =
      uuid_in-queue u (t.pending ++ fresh_in at_or_after t log)
      ∙ uuid_in-append u t.pending (fresh_in at_or_after t log)

  -- After a publication an id is pending exactly when it was and is not among those published.
  pub pending-delivered :
      (u : String) (es : List InverterEvent) (t : EventTracker)
      → uuid_in u (delivered es t).pending ≡ (uuid_in u t.pending && not (uuid_in u es))
  unfolding delivered
  pending-delivered u es t = uuid_in-keep u (λ k. not (uuid_in k es)) t.pending

  seen_in-map :
      (u : String) (log : List InverterEvent) → seen_in u (map (λ e. e.uuid) log) ≡ uuid_in u log
  unfolding seen_in uuid_in
  seen_in-map u [] = refl
  seen_in-map u (e ∷ log) = ground (arith, seen_in-map u log)

  kept_none : (u : String) (log : List InverterEvent) → uuid_in u (keep (λ e. false) log) ≡ false
  unfolding keep uuid_in
  kept_none u [] = refl
  kept_none u (e ∷ log) = kept_none u log

  -- Once a log is read, an entry of a later one is new exactly when its id was not in the first.
  pub fresh-read :
      (u : String) (log log' : List InverterEvent) (now : Float) (t : EventTracker)
      → uuid_in u (fresh_in at_or_after (read at_or_after (some log) now t) log')
        ≡ (uuid_in u log' && not (uuid_in u log))
  unfolding fresh_in read is_new
  fresh-read u log log' now t =
      uuid_in-keep u (λ k. not (seen_in k (map (λ e. e.uuid) log))) log'
      ∙ ground (arith, seen_in-map u log)

  fresh-delivered :
      (es log : List InverterEvent) (t : EventTracker)
      → fresh_in at_or_after (delivered es t) log ≡ fresh_in at_or_after t log
  unfolding fresh_in delivered
  fresh-delivered es log t = refl

  -- An entry that was read and published does not come back with the next log, whatever it lists.
  pub published_once :
      (u : String) (log es log' : List InverterEvent) (now now' : Float) (t : EventTracker)
      → uuid_in u log ≡ true
      → uuid_in u es ≡ true
      → uuid_in u
          (read at_or_after
            (some log')
            now'
            (delivered es (read at_or_after (some log) now t))).pending
        ≡ false
  published_once u log es log' now now' t h k =
      let t' = read at_or_after (some log) now t in
      ground (
        arith,
        pending-read u log' now' (delivered es t'),
        pending-delivered u es t',
        fresh-delivered es log' t',
        fresh-read u log log' now t,
      )

  -- The first read of a log, with no failed poll before it, makes nothing new of what it lists.
  pub first_read_is_history :
      (u : String) (log : List InverterEvent) (now : Float)
      → uuid_in u (read at_or_after (some log) now new_tracker).pending ≡ false
  unfolding new_tracker
  first_read_is_history u log now =
      pending-read u log now new_tracker ∙ (unfold fresh_in is_new uuid_in in kept_none u log)
