-- ===== src/Events/Tracker/Queue/Laws.antt =====
-- The pending list of inverter_events.py loses no id, keeps each once, and stays in order.
use Prim.Native.String.{String}
use text.Mathlib.Text.{◌==◌}
use text.Mathlib.TextEquality.{eq_iff}
use fronius_modbus.Common.{◌≡◌, refl, Bool, false, ◌||◌, ◌&&◌, List, [], ◌∷◌, ◌++◌, ℤ, ◌≤ℤ◌, arith}
use fronius_modbus.Events.Tracker.Queue.{
  uuid_in, keep, put, put_all, by_uuid, insert, insert_all, sorted, Unique, SortedFrom, Sorted,
}
use fronius_modbus.Events.Parse.{InverterEvent}

uuid_in-put :
    (u : String) (e : InverterEvent) (es : List InverterEvent)
    → uuid_in u (put e es) ≡ (e.uuid == u || uuid_in u es)
unfolding uuid_in put
uuid_in-put u e [] = refl
uuid_in-put u e (x ∷ xs) =
    ground (arith, uuid_in-put u e xs, eq_iff x.uuid e.uuid, eq_iff x.uuid u, eq_iff e.uuid u)

uuid_in-put_all :
    (u : String) (found es : List InverterEvent)
    → uuid_in u (put_all found es) ≡ (uuid_in u found || uuid_in u es)
unfolding uuid_in put_all
uuid_in-put_all u found [] = ground arith
uuid_in-put_all u found (e ∷ es) =
    ground (arith, uuid_in-put_all u (put e found) es, uuid_in-put u e found)

put-Unique : (e : InverterEvent) (es : List InverterEvent) → Unique es → Unique (put e es)
unfolding put uuid_in
put-Unique e [] h = (refl, tt)
put-Unique e (x ∷ xs) h = ground (
  arith,
  put-Unique e xs h.1,
  uuid_in-put x.uuid e xs,
  eq_iff x.uuid e.uuid,
  eq_iff e.uuid x.uuid,
)

put_all-Unique : (found es : List InverterEvent) → Unique found → Unique (put_all found es)
unfolding put_all
put_all-Unique found [] h = h
put_all-Unique found (e ∷ es) h = put_all-Unique (put e found) es (put-Unique e found h)

uuid_in-insert :
    (u : String) (e : InverterEvent) (es : List InverterEvent)
    → uuid_in u (insert e es) ≡ (e.uuid == u || uuid_in u es)
unfolding uuid_in insert
uuid_in-insert u e [] = refl
uuid_in-insert u e (x ∷ xs) = ground (arith, uuid_in-insert u e xs)

uuid_in-insert_all :
    (u : String) (found es : List InverterEvent)
    → uuid_in u (insert_all found es) ≡ (uuid_in u found || uuid_in u es)
unfolding uuid_in insert_all
uuid_in-insert_all u found [] = ground arith
uuid_in-insert_all u found (e ∷ es) =
    ground (arith, uuid_in-insert_all u (insert e found) es, uuid_in-insert u e found)

insert-Unique :
    (e : InverterEvent) (es : List InverterEvent)
    → uuid_in e.uuid es ≡ false
    → Unique es
    → Unique (insert e es)
unfolding insert uuid_in
insert-Unique e [] p h = (refl, tt)
insert-Unique e (x ∷ xs) p h = ground (
  arith,
  insert-Unique e xs,
  uuid_in-insert x.uuid e xs,
  eq_iff x.uuid e.uuid,
  eq_iff e.uuid x.uuid,
)

insert-SortedFrom :
    (lo : ℤ) (e : InverterEvent) (es : List InverterEvent)
    → lo ≤ℤ e.started
    → SortedFrom lo es
    → SortedFrom lo (insert e es)
unfolding insert
insert-SortedFrom lo e [] p h = (p, tt)
insert-SortedFrom lo e (x ∷ xs) p h = ground (arith, insert-SortedFrom x.started e xs)

insert-Sorted : (e : InverterEvent) (es : List InverterEvent) → Sorted es → Sorted (insert e es)
unfolding insert
insert-Sorted e [] h = tt
insert-Sorted e (x ∷ xs) h = ground (arith, insert-SortedFrom x.started e xs)

insert_all-Sorted : (found es : List InverterEvent) → Sorted found → Sorted (insert_all found es)
unfolding insert_all
insert_all-Sorted found [] h = h
insert_all-Sorted found (e ∷ es) h = insert_all-Sorted (insert e found) es (insert-Sorted e found h)

-- No entry of `es` has an id of `found`.
abbrev Apart : List InverterEvent → List InverterEvent → Type 0
Apart found [] = Unit
Apart found (e ∷ es) = (uuid_in e.uuid found ≡ false) × Apart found es

Apart-insert :
    (e : InverterEvent) (found es : List InverterEvent)
    → uuid_in e.uuid es ≡ false
    → Apart found es
    → Apart (insert e found) es
unfolding uuid_in
Apart-insert e found [] p h = tt
Apart-insert e found (x ∷ xs) p h = ground (
  arith,
  Apart-insert e found xs,
  uuid_in-insert x.uuid e found,
  eq_iff x.uuid e.uuid,
  eq_iff e.uuid x.uuid,
)

insert_all-Unique :
    (found es : List InverterEvent)
    → Unique found
    → Unique es
    → Apart found es
    → Unique (insert_all found es)
unfolding insert_all
insert_all-Unique found [] h k a = h
insert_all-Unique found (e ∷ es) h k a =
    insert_all-Unique (insert e found) es (insert-Unique e found a.0 h) k.1
      (Apart-insert e found es k.0 a.1)

Apart-nil : (es : List InverterEvent) → Apart [] es
unfolding uuid_in
Apart-nil [] = tt
Apart-nil (e ∷ es) = (refl, Apart-nil es)

-- The queue that a read leaves: sorted, one entry for each id, and no id lost or made up.
pub uuid_in-queue :
    (u : String) (es : List InverterEvent) → uuid_in u (sorted (by_uuid es)) ≡ uuid_in u es
unfolding sorted by_uuid uuid_in
uuid_in-queue u es =
    ground (arith, uuid_in-insert_all u [] (put_all [] es), uuid_in-put_all u [] es)

pub queue-Sorted : (es : List InverterEvent) → Sorted (sorted es)
unfolding sorted
queue-Sorted es = insert_all-Sorted [] es tt

pub queue-Unique : (es : List InverterEvent) → Unique (sorted (by_uuid es))
unfolding sorted by_uuid
queue-Unique es =
    insert_all-Unique [] (put_all [] es) tt (put_all-Unique [] es tt) (Apart-nil (put_all [] es))

pub uuid_in-append :
    (u : String) (xs ys : List InverterEvent)
    → uuid_in u (xs ++ ys) ≡ (uuid_in u xs || uuid_in u ys)
unfolding uuid_in
uuid_in-append u [] ys = refl
uuid_in-append u (x ∷ xs) ys = ground (arith, uuid_in-append u xs ys)

-- What is kept by a test on ids.
pub uuid_in-keep :
    (u : String) (f : String → Bool) (es : List InverterEvent)
    → uuid_in u (keep (λ e. f e.uuid) es) ≡ (uuid_in u es && f u)
unfolding uuid_in keep
uuid_in-keep u f [] = refl
uuid_in-keep u f (e ∷ es) = ground (arith, uuid_in-keep u f es, eq_iff e.uuid u)

SortedFrom-lower :
    (lo hi : ℤ) (es : List InverterEvent) → lo ≤ℤ hi → SortedFrom hi es → SortedFrom lo es
SortedFrom-lower lo hi [] p h = tt
SortedFrom-lower lo hi (e ∷ es) p h = (omega arith, h.1)

keep-SortedFrom :
    (p : InverterEvent → Bool) (lo : ℤ) (es : List InverterEvent)
    → SortedFrom lo es
    → SortedFrom lo (keep p es)
unfolding keep
keep-SortedFrom p lo [] h = tt
keep-SortedFrom p lo (e ∷ es) h =
    ground (arith, keep-SortedFrom p e.started es, SortedFrom-lower lo e.started (keep p es))

SortedFrom-Sorted : (lo : ℤ) (es : List InverterEvent) → SortedFrom lo es → Sorted es
SortedFrom-Sorted lo [] h = tt
SortedFrom-Sorted lo (e ∷ es) h = h.1

pub keep-Sorted :
    (p : InverterEvent → Bool) (es : List InverterEvent) → Sorted es → Sorted (keep p es)
unfolding keep
keep-Sorted p [] h = tt
keep-Sorted p (e ∷ es) h =
    ground (arith, keep-SortedFrom p e.started es h, SortedFrom-Sorted e.started (keep p es))

-- What a test leaves has no id that was not there.
keep-absent :
    (p : InverterEvent → Bool) (u : String) (es : List InverterEvent)
    → uuid_in u es ≡ false
    → uuid_in u (keep p es) ≡ false
unfolding uuid_in keep
keep-absent p u [] h = refl
keep-absent p u (e ∷ es) h = ground (arith, keep-absent p u es)

pub keep-Unique :
    (p : InverterEvent → Bool) (es : List InverterEvent) → Unique es → Unique (keep p es)
unfolding keep
keep-Unique p [] h = tt
keep-Unique p (e ∷ es) h = ground (arith, keep-Unique p es h.1, keep-absent p e.uuid es h.0)
