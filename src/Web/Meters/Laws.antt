-- ===== src/Web/Meters/Laws.antt =====
-- What `_parse_power_meter_info` of froniuswebclient.py promises of the meters.
use mathlib.Core.Path.{subst}
use fronius_modbus.Common.{
  ◌≡◌, refl, sym, ap, ◌∙◌, ◌⊎◌, inl, inr, Bool, true, false, ◌||◌, Option, none, some, List, [],
  ◌∷◌, ◌++◌, ℤ, eqb_ℤ, eqb_ℤ_iff, arith, Bool-cases, All,
}
use fronius_modbus.Json.{Json, Members}
use fronius_modbus.MeterTopology.{Info, has_unit}
use fronius_modbus.Web.Text.{Text}
use fronius_modbus.Web.Meters.{
  Meter, no_later, insert, sorted_into, primary_if, take_meter, take_meters, first_of, or_first,
  with_primary, info_of, info_in, meters_in, parse_power_meter_info,
}

-- The primary meters stand in front: a list that starts with another meter has none.
abbrev NonePrimary : List Meter → Type 0
NonePrimary ms = All (λ m. m.is_primary ≡ false) ms

abbrev PrimaryFirst : List Meter → Type 0
PrimaryFirst [] = Unit
PrimaryFirst (m ∷ ms) = (m.is_primary ≡ true) ⊎ NonePrimary ms

insert-NonePrimary :
    (m : Meter) (ms : List Meter)
    → m.is_primary ≡ false
    → NonePrimary ms
    → NonePrimary (insert m ms)
unfolding insert
insert-NonePrimary m [] h k = (h, tt)
insert-NonePrimary m (x ∷ xs) h k = elim (Bool-cases (no_later x m)) [
  | inl e ↦ rw e (k.0, insert-NonePrimary m xs h k.1)
  | inr e ↦ rw e (h, k)
]

-- A meter that is not primary goes behind no primary one.
secondary_behind : (x m : Meter) → no_later x m ≡ true → x.is_primary ≡ false → m.is_primary ≡ false
unfolding no_later
secondary_behind x m e h = ground (arith, e, h)

primary_before : (x m : Meter) → no_later x m ≡ false → m.is_primary ≡ false → x.is_primary ≡ false
unfolding no_later
primary_before x m e h = ground (arith, e, h)

insert-PrimaryFirst : (m : Meter) (ms : List Meter) → PrimaryFirst ms → PrimaryFirst (insert m ms)
unfolding insert
insert-PrimaryFirst m [] h = inr tt
insert-PrimaryFirst m (x ∷ xs) h = elim (Bool-cases (no_later x m)) [
  | inl e ↦ rw e (behind e h)
  | inr e ↦ rw e (before e (Bool-cases m.is_primary) h)
]
  where
    behind :
        no_later x m ≡ true
        → (x.is_primary ≡ true) ⊎ NonePrimary xs
        → (x.is_primary ≡ true) ⊎ NonePrimary (insert m xs)
    behind e (inl p) = inl p
    behind e (inr k) = elim (Bool-cases x.is_primary) [
      | inl p ↦ inl p
      | inr p ↦ inr (insert-NonePrimary m xs (secondary_behind x m e p) k)
    ]

    before :
        no_later x m ≡ false
        → (m.is_primary ≡ true) ⊎ (m.is_primary ≡ false)
        → (x.is_primary ≡ true) ⊎ NonePrimary xs
        → (m.is_primary ≡ true) ⊎ NonePrimary (x ∷ xs)
    before e (inl p) k = inl p
    before e (inr p) (inl q) = absurd (cc (primary_before x m e p, q))
    before e (inr p) (inr k) = inr (primary_before x m e p, k)

sorted-PrimaryFirst :
    (found ms : List Meter) → PrimaryFirst found → PrimaryFirst (sorted_into found ms)
unfolding sorted_into
sorted-PrimaryFirst found [] h = h
sorted-PrimaryFirst found (m ∷ ms) h =
    sorted-PrimaryFirst (insert m found) ms (insert-PrimaryFirst m found h)

-- Every unit once.
abbrev pub OnceEach : List ℤ → Type 0
OnceEach [] = Unit
OnceEach (u ∷ us) = (has_unit u us ≡ false) × OnceEach us

has_unit-concat : (u v : ℤ) (us : List ℤ) → has_unit u (us ++ v ∷ []) ≡ (has_unit u us || eqb_ℤ u v)
unfolding has_unit
has_unit-concat u v [] = ground arith
has_unit-concat u v (x ∷ us) = ground (arith, has_unit-concat u v us)

OnceEach-concat :
    (us : List ℤ) (v : ℤ) → has_unit v us ≡ false → OnceEach us → OnceEach (us ++ v ∷ [])
unfolding has_unit
OnceEach-concat [] v n o = (refl, tt)
OnceEach-concat (u ∷ us) v n o = (
  ground (arith, has_unit-concat u v us, eqb_ℤ_iff u v, eqb_ℤ_iff v u),
  OnceEach-concat us v (ground (arith, n)) o.1,
)

-- The loop from behind its first round: the first unit stays in front, each unit is there once, and
-- a primary one, if there is any, is the first.
record Collected (first : ℤ) (info : Info) : Type 0 where
  front : first_of info.unit_ids ≡ some first
  once : OnceEach info.unit_ids

module _ (first : ℤ) where
  first_of-concat :
      (us : List ℤ) (v : ℤ) → first_of us ≡ some first → first_of (us ++ v ∷ []) ≡ some first
  first_of-concat [] v h = absurd (cc h)
  first_of-concat (u ∷ us) v h = h

  take_meter-Collected :
      (m : Meter) (info : Info) → Collected first info → Collected first (take_meter m info)
  unfolding take_meter
  take_meter-Collected m info c = elim (Bool-cases (has_unit m.unit_id info.unit_ids)) [
    | inl e ↦ rw e c
    | inr e ↦ rw e (record {
      front = first_of-concat info.unit_ids m.unit_id c.front;
      once = OnceEach-concat info.unit_ids m.unit_id e c.once;
    })
  ]

  take_meters-Collected :
      (ms : List Meter) (info : Info) → Collected first info → Collected first (take_meters ms info)
  unfolding take_meters
  take_meters-Collected [] info c = c
  take_meters-Collected (m ∷ ms) info c =
      take_meters-Collected ms (take_meter m info) (take_meter-Collected m info c)

primary_kept :
    (p : ℤ) (ms : List Meter) (info : Info)
    → info.primary_unit_id ≡ some p
    → (take_meters ms info).primary_unit_id ≡ some p
unfolding take_meters take_meter
primary_kept p [] info h = h
primary_kept p (m ∷ ms) info h = primary_kept p ms (take_meter m info) (one h)
  where
    one : info.primary_unit_id ≡ some p → (take_meter m info).primary_unit_id ≡ some p
    one e = elim (Bool-cases (has_unit m.unit_id info.unit_ids)) [
      | inl a ↦ rw a e
      | inr a ↦ rw a (ap (primary_if m.is_primary m.unit_id) e)
    ]

none_kept :
    (ms : List Meter) (info : Info)
    → NonePrimary ms
    → info.primary_unit_id ≡ none
    → (take_meters ms info).primary_unit_id ≡ none
unfolding take_meters take_meter
none_kept [] info k h = h
none_kept (m ∷ ms) info k h = none_kept ms (take_meter m info) k.1 (one h)
  where
    one : info.primary_unit_id ≡ none → (take_meter m info).primary_unit_id ≡ none
    one e = elim (Bool-cases (has_unit m.unit_id info.unit_ids)) [
      | inl a ↦ rw a e
      | inr a ↦ rw a (ap (primary_if m.is_primary m.unit_id) e ∙ rw k.0)
    ]

-- The units of an answer: each once, and the primary one is the first, if there is any.
record Placed (info : Info) : Type 0 where
  primary : info.primary_unit_id ≡ first_of info.unit_ids
  once : OnceEach info.unit_ids

empty_info : Bool → Info
empty_info incomplete = record {
  unit_ids = [];
  primary_unit_id = none;
  locations_by_unit_id = [];
  incomplete = incomplete;
}

first_taken :
    (m : Meter) (incomplete : Bool)
    → ((take_meter m (empty_info incomplete)).unit_ids ≡ m.unit_id ∷ [])
      × ((take_meter m (empty_info incomplete)).primary_unit_id
          ≡ primary_if m.is_primary m.unit_id none)
unfolding take_meter empty_info has_unit
first_taken m incomplete = (refl, refl)

or_first_of :
    (p : Option ℤ) (first : ℤ) (us : List ℤ)
    → first_of us ≡ some first
    → (p ≡ some first) ⊎ (p ≡ none)
    → or_first p us ≡ first_of us
or_first_of p first us h (inl e) = ap (λ q. or_first q us) e ∙ sym h
or_first_of p first us h (inr e) = ap (λ q. or_first q us) e

taken-Placed :
    (ms : List Meter) (incomplete : Bool)
    → PrimaryFirst ms
    → Placed (with_primary (take_meters ms (empty_info incomplete)))
unfolding with_primary take_meters
taken-Placed [] incomplete h = unfold empty_info in record { primary = refl; once = tt }
taken-Placed (m ∷ ms) incomplete h =
    let one = take_meter m (empty_info incomplete) in
    let (units, primary) = first_taken m incomplete in
    let c = take_meters-Collected m.unit_id ms one (record {
      front = ap first_of units;
      once = subst OnceEach (sym units) (unfold has_unit in (refl, tt));
    }) in
    record {
      primary =
          or_first_of (take_meters ms one).primary_unit_id m.unit_id (take_meters ms one).unit_ids
            c.front (found h (Bool-cases m.is_primary));
      once = c.once;
    }
  where
    found :
        (m.is_primary ≡ true) ⊎ NonePrimary ms
        → (m.is_primary ≡ true) ⊎ (m.is_primary ≡ false)
        → ((take_meters ms (take_meter m (empty_info incomplete))).primary_unit_id ≡ some m.unit_id)
          ⊎ ((take_meters ms (take_meter m (empty_info incomplete))).primary_unit_id ≡ none)
    found k (inl p) = inl (primary_kept m.unit_id ms _ ((first_taken m incomplete).1 ∙ rw p))
    found (inl p) (inr q) = absurd (cc (p, q))
    found (inr k) (inr q) = inr (none_kept ms _ k ((first_taken m incomplete).1 ∙ rw q))

info_of-Placed : (incomplete : Bool) (ms : List Meter) → Placed (info_of incomplete ms)
unfolding info_of
info_of-Placed incomplete ms =
    unfold empty_info in taken-Placed (sorted_into [] ms) incomplete (sorted-PrimaryFirst [] ms tt)

some-info : (a b : Info) → some a ≡ some b → a ≡ b
some-info a b e = cc e

pub parse_power_meter_info-Placed :
    (t : Text) (offset : ℤ) (payload : Json) (info : Info)
    → parse_power_meter_info t offset payload ≡ some info
    → (info.primary_unit_id ≡ first_of info.unit_ids) × OnceEach info.unit_ids
unfolding parse_power_meter_info
parse_power_meter_info-Placed t offset payload info h = read _ h
  where
    read :
        (nodes : Option Members)
        → info_in t offset nodes ≡ some info
        → (info.primary_unit_id ≡ first_of info.unit_ids) × OnceEach info.unit_ids
    read none e = absurd (cc e)
    read (some nodes) e =
        let placed =
          subst Placed (some-info _ info e) (info_of-Placed _ (meters_in t offset nodes)) in
        (placed.primary, placed.once)
