-- ===== src/Device/Channels.antt =====
-- Which MPPT modules are PV strings and which the paths of the storage: `mppt_channels`,
-- `mppt_module` and `pv_power_w` of fronius_modbus_api/device.py.
use mathlib.Core.Path.{subst}
use fronius_modbus.Common.{
  ℕ, zero, suc, ◌+◌, ◌-◌, ◌≤◌, ◌<◌, ◌≡◌, Bool, true, false, not, ◌&&◌, ◌||◌, Option, none, some,
  List, [], ◌∷◌, ◌==◌, leb, if◌then◌else◌, Float, arith, length, contains, ltb, ◌∙◌, zero_float,
}
use fronius_modbus.Numbers.{Numbers}

-- What the three tests say of a module's label, spaces off and in upper case: that it starts with
-- CHARGE_LABEL, has DISCHARGE_LABEL in it, and has PV_LABEL in it. `dcw` is the module's power.
pub record Module : Type 0 where
  pub is_charge : Bool
  pub is_discharge : Bool
  pub is_pv : Bool
  pub dcw : Option Float

pub record MpptChannels : Type 0 where
  pub pv : List ℕ
  pub charge : Option ℕ
  pub discharge : Option ℕ

-- EMPTY_CHANNELS
abbrev pub empty_channels : MpptChannels
empty_channels = record { pv = []; charge = none; discharge = none }

-- `next((i for i, label in enumerate(labels) if ...), None)`, from an index on
unfoldable pub first_index : (Module → Bool) → ℕ → List Module → Option ℕ
first_index f i [] = none
first_index f i (m ∷ ms) = if f m then some i else first_index f (i + 1) ms

-- `tuple(i for i, label in enumerate(labels) if ...)`, on the index too
unfoldable pub indices : (ℕ → Module → Bool) → ℕ → List Module → List ℕ
indices f i [] = []
indices f i (m ∷ ms) = let rest = indices f (i + 1) ms in if f i m then i ∷ rest else rest

abbrev pub is_index : ℕ → Option ℕ → Bool
is_index i none = false
is_index i (some j) = i == j

abbrev is_none : Option ℕ → Bool
is_none none = true
is_none (some i) = false

-- The two storage paths: by their labels, or the last two modules of firmware without labels.
unfoldable pub storage_paths : Bool → List Module → Option ℕ × Option ℕ
storage_paths has_storage ms =
    let charge = first_index (λ m. m.is_charge) 0 ms in
    let discharge = first_index (λ m. m.is_discharge) 0 ms in
    if has_storage && (is_none charge || is_none discharge) && leb 4 (length ms)
    then (some (length ms - 2), some (length ms - 1))
    else (charge, discharge)

-- `if not pv: pv = ...`
unfoldable pub or_others : List ℕ → Option ℕ × Option ℕ → List Module → List ℕ
or_others [] (charge, discharge) ms =
    indices (λ i m. not (is_index i charge || is_index i discharge)) 0 ms
or_others (i ∷ pv) paths ms = i ∷ pv

-- `mppt_channels`; the modules are there where the MPPT model is
unfoldable pub mppt_channels : Bool → Option (List Module) → MpptChannels
mppt_channels has_storage none = empty_channels
mppt_channels has_storage (some ms) =
    let paths = storage_paths has_storage ms in
    record {
      pv = or_others (indices (λ i m. m.is_pv) 0 ms) paths ms;
      charge = paths.0;
      discharge = paths.1;
    }

-- `mppt_module`
unfoldable pub mppt_module : Option (List Module) → ℕ → Option Module
mppt_module none i = none
mppt_module (some []) i = none
mppt_module (some (m ∷ ms)) zero = some m
mppt_module (some (m ∷ ms)) (suc i) = mppt_module (some ms) i

-- The powers that the modules of some indices report.
unfoldable pub powers : Option (List Module) → List ℕ → List Float
powers ms [] = []
powers ms (i ∷ is) =
    let rest = powers ms is in
    elim (mppt_module ms i) [
      | none ↦ rest
      | some m ↦ elim m.dcw [ none ↦ rest | some w ↦ w ∷ rest ]
    ]

-- `sum(values)` from a start
unfoldable pub sum_from : Numbers → Float → List Float → Float
sum_from numbers total [] = total
sum_from numbers total (w ∷ ws) = sum_from numbers (numbers.add total w) ws

abbrev rounded_sum : Numbers → List Float → Option Float
rounded_sum numbers [] = none
rounded_sum numbers (w ∷ ws) = some (numbers.round_cents (sum_from numbers zero_float (w ∷ ws)))

-- `pv_power_w`
unfoldable pub pv_power_w : Numbers → Bool → Option (List Module) → Option Float
pv_power_w numbers has_storage ms =
    rounded_sum numbers (powers ms (mppt_channels has_storage ms).pv)

-- Every index of a channel is one of a module.
abbrev pub Below : ℕ → Option ℕ → Type 0
Below n none = Unit
Below n (some i) = i < n

abbrev pub AllBelow : ℕ → List ℕ → Type 0
AllBelow n [] = Unit
AllBelow n (i ∷ is) = (i < n) × AllBelow n is

first_index-Below :
    (f : Module → Bool) (i : ℕ) (ms : List Module) → Below (i + length ms) (first_index f i ms)
unfolding first_index
first_index-Below f i [] = tt
first_index-Below f i (m ∷ ms) = ground (arith, first_index-Below f (i + 1) ms)

indices-AllBelow :
    (f : ℕ → Module → Bool) (i n : ℕ) (ms : List Module)
    → i + length ms ≤ n
    → AllBelow n (indices f i ms)
unfolding indices
indices-AllBelow f i n [] h = tt
indices-AllBelow f i n (m ∷ ms) h = ground (arith, indices-AllBelow f (i + 1) n ms)

first-Below : (f : Module → Bool) (ms : List Module) → Below (length ms) (first_index f 0 ms)
first-Below f ms = subst (λ n. Below n (first_index f 0 ms)) zero_plus (first_index-Below f 0 ms)
  where
    zero_plus : 0 + length ms ≡ length ms
    zero_plus = omega arith

storage_paths-Below :
    (has_storage : Bool) (ms : List Module)
    → Below (length ms) (storage_paths has_storage ms).0
      × Below (length ms) (storage_paths has_storage ms).1
unfolding storage_paths
storage_paths-Below has_storage ms =
    ground (arith, first-Below (λ m. m.is_charge) ms, first-Below (λ m. m.is_discharge) ms)

or_others-AllBelow :
    (pv : List ℕ) (paths : Option ℕ × Option ℕ) (ms : List Module)
    → AllBelow (length ms) pv
    → AllBelow (length ms) (or_others pv paths ms)
unfolding or_others
or_others-AllBelow [] (c, d) ms h = indices-AllBelow _ 0 (length ms) ms (omega arith)
or_others-AllBelow (i ∷ pv) paths ms h = h

-- Every channel is a module that the last poll read: its index is below their number, whether the
-- labels named it or the fallback for firmware without labels did.
pub mppt_channels_bounds :
    (has_storage : Bool) (ms : List Module)
    → let ch = mppt_channels has_storage (some ms) in
      AllBelow (length ms) ch.pv × Below (length ms) ch.charge × Below (length ms) ch.discharge
unfolding mppt_channels
mppt_channels_bounds has_storage ms =
    let (c, d) = storage_paths-Below has_storage ms in
    (or_others-AllBelow _ _ ms (indices-AllBelow _ 0 (length ms) ms (omega arith)), c, d)

contains-indices :
    (g : ℕ → Bool) (k i : ℕ) (ms : List Module)
    → contains k (indices (λ j m. g j) i ms) ≡ (leb i k && ltb k (i + length ms) && g k)
unfolding indices
contains-indices g k i [] = ground arith
contains-indices g k i (m ∷ ms) = ground (arith, contains-indices g k (i + 1) ms)

others_lem :
    (pv : List ℕ) (paths : Option ℕ × Option ℕ) (ms : List Module) (k : ℕ)
    → pv ≡ []
    → k < length ms
    → contains k (or_others pv paths ms) ≡ not (is_index k paths.0 || is_index k paths.1)
unfolding or_others
others_lem [] (c, d) ms k e h =
    contains-indices (λ i. not (is_index i c || is_index i d)) k 0 ms ∙ ground arith
others_lem (i ∷ pv) paths ms k e h = cc e

-- Where no label names a PV string, each module is a PV string exactly when it is not one of the
-- two storage paths: none is left out, and none is counted on both sides.
pub unlabelled_are_pv :
    (has_storage : Bool) (ms : List Module) (k : ℕ)
    → indices (λ i m. m.is_pv) 0 ms ≡ []
    → k < length ms
    → let ch = mppt_channels has_storage (some ms) in
      contains k ch.pv ≡ not (is_index k ch.charge || is_index k ch.discharge)
unfolding mppt_channels
unlabelled_are_pv has_storage ms k e h = others_lem _ (storage_paths has_storage ms) ms k e h
