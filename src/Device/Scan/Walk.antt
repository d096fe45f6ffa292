-- ===== src/Device/Scan/Walk.antt =====
-- What the walk of `_scan_until_refused` (fronius_modbus_api/device.py) finds in a map.
use fronius_modbus.Common.{
  ℕ, zero, suc, ◌+◌, ◌≤◌, ◌≡◌, ◌≢◌, ◌⊎◌, ◌∙◌, ap, refl, inl, inr, List, [], ◌∷◌, ◌++◌, ◌==◌,
  if◌then◌else◌, arith, Bool-cases, length,
}
use mathlib.Core.List.{append_assoc, append-nil}
use fronius_modbus.Exec.{modbus, illegal_address, Result, ok, err}
use fronius_modbus.Device.Library.{Library, Chain, Model}
use fronius_modbus.Device.Scan.{
  append_model, walk, end_model_id, scan_until_refused, maximum_models, sunspec_base_address,
  marker_words,
}

-- The models of an id in a chain.
unfoldable pub models_in : ℕ → Chain → List Model
models_in k [] = []
models_in k ((j, ms) ∷ chain) = if j == k then ms else models_in k chain

-- The models of an id in a list, in its order.
unfoldable pub with_id : ℕ → List Model → List Model
with_id k [] = []
with_id k (m ∷ ms) = let rest = with_id k ms in if m.model_id == k then m ∷ rest else rest

unfoldable pub append_all : Chain → List Model → Chain
append_all chain [] = chain
append_all chain (m ∷ ms) = append_all (append_model m chain) ms

abbrev pub take : ℕ → List Model → List Model
take zero ms = []
take (suc n) [] = []
take (suc n) (m ∷ ms) = m ∷ take n ms

models_in-append_model :
    (k : ℕ) (m : Model) (chain : Chain)
    → models_in k (append_model m chain)
      ≡ (if m.model_id == k then models_in k chain ++ m ∷ [] else models_in k chain)
unfolding models_in append_model
models_in-append_model k m [] = ground arith
models_in-append_model k m ((j, ms) ∷ chain) = ground (arith, models_in-append_model k m chain)

models_in-append_all :
    (k : ℕ) (chain : Chain) (ms : List Model)
    → models_in k (append_all chain ms) ≡ models_in k chain ++ with_id k ms
unfolding append_all with_id
models_in-append_all k chain [] = rw append-nil
models_in-append_all k chain (m ∷ ms) = elim (Bool-cases (m.model_id == k)) [
  | inl e ↦ rw e (
      models_in-append_all k (append_model m chain) ms
      ∙ (rw (models_in-append_model k m chain, e)
          (append_assoc (models_in k chain) (m ∷ []) (with_id k ms))))
  | inr e ↦ rw e (
      models_in-append_all k (append_model m chain) ms ∙ (rw (models_in-append_model k m chain, e)))
]

module _ {W Identity : Type 0} (l : Library W Identity) (unit : ℕ) (map : ℕ → Result (ℕ × ℕ)) where
  -- Each model starts where the one before it ends, and none has the id of the end marker; behind
  -- the last stands the end marker, or a refusal.
  abbrev pub Laid : ℕ → List Model → Type 0
  Laid a [] = (map a ≡ err (modbus illegal_address)) ⊎ ((n : ℕ) × (map a ≡ ok (end_model_id, n)))
  Laid a (m ∷ ms) =
      (m.address ≡ a)
      × (map a ≡ ok (m.model_id, m.length))
      × (m.model_id ≢ end_model_id)
      × Laid (a + l.span m) ms

  -- The unit answers every read of a header as the map says, whatever was read before.
  abbrev pub Answers : Type 0
  Answers = (a : ℕ) (s : W) → (l.read_header unit a s).0 ≡ map a

  walk-append_all :
      (rounds a : ℕ) (chain : Chain) (ms : List Model) (s : W)
      → Answers
      → Laid a ms
      → (walk l unit rounds a chain s).0 ≡ ok (append_all chain (take rounds ms))
  unfolding walk append_all
  walk-append_all zero a chain ms s h k = refl
  walk-append_all (suc n) a chain [] s h (inl e) = ground (arith, h a s)
  walk-append_all (suc n) a chain [] s h (inr e) = ground (arith, h a s)
  walk-append_all (suc n) a chain (m ∷ ms) s h k = ground (
    arith,
    h a s,
    walk-append_all n (a + l.span m) (append_model m chain) ms (l.read_header unit a s).1 h k.3,
  )

  take-all : (n : ℕ) (ms : List Model) → length ms ≤ n → take n ms ≡ ms
  take-all zero [] h = refl
  take-all zero (m ∷ ms) h = absurd (omega arith)
  take-all (suc n) [] h = refl
  take-all (suc n) (m ∷ ms) h = ap (λ r. m ∷ r) (take-all n ms (omega arith))

  -- A walk over a map of at most 64 models, which ends in the end marker or in a refused read,
  -- returns them all: under each id the models of that id, in their order, and no others.
  pub scan_until_refused_complete :
      (ms : List Model) (s : W)
      → Answers
      → Laid (sunspec_base_address + marker_words) ms
      → length ms ≤ maximum_models
      → (chain : Chain) × ((scan_until_refused l unit s).0 ≡ ok chain)
        × ((k : ℕ) → models_in k chain ≡ with_id k ms)
  unfolding scan_until_refused models_in
  scan_until_refused_complete ms s h k p = (
    append_all [] ms,
    walk-append_all maximum_models (sunspec_base_address + marker_words) [] ms s h k
        ∙ ap (λ r. ok (append_all [] r)) (take-all maximum_models ms p),
    λ j. models_in-append_all j [] ms,
  )
