-- ===== src/Derived/Total/Laws.antt =====
-- What `TotalGuard` of derived.py accepts.
use fronius_modbus.Common.{
  ℕ, zero, suc, ◌+◌, ◌≤◌, ◌≡◌, inl, inr, refl, Bool, true, false, Option, none, some, List, [], ◌∷◌,
  arith, if◌then◌else◌, Float, zero_float, leb_ℤ, ◌≤ℤ◌, Bool-cases, Option-cases, length,
}
use mathlib.Core.Path.{subst₂}
use native.Mathlib.Numerals.{add-one}
use fronius_modbus.Numbers.{Numbers}
use fronius_modbus.Derived.Total.{
  TotalGuard, TotalVerdict, plausible_after, follows, suspect, observe, new_guard, seed,
}

-- The sign of a difference of two doubles is exact.
abbrev pub SubSigned : Numbers → Type 0
SubSigned numbers = (a b : Float) → leb_ℤ zero_float (numbers.sub a b) ≡ true → b ≤ℤ a

-- Whether a verdict says that the reading was adopted late.
abbrev pub was_adopted : Option TotalVerdict → Bool
was_adopted none = false
was_adopted (some v) = v.adopted

-- `a` is no more than `b`, once there is an `a`.
abbrev pub Grows : Option Float → Option Float → Type 0
Grows none b = Unit
Grows (some a) none = ⊥
Grows (some a) (some b) = a ≤ℤ b

module _ (numbers : Numbers) where
  -- Without an adoption the accepted total never falls and is never lost, where a difference that
  -- is not negative means no less.
  pub observe-Grows :
      (signed : SubSigned numbers) (g : TotalGuard) (r : Option Float)
      → was_adopted (observe numbers g r).1 ≡ false
      → Grows g.value (observe numbers g r).0.value
  unfolding observe suspect plausible_after
  observe-Grows signed g none h = ground arith
  observe-Grows signed g (some r) h = elim (Option-cases g.value) [
    | inl e ↦ rw e tt
    | inr (v, e) ↦ ground (arith, signed r v)
  ]

  -- The last `n` of the readings, the newest first, each follow the one before.
  abbrev pub Agree : Float → ℕ → List (Option Float) → Type 0
  Agree m zero rs = Unit
  Agree m (suc n) [] = ⊥
  Agree m (suc n) (none ∷ rs) = ⊥
  Agree m (suc zero) (some r ∷ rs) = Unit
  Agree m (suc (suc n)) (some r ∷ []) = ⊥
  Agree m (suc (suc n)) (some r ∷ none ∷ rs) = ⊥
  Agree m (suc (suc n)) (some r ∷ some q ∷ rs) =
      (plausible_after numbers m q r ≡ true) × Agree m (suc n) (some q ∷ rs)

  Agree-add :
      (m : Float) (n : ℕ) (r q : Float) (rs : List (Option Float))
      → 1 ≤ n
      → plausible_after numbers m q r ≡ true
      → Agree m n (some q ∷ rs)
      → Agree m (n + 1) (some r ∷ some q ∷ rs)
  Agree-add m zero r q rs p e h = absurd (omega arith)
  Agree-add m (suc n) r q rs p e h = rw add-one (e, h)

  Agree-le : (m : Float) (n k : ℕ) (rs : List (Option Float)) → k ≤ n → Agree m n rs → Agree m k rs
  Agree-le m n zero rs p h = tt
  Agree-le m zero (suc k) rs p h = absurd (omega arith)
  Agree-le m (suc n) (suc k) [] p h = absurd h
  Agree-le m (suc n) (suc k) (none ∷ rs) p h = absurd h
  Agree-le m (suc n) (suc zero) (some r ∷ rs) p h = tt
  Agree-le m (suc zero) (suc (suc k)) (some r ∷ rs) p h = absurd (omega arith)
  Agree-le m (suc (suc n)) (suc (suc k)) (some r ∷ []) p h = h
  Agree-le m (suc (suc n)) (suc (suc k)) (some r ∷ none ∷ rs) p h = h
  Agree-le m (suc (suc n)) (suc (suc k)) (some r ∷ some q ∷ rs) p h =
      (h.0, Agree-le m (suc n) (suc k) (some q ∷ rs) (omega arith) h.1)

  -- The guard's count is of readings that agree, the newest first in `rs`.
  abbrev Counts : Float → ℕ → Option Float → List (Option Float) → Type 0
  Counts m k none rs = k ≡ 0
  Counts m k (some s) [] = ⊥
  Counts m k (some s) (none ∷ rs) = ⊥
  Counts m k (some s) (some q ∷ rs) = (q ≡ s) × (1 ≤ k) × Agree m k (some q ∷ rs)

  abbrev Tracks : TotalGuard → List (Option Float) → Type 0
  Tracks g rs = Counts g.max_step g.suspect_polls g.last_suspect rs

  Agree-suspects :
      (m : Float) (k : ℕ) (l : Option Float) (r : Float) (rs : List (Option Float))
      → Counts m k l rs
      → Agree m (if follows numbers m l r then k + 1 else 1) (some r ∷ rs)
  Agree-suspects m k none r rs h = tt
  Agree-suspects m k (some s) r [] h = absurd h
  Agree-suspects m k (some s) r (none ∷ rs) h = absurd h
  Agree-suspects m k (some s) r (some q ∷ rs) h =
      elim (Bool-cases (plausible_after numbers m s r)) [
        | inl e ↦ rw e (Agree-add m k r q rs h.1 (rw h.0 e) h.2)
        | inr e ↦ rw e tt
      ]

  suspects-pos :
      (m : Float) (k : ℕ) (l : Option Float) (r : Float)
      → 1 ≤ (if follows numbers m l r then k + 1 else 1)
  suspects-pos m k l r = ground arith

  observe-Tracks :
      (g : TotalGuard) (r : Option Float) (rs : List (Option Float))
      → Tracks g rs
      → Tracks (observe numbers g r).0 (r ∷ rs)
  unfolding observe suspect
  observe-Tracks g none rs h = refl
  observe-Tracks g (some r) rs h = ground (
    arith,
    Agree-suspects g.max_step g.suspect_polls g.last_suspect r rs h,
    suspects-pos g.max_step g.suspect_polls g.last_suspect r,
  )

  adopted-Agree :
      (g : TotalGuard) (r : Option Float) (rs : List (Option Float))
      → Tracks g rs
      → was_adopted (observe numbers g r).1 ≡ true
      → Agree g.max_step g.confirmations (r ∷ rs)
  unfolding observe suspect
  adopted-Agree g none rs h a = cc a
  adopted-Agree g (some r) rs h a = ground (
    arith,
    Agree-suspects g.max_step g.suspect_polls g.last_suspect r rs h,
    Agree-le g.max_step
        (if follows numbers g.max_step g.last_suspect r then g.suspect_polls + 1 else 1)
        g.confirmations (some r ∷ rs),
  )

  -- A guard restored with `v` after the readings, the newest first.
  unfoldable pub after : Float → ℕ → Option Float → List (Option Float) → TotalGuard
  after m n v [] = seed v (new_guard m n)
  after m n v (r ∷ rs) = (observe numbers (after m n v rs) r).0

  observe-settings :
      (g : TotalGuard) (r : Option Float)
      → ((observe numbers g r).0.max_step ≡ g.max_step)
        × ((observe numbers g r).0.confirmations ≡ g.confirmations)
  unfolding observe suspect
  observe-settings g none = (refl, refl)
  observe-settings g (some r) = ground arith

  after-settings :
      (m : Float) (n : ℕ) (v : Option Float) (rs : List (Option Float))
      → ((after m n v rs).max_step ≡ m) × ((after m n v rs).confirmations ≡ n)
  unfolding after seed new_guard
  after-settings m n v [] = (refl, refl)
  after-settings m n v (r ∷ rs) =
      ground (arith, observe-settings (after m n v rs) r, after-settings m n v rs)

  after-Tracks :
      (m : Float) (n : ℕ) (v : Option Float) (rs : List (Option Float)) → Tracks (after m n v rs) rs
  unfolding after seed new_guard
  after-Tracks m n v [] = refl
  after-Tracks m n v (r ∷ rs) = observe-Tracks (after m n v rs) r rs (after-Tracks m n v rs)

  -- A new range is adopted only when the last `n` readings, this one and no gap among them, each
  -- follow the one before: a single bad reading, or bad readings that disagree, never are.
  pub adoption_needs_agreement :
      (m : Float) (n : ℕ) (v : Option Float) (rs : List (Option Float)) (r : Option Float)
      → was_adopted (observe numbers (after m n v rs) r).1 ≡ true
      → Agree m n (r ∷ rs)
  adoption_needs_agreement m n v rs r h =
      let (e, f) = after-settings m n v rs in
      subst₂ (λ m' n'. Agree m' n' (r ∷ rs)) e f
        (adopted-Agree (after m n v rs) r rs (after-Tracks m n v rs) h)

  -- Readings that do not follow the value, each of which follows the one before it.
  abbrev pub Moved : Float → Float → Option Float → List Float → Type 0
  Moved m v l [] = Unit
  Moved m v l (r ∷ rs) =
      (plausible_after numbers m v r ≡ false)
      × (follows numbers m l r ≡ true)
      × Moved m v (some r) rs

  unfoldable pub observe_all : TotalGuard → List Float → TotalGuard
  observe_all g [] = g
  observe_all g (r ∷ rs) = observe_all (observe numbers g (some r)).0 rs

  abbrev pub last_of : Float → List Float → Float
  last_of r [] = r
  last_of r (q ∷ rs) = last_of q rs

  adopts_from :
      (r : Float) (rs : List Float) {v s : Float} (g : TotalGuard)
      → g.value ≡ some v
      → g.last_suspect ≡ some s
      → Moved g.max_step v (some s) (r ∷ rs)
      → g.suspect_polls + length (r ∷ rs) ≡ g.confirmations
      → (observe_all g (r ∷ rs)).value ≡ some (last_of r rs)
  unfolding observe_all observe suspect
  adopts_from r [] g e l h p = ground arith
  adopts_from r (q ∷ rs) {v} {s} g e l h p = ground (
    arith,
    adopts_from q rs {v = v} {s = r} (observe numbers g (some r)).0,
    observe-settings g (some r),
  )

  -- A counter that really moved is believed: once the first reading of a new range, which does not
  -- follow the value, is on record, further ones that each follow the one before are adopted as
  -- soon as they are `confirmations` in all, and the guard then shows the last of them.
  agreement_adopts :
      (r q : Float) (rs : List Float) {v : Float} (g : TotalGuard)
      → g.value ≡ some v
      → g.last_suspect ≡ none
      → plausible_after numbers g.max_step v r ≡ false
      → Moved g.max_step v (some r) (q ∷ rs)
      → length (r ∷ q ∷ rs) ≡ g.confirmations
      → (observe_all g (r ∷ q ∷ rs)).value ≡ some (last_of q rs)
  unfolding observe_all observe suspect
  agreement_adopts r q rs {v} g e l f h p = ground (
    arith,
    adopts_from q rs {v = v} {s = r} (observe numbers g (some r)).0,
    observe-settings g (some r),
  )
