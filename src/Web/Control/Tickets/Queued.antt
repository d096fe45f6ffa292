-- ===== src/Web/Control/Tickets/Queued.antt =====
-- The calls of a control that wait, and the newest of them, for _last_writer_wins of web_control.py.
use fronius_modbus.Common.{
  ℕ, ◌+◌, ◌≤◌, ◌≡◌, refl, ◌∙◌, ◌⊎◌, Bool, true, false, Option, none, some, List, [], ◌∷◌, ◌++◌,
  ◌==◌, if◌then◌else◌, arith, All,
}
use fronius_modbus.Web.Control.Tickets.{
  Waiter, ours, another, Event, calls, other_calls, ends, resumes,
}

module _ {V : Type 0} where
  -- The last of a list.
  abbrev pub last_of : List V → Option V
  last_of [] = none
  last_of (v ∷ []) = some v
  last_of (v ∷ w ∷ vs) = last_of (w ∷ vs)

  pub last_of-concat : (vs : List V) (v : V) → last_of (vs ++ v ∷ []) ≡ some v
  last_of-concat [] v = refl
  last_of-concat (x ∷ []) v = refl
  last_of-concat (x ∷ y ∷ vs) v = last_of-concat (y ∷ vs) v

  -- The value that was called last.
  unfoldable pub called : Option V → List (Event V) → Option V
  called last [] = last
  called last (calls v ∷ es) = called (some v) es
  called last (other_calls ∷ es) = called last es
  called last (ends ∷ es) = called last es
  called last (resumes ∷ es) = called last es

  -- The value that waits with the last ticket.
  unfoldable pub newest : ℕ → List (Waiter V) → Option V
  newest n [] = none
  newest n (another ∷ ws) = newest n ws
  newest n (ours k v ∷ ws) = let rest = newest n ws in if k == n then some v else rest

  abbrev pub IsIssued : ℕ → Waiter V → Type 0
  IsIssued n (ours k v) = k ≤ n
  IsIssued n another = Unit

  abbrev pub is_none : Option V → Bool
  is_none none = true
  is_none (some v) = false

  -- At most one call waits with the last ticket.
  abbrev pub Single : ℕ → List (Waiter V) → Type 0
  Single n [] = Unit
  Single n (another ∷ ws) = Single n ws
  Single n (ours k v ∷ ws) = ((k ≡ n) → newest n ws ≡ none) × Single n ws

  abbrev pub Reaches : Option V → List V → Option V → Type 0
  Reaches last written waits =
      ((last_of written ≡ last) × (waits ≡ none)) ⊎ ((v : V) × (last ≡ some v) × (waits ≡ some v))

  pub older : (n : ℕ) (ws : List (Waiter V)) → All (IsIssued n) ws → All (IsIssued (n + 1)) ws
  older n [] h = tt
  older n (another ∷ ws) h = (tt, older n ws h.1)
  older n (ours k v ∷ ws) h = (omega (arith, h.0), older n ws h.1)

  pub All-concat :
      (n : ℕ) (ws : List (Waiter V)) (w : Waiter V)
      → All (IsIssued n) ws
      → IsIssued n w
      → All (IsIssued n) (ws ++ w ∷ [])
  All-concat n [] w h k = (k, tt)
  All-concat n (x ∷ ws) w h k = (h.0, All-concat n ws w h.1 k)

  pub newest-concat :
      (n : ℕ) (ws : List (Waiter V)) (v : V)
      → All (IsIssued n) ws
      → newest (n + 1) (ws ++ ours (n + 1) v ∷ []) ≡ some v
  unfolding newest
  newest-concat n [] v h = ground arith
  newest-concat n (another ∷ ws) v h = newest-concat n ws v h.1
  newest-concat n (ours k x ∷ ws) v h = ground (arith, newest-concat n ws v h.1)

  pub Single-concat :
      (n : ℕ) (ws : List (Waiter V)) (v : V)
      → All (IsIssued n) ws
      → Single (n + 1) (ws ++ ours (n + 1) v ∷ [])
  Single-concat n [] v h = (λ _. unfold newest in refl, tt)
  Single-concat n (another ∷ ws) v h = Single-concat n ws v h.1
  Single-concat n (ours k x ∷ ws) v h =
      (λ e. absurd (omega (arith, h.0, e)), Single-concat n ws v h.1)

  pub newest-another : (n : ℕ) (ws : List (Waiter V)) → newest n (ws ++ another ∷ []) ≡ newest n ws
  unfolding newest
  newest-another n [] = refl
  newest-another n (another ∷ ws) = newest-another n ws
  newest-another n (ours k x ∷ ws) = ground (arith, newest-another n ws)

  pub Single-another : (n : ℕ) (ws : List (Waiter V)) → Single n ws → Single n (ws ++ another ∷ [])
  Single-another n [] h = tt
  Single-another n (another ∷ ws) h = Single-another n ws h
  Single-another n (ours k x ∷ ws) h = (λ e. newest-another n ws ∙ h.0 e, Single-another n ws h.1)
