-- ===== src/Exec/Stops.antt =====
-- A block whose front raised does not depend on what follows it.
use fronius_modbus.Common.{◌≡◌, refl}
use fronius_modbus.Exec.{Exec, Error, Result, ok, err, ◌>>=◌, continue, raise}

-- The action raises, in this state.
abbrev pub Fails : {S A : Type 0} → Result A × S → Type 0
Fails (ok a, s) = ⊥
Fails (err e, s) = Unit

pub stopped_by : {S A : Type 0} (r : Result A × S) (e : Error) → r.0 ≡ err e → Fails r
stopped_by (ok a, s) e h = cc h
stopped_by (err x, s) e h = tt

pub error_of : {S A : Type 0} (r : Result A × S) → Fails r → (e : Error) × (r.0 ≡ err e)
error_of (ok a, s) h = absurd h
error_of (err x, s) h = (x, refl)

module _ {S A B : Type 0} where
  continue_stops :
      (r : Result A × S) (k k' : A → Exec S B)
      → Fails r
      → (continue r.0 k r.1 ≡ continue r.0 k' r.1) × Fails (continue r.0 k r.1)
  continue_stops (ok a, s) k k' h = absurd h
  continue_stops (err e, s) k k' h = (refl, tt)

  pub bind_stops :
      (m : Exec S A) (k k' : A → Exec S B) (s : S)
      → Fails (m s)
      → ((m >>= k) s ≡ (m >>= k') s) × Fails ((m >>= k) s)
  unfolding ◌>>=◌
  bind_stops m k k' s h = continue_stops (m s) k k' h

module _ {S A : Type 0} (B : Type 0) (e : Error) where
  raised : (r : Result A × S) → Fails (continue r.0 (λ _. raise {S = S} {A = B} e) r.1)
  unfolding raise
  raised (ok a, s) = tt
  raised (err x, s) = tt

  -- A block that ends by raising raises.
  pub raise-Fails : (m : Exec S A) (s : S) → Fails ((m >>= λ _. raise {A = B} e) s)
  unfolding ◌>>=◌
  raise-Fails m s = raised (m s)
