-- ===== src/Exec/Ends.antt =====
-- What holds of the state when an action has returned, and when it has raised.
use fronius_modbus.Common.{true, false, Bool, refl, ◌≡◌}
use fronius_modbus.Exec.{Exec, Error, Result, ok, err, ◌>>=◌, continue, guard, modify}
use fronius_modbus.Exec.Keeps.{Keeps}

abbrev pub Ends : {S A : Type 0} → (S → Type 0) → (S → Type 0) → Result A × S → Type 0
Ends P Q (ok a, s) = P s
Ends P Q (err e, s) = Q s

module _ {S A B : Type 0} (P Q : S → Type 0) where
  continue-Ends :
      (r : Result A × S) (rest : A → Exec S B)
      → Q r.1
      → ((a : A) (t : S) → Q t → Ends P Q (rest a t))
      → Ends P Q (continue r.0 rest r.1)
  continue-Ends (ok a, t) rest q h = h a t q
  continue-Ends (err e, t) rest q h = q

  -- An action in front that keeps what holds before the change.
  pub bind-Ends :
      (action : Exec S A) (rest : A → Exec S B) (s : S)
      → Keeps Q action
      → Q s
      → ((a : A) (t : S) → Q t → Ends P Q (rest a t))
      → Ends P Q ((action >>= rest) s)
  unfolding ◌>>=◌
  bind-Ends action rest s k q h = continue-Ends (action s) rest (k.at s q) h

module _ {S B : Type 0} (P Q : S → Type 0) where
  -- A guard in front: behind it, its condition holds.
  pub guard-Ends :
      (b : Bool) (e : Error) (rest : Unit {0} → Exec S B) (s : S)
      → Q s
      → (b ≡ true → Ends P Q (rest tt s))
      → Ends P Q ((guard b e >>= rest) s)
  unfolding ◌>>=◌
  guard-Ends true e rest s q h = h refl
  guard-Ends false e rest s q h = q

pub modify-Ends :
    {S : Type 0} (P Q : S → Type 0) (f : S → S) (s : S) → P (f s) → Ends P Q (modify f s)
unfolding ◌>>=◌
modify-Ends P Q f s h = h
