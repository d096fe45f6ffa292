-- ===== src/Exec/Post.antt =====
-- What holds of the answer and the state when an action has returned.
use fronius_modbus.Common.{◌≡◌, refl, Bool, true, false, if◌then◌else◌}
use fronius_modbus.Exec.{Exec, Error, Result, ok, err, ◌>>=◌, continue, pure, raise, gets}
use fronius_modbus.Exec.Keeps.{Keeps}

abbrev pub Post : {S A : Type 0} → (A → S → Type 0) → Result A × S → Type 0
Post P (ok a, s) = P a s
Post P (err e, s) = Unit

module _ {S A B : Type 0} (Q : S → Type 0) (P : B → S → Type 0) where
  continue-Post :
      (r : Result A × S) (rest : A → Exec S B)
      → Q r.1
      → ((a : A) (t : S) → Q t → Post P (rest a t))
      → Post P (continue r.0 rest r.1)
  continue-Post (ok a, t) rest q h = h a t q
  continue-Post (err e, t) rest q h = tt

  -- The rest of a block starts where what its front kept still holds.
  pub bind-Post :
      (front : Exec S A) (rest : A → Exec S B) (s : S)
      → Keeps Q front
      → Q s
      → ((a : A) (t : S) → Q t → Post P (rest a t))
      → Post P ((front >>= rest) s)
  unfolding ◌>>=◌
  bind-Post front rest s k q h = continue-Post (front s) rest (k.at s q) h

module _ {S B : Type 0} (P : B → S → Type 0) where
  pub raise-Post : (e : Error) (s : S) → Post P (raise e s)
  unfolding raise
  raise-Post e s = tt

  pub pure-Post : (b : B) (s : S) → P b s → Post P (pure b s)
  unfolding pure
  pure-Post b s h = h

  pub if-Post :
      (test : Bool) (this that : Exec S B) (s : S)
      → (test ≡ true → Post P (this s))
      → (test ≡ false → Post P (that s))
      → Post P ((if test then this else that) s)
  if-Post true this that s h k = h refl
  if-Post false this that s h k = k refl

  pub state-Post :
      (rest : S → Exec S B) (s : S) → Post P (rest s s) → Post P ((gets (λ t. t) >>= rest) s)
  unfolding ◌>>=◌
  state-Post rest s h = h

-- What is so of every state needs no proof on the way.
pub Keeps-any : {S A : Type 0} (m : Exec S A) → Keeps (λ s. Unit {0}) m
Keeps-any m = record { at = λ s h. tt }
