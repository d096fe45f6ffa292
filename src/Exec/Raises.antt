-- ===== src/Exec/Raises.antt =====
-- Which errors an action raises, and rules for each way to build one.
use mathlib.Core.Path.{subst}
use fronius_modbus.Common.{◌≡◌, ap, ◌⊎◌, inl, inr, refl}
use fronius_modbus.Exec.{Exec, Error, Result, ok, err, pure, raise, gets, ◌>>=◌, continue, attempt}
use fronius_modbus.Exec.Gives.{Gives}

pub record Raises {S A : Type 0} (Q : Error → Type 0) (m : Exec S A) : Type 0 where
  pub at : (s : S) (e : Error) → (m s).0 ≡ err e → Q e

err-eq : {A : Type 0} (x e : Error) → ◌≡◌ {A = Result A} (err x) (err e) → x ≡ e
err-eq x e p = cc p

module _ {S A : Type 0} (Q : Error → Type 0) where
  pub Raises-pure : (a : A) → Raises {S = S} Q (pure a)
  unfolding pure
  Raises-pure a = record { at = λ s e p. cc p }

  pub Raises-gets : (f : S → A) → Raises Q (gets f)
  unfolding gets
  Raises-gets f = record { at = λ s e p. cc p }

  pub Raises-raise : (x : Error) → Q x → Raises {S = S} {A = A} Q (raise x)
  unfolding raise
  Raises-raise x q = record { at = λ s e p. subst Q (err-eq {A = A} x e p) q }

module _ {S A B : Type 0} where
  -- A block raises what its first action raises, or what the rest does behind its answer.
  pub continue-err :
      (r : Result A) (rest : A → Exec S B) (s : S) (e : Error)
      → (continue r rest s).0 ≡ err e
      → (r ≡ err e) ⊎ ((a : A) × (r ≡ ok a) × ((rest a s).0 ≡ err e))
  continue-err (ok a) rest s e p = inr (a, refl, p)
  continue-err (err x) rest s e p = inl (ap (λ y. err y) (err-eq {A = B} x e p))

  pub Raises-bind :
      (Q : Error → Type 0) (R : A → Type 0) (m : Exec S A) (rest : A → Exec S B)
      → Raises Q m
      → Gives R m
      → ((a : A) → R a → Raises Q (rest a))
      → Raises Q (m >>= rest)
  unfolding ◌>>=◌
  Raises-bind Q R m rest h g k = record {
    at = λ s e p. elim (continue-err (m s).0 rest (m s).1 e p) [
      | inl x ↦ h.at s e x
      | inr (a, x, y) ↦ (k a (g.at s a x)).at (m s).1 e y
    ];
  }

  pub Raises-attempt :
      (Q : Error → Type 0) (m : Exec S A) (k : Result A → Exec S B)
      → ((r : Result A) → Raises Q (k r))
      → Raises Q (attempt m k)
  unfolding attempt
  Raises-attempt Q m k h = record { at = λ s e p. (h (m s).0).at (m s).1 e p }
