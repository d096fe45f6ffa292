-- ===== src/Exec/Gives.antt =====
-- What actions return when they return, and rules that hand it on to the rest of a block.
use mathlib.Core.Path.{subst}
use fronius_modbus.Common.{◌≡◌, refl}
use fronius_modbus.Exec.{Exec, Error, Result, ok, err, pure, raise, ◌>>=◌, continue, attempt}
use fronius_modbus.Exec.Keeps.{Keeps}

ok-eq : {A : Type 0} (a b : A) → Result.ok a ≡ ok b → a ≡ b
ok-eq a b e = cc e

-- What an action returns, when it returns.
pub record Gives {S A : Type 0} (Q : A → Type 0) (m : Exec S A) : Type 0 where
  pub at : (s : S) (a : A) → (m s).0 ≡ ok a → Q a

module _ {S A B : Type 0} {P : S → Type 0} where
  continue-gives :
      (r : Result A) (f : A → Exec S B) (Q : A → Type 0) (s : S)
      → P s
      → ((a : A) → r ≡ ok a → Q a)
      → ((a : A) → Q a → Keeps P (f a))
      → P (continue r f s).1
  continue-gives (ok a) f Q s h g kf = (kf a (g a refl)).at s h
  continue-gives (err e) f Q s h g kf = h

  -- The rest of a block may use what its first action returns.
  pub Keeps-bind-Gives :
      (m : Exec S A) (f : A → Exec S B) (Q : A → Type 0)
      → Keeps P m
      → Gives Q m
      → ((a : A) → Q a → Keeps P (f a))
      → Keeps P (m >>= f)
  unfolding ◌>>=◌
  Keeps-bind-Gives m f Q km g kf = record {
    at = λ s h. let (r, s') = m s in continue-gives r f Q s' (km.at s h) (λ a e. g.at s a e) kf;
  }

module _ {S A B : Type 0} where
  continue-ok :
      (r : Result A) (f : A → Exec S B) (s : S) (Q : B → Type 0)
      → ((a : A) → r ≡ ok a → Gives Q (f a))
      → (b : B) → (continue r f s).0 ≡ ok b
      → Q b
  continue-ok (ok a) f s Q g b e = (g a refl).at s b e
  continue-ok (err x) f s Q g b e = cc e

  pub Gives-bind :
      (m : Exec S A) (f : A → Exec S B) (R : A → Type 0) (Q : B → Type 0)
      → Gives R m
      → ((a : A) → R a → Gives Q (f a))
      → Gives Q (m >>= f)
  unfolding ◌>>=◌
  Gives-bind m f R Q h g = record {
    at = λ s b e. continue-ok (m s).0 f (m s).1 Q (λ a p. g a (h.at s a p)) b e;
  }

  pub Gives-attempt :
      (m : Exec S A) (k : Result A → Exec S B) (R : A → Type 0) (Q : B → Type 0)
      → Gives R m
      → ((r : Result A) → ((a : A) → r ≡ ok a → R a) → Gives Q (k r))
      → Gives Q (attempt m k)
  unfolding attempt
  Gives-attempt m k R Q h g = record {
    at = λ s b e. (g (m s).0 (λ a p. h.at s a p)).at (m s).1 b e;
  }

module _ {S A : Type 0} where
  pub Gives-pure : (a : A) (Q : A → Type 0) → Q a → Gives {S = S} Q (pure a)
  unfolding pure
  Gives-pure a Q h = record { at = λ s b e. subst Q (ok-eq a b e) h }

  pub Gives-raise : (e : Error) (Q : A → Type 0) → Gives {S = S} Q (raise e)
  unfolding raise
  Gives-raise e Q = record { at = λ s b p. cc p }

  pub Gives-any : (m : Exec S A) → Gives (λ a. Unit {0}) m
  Gives-any m = record { at = λ s a e. tt }

  pub Gives-weaken :
      (Q R : A → Type 0) (m : Exec S A) → Gives Q m → ((a : A) → Q a → R a) → Gives R m
  Gives-weaken Q R m g k = record { at = λ s a e. k a (g.at s a e) }
