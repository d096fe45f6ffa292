-- ===== src/Exec/Keeps.antt =====
-- Invariants of actions, one rule for each way to build an action.
use fronius_modbus.Common.{◌≡◌, refl, Bool, true, false, Option, none, some, if◌then◌else◌}
use fronius_modbus.Exec.{
  Exec, Error, Result, ok, err, pure, raise, gets, or_raise, guard, caught, caught_modbus, ◌>>=◌,
  continue, modify, attempt,
}

-- `m` keeps `P`, whether it returns or raises.
pub record Keeps {S A : Type 0} (P : S → Type 0) (m : Exec S A) : Type 0 where
  pub at : (before : S) → P before → P (m before).1

module _ {S A : Type 0} {P : S → Type 0} where
  pub Keeps-pure : (answer : A) → Keeps P (pure answer)
  unfolding pure
  Keeps-pure answer = record { at = λ s h. h }

  pub Keeps-or_raise : (o : Option A) (e : Error) → Keeps P (or_raise o e)
  unfolding or_raise
  Keeps-or_raise none e = record { at = λ s h. h }
  Keeps-or_raise (some a) e = record { at = λ s h. h }

  pub Keeps-raise : (e : Error) → Keeps P (raise {A = A} e)
  unfolding raise
  Keeps-raise e = record { at = λ w p. p }

  pub Keeps-gets : (f : S → A) → Keeps P (gets f)
  unfolding gets
  Keeps-gets f = record { at = λ w p. p }

  pub Keeps-caught : (m : Exec S A) (d : A) → Keeps P m → Keeps P (caught m d)
  unfolding caught
  Keeps-caught m d k = record { at = λ s h. k.at s h }

  pub Keeps-caught_modbus : (m : Exec S A) (d : A) → Keeps P m → Keeps P (caught_modbus m d)
  unfolding caught_modbus
  Keeps-caught_modbus m d k = record { at = λ s h. k.at s h }

  pub Keeps-if :
      (test : Bool) (this that : Exec S A)
      → (test ≡ true → Keeps P this)
      → (test ≡ false → Keeps P that)
      → Keeps P (if test then this else that)
  Keeps-if true this that ky kn = ky refl
  Keeps-if false this that ky kn = kn refl

pub Keeps-guard : {S : Type 0} {P : S → Type 0} (b : Bool) (e : Error) → Keeps P (guard b e)
unfolding guard
Keeps-guard true e = record { at = λ s h. h }
Keeps-guard false e = record { at = λ s h. h }

module _ {S A B : Type 0} {P : S → Type 0} where
  Keeps-continue :
      (r : Result A) (rest : A → Exec S B) (s : S)
      → P s
      → ((a : A) → Keeps P (rest a))
      → P (continue r rest s).1
  Keeps-continue (ok a) rest s h k = (k a).at s h
  Keeps-continue (err e) rest s h k = h

  pub Keeps-bind :
      (action : Exec S A) (rest : A → Exec S B)
      → Keeps P action
      → ((a : A) → Keeps P (rest a))
      → Keeps P (action >>= rest)
  unfolding ◌>>=◌
  Keeps-bind action rest ka k = record {
    at = λ s h. let (r, t) = action s in Keeps-continue r rest t (ka.at s h) k;
  }

module _ {S B : Type 0} {P : S → Type 0} where
  -- The rest of a block may use that the state that it reads satisfies the invariant.
  pub Keeps-bind-state :
      (f : S → Exec S B) → ((s : S) → P s → Keeps P (f s)) → Keeps P (gets (λ s. s) >>= f)
  unfolding ◌>>=◌
  Keeps-bind-state f kf = record { at = λ s h. (kf s h).at s h }

module _ {S : Type 0} {P : S → Type 0} where
  pub Keeps-modify : (f : S → S) → ((s : S) → P s → P (f s)) → Keeps P (modify f)
  unfolding modify
  Keeps-modify f k = record { at = λ s h. k s h }

module _ {S A B : Type 0} {P : S → Type 0} where
  pub Keeps-attempt :
      (m : Exec S A) (k : Result A → Exec S B)
      → Keeps P m
      → ((r : Result A) → Keeps P (k r))
      → Keeps P (attempt m k)
  unfolding attempt
  Keeps-attempt m k km kk = record { at = λ s h. let (r, s') = m s in (kk r).at s' (km.at s h) }

pub ruleset keeps_rules = (
  Keeps-pure, Keeps-raise, Keeps-gets, Keeps-or_raise, Keeps-caught, Keeps-caught_modbus, Keeps-if,
  Keeps-guard, Keeps-bind, Keeps-attempt,
)
