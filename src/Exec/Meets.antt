-- ===== src/Exec/Meets.antt =====
-- What an action leaves behind on each way to end: a condition on the answer and the state where
-- it returns, another on the error and the state where it raises.
use fronius_modbus.Common.{◌≡◌, refl, Bool, true, false, Option, none, some, if◌then◌else◌}
use fronius_modbus.Exec.Keeps.{Keeps}
use fronius_modbus.Exec.{
  Exec, Error, Result, ok, err, ◌>>=◌, continue, pure, raise, gets, or_raise, guard, modify,
  attempt,
}

abbrev pub Meets : {S A : Type 0} → (A → S → Type 0) → (Error → S → Type 0) → Result A × S → Type 0
Meets Q E (ok a, s) = Q a s
Meets Q E (err e, s) = E e s

module _ {S A : Type 0} (Q R : A → S → Type 0) (E F : Error → S → Type 0) where
  pub weaken-Meets :
      (r : Result A × S)
      → ((a : A) (s : S) → Q a s → R a s)
      → ((e : Error) (s : S) → E e s → F e s)
      → Meets Q E r
      → Meets R F r
  weaken-Meets (ok a, s) f g h = f a s h
  weaken-Meets (err e, s) f g h = g e s h

module _ {S A B : Type 0} (R : A → S → Type 0) (Q : B → S → Type 0) (E : Error → S → Type 0) where
  continue-Meets :
      (r : Result A × S) (rest : A → Exec S B)
      → Meets R E r
      → ((a : A) (t : S) → R a t → Meets Q E (rest a t))
      → Meets Q E (continue r.0 rest r.1)
  continue-Meets (ok a, t) rest h k = k a t h
  continue-Meets (err e, t) rest h k = h

  pub bind-Meets :
      (m : Exec S A) (rest : A → Exec S B) (s : S)
      → Meets R E (m s)
      → ((a : A) (t : S) → R a t → Meets Q E (rest a t))
      → Meets Q E ((m >>= rest) s)
  unfolding ◌>>=◌
  bind-Meets m rest s h k = continue-Meets (m s) rest h k

  module _ (F : Error → S → Type 0) where
    ended-Meets :
        (r : Result A × S) (k : Result A → Exec S B)
        → Meets R F r
        → ((a : A) (t : S) → R a t → Meets Q E (k (ok a) t))
        → ((e : Error) (t : S) → F e t → Meets Q E (k (err e) t))
        → Meets Q E (k r.0 r.1)
    ended-Meets (ok a, t) k h f g = f a t h
    ended-Meets (err e, t) k h f g = g e t h

    pub attempt-Meets :
        (m : Exec S A) (k : Result A → Exec S B) (s : S)
        → Meets R F (m s)
        → ((a : A) (t : S) → R a t → Meets Q E (k (ok a) t))
        → ((e : Error) (t : S) → F e t → Meets Q E (k (err e) t))
        → Meets Q E (attempt m k s)
    unfolding attempt
    attempt-Meets m k s h f g = ended-Meets (m s) k h f g

module _ {S B : Type 0} (Q : B → S → Type 0) (E : Error → S → Type 0) where
  pub guard-Meets :
      (b : Bool) (e : Error) (rest : Unit {0} → Exec S B) (s : S)
      → (b ≡ true → Meets Q E (rest tt s))
      → (b ≡ false → E e s)
      → Meets Q E ((guard b e >>= rest) s)
  unfolding ◌>>=◌
  guard-Meets true e rest s h k = h refl
  guard-Meets false e rest s h k = k refl

  pub modify-Meets :
      (f : S → S) (rest : Unit {0} → Exec S B) (s : S)
      → Meets Q E (rest tt (f s))
      → Meets Q E ((modify f >>= rest) s)
  unfolding ◌>>=◌
  modify-Meets f rest s h = h

  pub pure-Meets : (b : B) (s : S) → Q b s → Meets Q E (pure b s)
  unfolding pure
  pure-Meets b s h = h

  pub raise-Meets : (e : Error) (s : S) → E e s → Meets Q E (raise e s)
  unfolding raise
  raise-Meets e s h = h

  pub if-Meets :
      (test : Bool) (this that : Exec S B) (s : S)
      → (test ≡ true → Meets Q E (this s))
      → (test ≡ false → Meets Q E (that s))
      → Meets Q E ((if test then this else that) s)
  if-Meets true this that s h k = h refl
  if-Meets false this that s h k = k refl

module _ {S A B : Type 0} (Q : B → S → Type 0) (E : Error → S → Type 0) where
  pub gets-Meets :
      (f : S → A) (rest : A → Exec S B) (s : S)
      → Meets Q E (rest (f s) s)
      → Meets Q E ((gets f >>= rest) s)
  unfolding ◌>>=◌
  gets-Meets f rest s h = h

  pub or_raise-Meets :
      (o : Option A) (e : Error) (rest : A → Exec S B) (s : S)
      → ((a : A) → o ≡ some a → Meets Q E (rest a s))
      → (o ≡ none → E e s)
      → Meets Q E ((or_raise o e >>= rest) s)
  unfolding ◌>>=◌
  or_raise-Meets none e rest s h k = k refl
  or_raise-Meets (some a) e rest s h k = h a refl

module _ {S A : Type 0} (Q : A → S → Type 0) (E : Error → S → Type 0) where
  -- The last action of a block.
  pub or_raise_last :
      (o : Option A) (e : Error) (s : S)
      → ((a : A) → o ≡ some a → Q a s)
      → (o ≡ none → E e s)
      → Meets Q E (or_raise o e s)
  unfolding or_raise
  or_raise_last none e s h k = k refl
  or_raise_last (some a) e s h k = h a refl

module _ {S : Type 0} (Q : Unit {0} → S → Type 0) (E : Error → S → Type 0) where
  pub guard_last :
      (b : Bool) (e : Error) (s : S)
      → (b ≡ true → Q tt s)
      → (b ≡ false → E e s)
      → Meets Q E (guard b e s)
  unfolding guard
  guard_last true e s h k = h refl
  guard_last false e s h k = k refl

-- What a call answered, beside what is so of the state behind it.
pub answered-Meets :
    {S A : Type 0} (P : S → Type 0) (r : Result A × S)
    → P r.1
    → Meets (λ a t. (r.0 ≡ ok a) × P t) (λ e t. P t) r
answered-Meets P (ok a, s) h = (refl, h)
answered-Meets P (err e, s) h = h

kept_either_way :
    {S A : Type 0} (P : S → Type 0) (r : Result A × S) → P r.1 → Meets (λ a. P) (λ e. P) r
kept_either_way P (ok a, s) h = h
kept_either_way P (err e, s) h = h

-- An invariant that an action keeps holds on either way to end.
pub Keeps-Meets :
    {S A : Type 0} (P : S → Type 0) (m : Exec S A)
    → Keeps P m
    → (s : S) → P s
    → Meets (λ a. P) (λ e. P) (m s)
Keeps-Meets P m k s h = kept_either_way P (m s) (k.at s h)
