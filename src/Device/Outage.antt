-- ===== src/Device/Outage.antt =====
-- When a poll of FroniusInverter (fronius_modbus_api/device.py) raises what a read met.
use mathlib.Core.Path.{subst}
use fronius_modbus.Common.{
  ◌≡◌, ◌⊎◌, inl, inr, refl, ◌∙◌, sym, Bool, true, false, ◌||◌, ◌&&◌, not, Option, none, some, List,
  [], ◌∷◌, ◌++◌, Float, arith, Bool-cases,
}
use fronius_modbus.Exec.{Error, ModbusError, Result, ok, err, ◌>>=◌}
use fronius_modbus.Exec.Gives.{Gives, Gives-bind, Gives-attempt, Gives-pure, Gives-raise, Gives-any}
use fronius_modbus.Exec.Raises.{
  Raises, Raises-pure, Raises-gets, Raises-raise, Raises-bind, Raises-attempt, continue-err,
}
use fronius_modbus.Device.Library.{Library, Name}
use fronius_modbus.Device.State.{UpdateReport, set_failed, is_discovery}
use fronius_modbus.Device.Meters.{as_modbus_error, is_connection}
use fronius_modbus.Device.Poll.{
  file_read, file_error, update_component, update_components, any_failed, is_timeout,
  nothing_answered, is_empty,
}

any_failed-set_failed :
    (n : Name) (e : ModbusError) (fs : List (Name × ModbusError))
    → is_discovery n ≡ false
    → any_failed (set_failed n e fs) ≡ true
any_failed-set_failed n e [] h = rw h refl
any_failed-set_failed n e ((k, f) ∷ fs) h = ground (arith, any_failed-set_failed n e fs h)

-- The report holds an answer, or a failure, of a sub-system.
abbrev pub Answered : UpdateReport → Type 0
Answered r = nothing_answered r ≡ false

appended-Answered : (ns : List Name) (n : Name) (b : Bool) → (is_empty (ns ++ n ∷ []) && b) ≡ false
appended-Answered [] n b = refl
appended-Answered (k ∷ ns) n b = refl

or_cases : (a b c : Bool) → (a || (b && c)) ≡ true → (a ≡ true) ⊎ ((b ≡ true) × (c ≡ true))
or_cases a b c h = ground arith

failed-Answered : (a b : Bool) → b ≡ true → (a && not b) ≡ false
failed-Answered a b h = ground arith

-- Names other than the chain's own note
abbrev pub AllRead : List Name → Type 0
AllRead [] = Unit
AllRead (n ∷ ns) = (is_discovery n ≡ false) × AllRead ns

module _ {W Identity : Type 0} (l : Library W Identity) where
  file_error-Answered :
      (n : Name) (r : UpdateReport) (x : Error) (o : Option ModbusError)
      → is_discovery n ≡ false
      → Gives {S = W} Answered (file_error l n r x o)
  unfolding file_error
  file_error-Answered n r x none d = Gives-raise x Answered
  file_error-Answered n r x (some m) d =
      elim (Bool-cases (is_connection m || (is_timeout m && nothing_answered r))) [
        | inl h ↦ rw h (Gives-raise x Answered)
        | inr h ↦
            rw h
              (Gives-pure _ Answered (failed-Answered _ _ (any_failed-set_failed n m r.failed d)))
      ]

  file_read-Answered :
      (n : Name) (started : Float) (r : UpdateReport) (a : Result (Unit {0}))
      → is_discovery n ≡ false
      → Gives Answered (file_read l n started r a)
  unfolding file_read
  file_read-Answered n started r (ok u) d =
      Gives-bind _ _ (λ b. Unit {0}) _ (Gives-any _)
        (λ b _. Gives-pure _ Answered (appended-Answered r.updated n _))
  file_read-Answered n started r (err x) d = file_error-Answered n r x _ d

  update_component-Answered :
      (n : Name) (r : UpdateReport)
      → is_discovery n ≡ false
      → Gives Answered (update_component l n r)
  unfolding update_component
  update_component-Answered n r d =
      Gives-bind _ _ (λ b. Unit {0}) _ (Gives-any _)
        λ started _.
          Gives-attempt _ _ (λ u. Unit {0}) _ (Gives-any _)
            (λ a _. file_read-Answered n started r a d)

  -- What a read may raise, on the report so far: no Modbus error, a lost connection, or a timeout
  -- before anything answered.
  abbrev pub MayRaise : UpdateReport → Error → Type 0
  MayRaise r e =
      (m : ModbusError)
      → as_modbus_error l.sunspec_is_modbus e ≡ some m
      → (is_connection m ≡ true) ⊎ ((is_timeout m ≡ true) × (nothing_answered r ≡ true))

  file_error-MayRaise :
      (n : Name) (r : UpdateReport) (x : Error) (o : Option ModbusError)
      → as_modbus_error l.sunspec_is_modbus x ≡ o
      → Raises {S = W} (MayRaise r) (file_error l n r x o)
  unfolding file_error
  file_error-MayRaise n r x none p = Raises-raise (MayRaise r) x (λ m q. cc (p, q))
  file_error-MayRaise n r x (some k) p =
      elim (Bool-cases (is_connection k || (is_timeout k && nothing_answered r))) [
        | inl h ↦ rw h (Raises-raise (MayRaise r) x (λ m q. may_raise k m (sym p ∙ q) h))
        | inr h ↦ rw h (Raises-pure (MayRaise r) _)
      ]
    where
      may_raise :
          (k m : ModbusError)
          → some k ≡ some m
          → (is_connection k || (is_timeout k && nothing_answered r)) ≡ true
          → (is_connection m ≡ true) ⊎ ((is_timeout m ≡ true) × (nothing_answered r ≡ true))
      may_raise k m q h =
          subst
            (λ y. (is_connection y ≡ true) ⊎ ((is_timeout y ≡ true) × (nothing_answered r ≡ true)))
            {x = k} (cc q) (or_cases _ _ _ h)

  file_read-MayRaise :
      (n : Name) (started : Float) (r : UpdateReport) (a : Result (Unit {0}))
      → Raises (MayRaise r) (file_read l n started r a)
  unfolding file_read
  file_read-MayRaise n started r (ok u) =
      Raises-bind _ (λ b. Unit {0}) _ _ (Raises-gets _ _) (Gives-any _)
        (λ b _. Raises-pure (MayRaise r) _)
  file_read-MayRaise n started r (err x) = file_error-MayRaise n r x _ refl

  update_component-MayRaise :
      (n : Name) (r : UpdateReport) → Raises (MayRaise r) (update_component l n r)
  unfolding update_component
  update_component-MayRaise n r =
      Raises-bind _ (λ b. Unit {0}) _ _ (Raises-gets _ _) (Gives-any _)
        λ started _. Raises-attempt _ _ _ (file_read-MayRaise n started r)

  -- On a report that holds an answer, only these are left.
  abbrev Lost : Error → Type 0
  Lost e =
      (m : ModbusError) → as_modbus_error l.sunspec_is_modbus e ≡ some m → is_connection m ≡ true

  MayRaise-Lost : (r : UpdateReport) (e : Error) → Answered r → MayRaise r e → Lost e
  MayRaise-Lost r e h k m p = elim (k m p) [ inl c ↦ c | inr (t, a) ↦ absurd (cc (h, a)) ]

  update_components-Lost :
      (ns : List Name) (r : UpdateReport)
      → AllRead ns
      → Answered r
      → Raises Lost (update_components l ns r)
  unfolding update_components
  update_components-Lost [] r d h = Raises-pure Lost r
  update_components-Lost (n ∷ ns) r d h =
      Raises-bind _ Answered _ _
        (record { at = λ s e p. MayRaise-Lost r e h ((update_component-MayRaise n r).at s e p) })
        (update_component-Answered n r d.0) (λ q k. update_components-Lost ns q d.1 k)

  -- A Modbus error that the reads of a poll raise, none of which has the name of the chain's own
  -- note, is a lost connection, or the error of the very first of them: a timeout, with no
  -- sub-system on the report yet. Once one has answered or failed, no silent or refusing
  -- sub-system ends the poll.
  pub raised_by_first_read :
      (n : Name) (ns : List Name) (r : UpdateReport) (w : W) (e : Error) (m : ModbusError)
      → AllRead (n ∷ ns)
      → (update_components l (n ∷ ns) r w).0 ≡ err e
      → as_modbus_error l.sunspec_is_modbus e ≡ some m
      → (is_connection m ≡ true)
        ⊎ (((update_component l n r w).0 ≡ err e)
            × (is_timeout m ≡ true)
            × (nothing_answered r ≡ true))
  unfolding update_components ◌>>=◌
  raised_by_first_read n ns r w e m d p q =
      let step = update_component l n r w in
      elim (continue-err step.0 (λ r'. update_components l ns r') step.1 e p) [
        | inl x ↦ elim ((update_component-MayRaise n r).at w e x m q) [
          | inl c ↦ inl c
          | inr (t, a) ↦ inr (x, t, a)
        ]
        | inr (r', x, y) ↦ inl (
            (update_components-Lost ns r' d.1 ((update_component-Answered n r d.0).at w r' x)).at
              step.1 e y m q)
      ]
