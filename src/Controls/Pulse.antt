-- ===== src/Controls/Pulse.antt =====
-- What the enable pulse of fronius_modbus_api/controls.py promises of a limit that is live.
use mathlib.Core.Path.{subst}
use fronius_modbus.Common.{◌≡◌, refl, Bool, true, false, List, [], ◌∷◌, Float}
use fronius_modbus.Exec.{
  Exec, Error, modbus, left_disabled, continue, bad_value, cancelled, sunspec, map_shift, refused,
  web, Result, ok, err, ◌>>=◌, pure, raise, attempt,
}
use fronius_modbus.Exec.Keeps.{Keeps, Keeps-gets, Keeps-pure}
use fronius_modbus.Registers.{Value, int, float, holds}
use fronius_modbus.Registers.Laws.{KeptByReads, registers_holding-Keeps, registers_holding-held}
use fronius_modbus.Controls.{
  Outside, Field, restored, restore_enable, pulse, after_pulse, write_enabled, write_unless_held,
  write_with_pulse,
}

-- The write that switches a control on: it does, or it ends in a Modbus error.
abbrev pub TurnsOn : {W : Type 0} → (W → Type 0) → Result (Unit {0}) × W → Type 0
TurnsOn On (ok u, s) = On s
TurnsOn On (err (modbus e), s) = Unit
TurnsOn On (err _, s) = ⊥

-- How an action may end that finds a control on: the control is on, or the error says it is not.
abbrev pub StaysOn : {W A : Type 0} → (W → Type 0) → Result A × W → Type 0
StaysOn On (ok a, s) = On s
StaysOn On (err (modbus left_disabled), s) = Unit
StaysOn On (err _, s) = On s

module _ {W A : Type 0} (On : W → Type 0) where
  stays : (r : Result A × W) → On r.1 → StaysOn On r
  stays (ok a, t) h = h
  stays (err (modbus left_disabled), t) h = tt
  stays (err (modbus _), t) h = h
  stays (err _, t) h = h

  -- The control is on once the action has returned.
  abbrev pub Ends : Result A × W → Type 0
  Ends (ok a, s) = On s
  Ends (err e, s) = Unit

module _ {W A B : Type 0} (On : W → Type 0) where
  continue-Ends :
      (r : Result A × W) (f : A → Exec W B)
      → ((a : A) (s : W) → Ends On (f a s))
      → Ends On (continue r.0 f r.1)
  continue-Ends (ok a, s) f h = h a s
  continue-Ends (err e, s) f h = tt

  bind-Ends :
      (m : Exec W A) (f : A → Exec W B) (s : W)
      → ((a : A) (t : W) → Ends On (f a t))
      → Ends On ((m >>= f) s)
  unfolding ◌>>=◌
  bind-Ends m f s h = continue-Ends (m s) f h

  continue-StaysOn :
      (r : Result A × W) (f : A → Exec W B)
      → On r.1
      → ((a : A) (s : W) → On s → StaysOn On (f a s))
      → StaysOn On (continue r.0 f r.1)
  continue-StaysOn (ok a, s) f h k = k a s h
  continue-StaysOn (err e, s) f h k = stays {A = B} On (err e, s) h

  bind-StaysOn :
      (m : Exec W A) (f : A → Exec W B)
      → Keeps On m
      → ((a : A) (s : W) → On s → StaysOn On (f a s))
      → (s : W) → On s
      → StaysOn On ((m >>= f) s)
  unfolding ◌>>=◌
  bind-StaysOn m f k kf s h = continue-StaysOn (m s) f (k.at s h) kf

module _ {W : Type 0} (o : Outside W) (enable value : Field) (On : W → Type 0) where
  -- What is relied on: reading and writing the value do not switch the control off.
  pub record Switch : Type 0 where
    pub reads : KeptByReads o.component On
    pub update : Keeps On o.component.update
    pub write_value : (v : Value) → Keeps On (o.component.write value v)
    pub turns_on : (s : W) → TurnsOn On (o.component.write enable (int 1) s)

  module _ (l : Switch) where
    TurnsOn-Ends : (r : Result (Unit {0}) × W) → TurnsOn On r → Ends On r
    TurnsOn-Ends (ok u, s) h = h
    TurnsOn-Ends (err e, s) h = tt

    pulse-Ends : (v : Float) (s : W) → Ends On (pulse o enable value v s)
    unfolding pulse
    pulse-Ends v s =
        bind-Ends On _ _ s
          λ _ t. bind-Ends On _ _ t λ _ u. bind-Ends On _ _ u λ _ w. TurnsOn-Ends _ (l.turns_on w)

    -- The error of the pulse is raised again behind a write that switched the control on.
    reraise-StaysOn :
        (i : Bool) (r : Result (Unit {0}) × W) (e : Error)
        → TurnsOn On r
        → StaysOn {A = Bool} On
            (continue (restored o i r.0 r.1).0 (λ _. raise e) (restored o i r.0 r.1).1)
    unfolding restored ◌>>=◌
    reraise-StaysOn i (ok u, s) e h = stays {A = Bool} On (err e, s) h
    reraise-StaysOn i (err (modbus m), s) e h = tt
    reraise-StaysOn i (err bad_value, s) e h = absurd h
    reraise-StaysOn i (err cancelled, s) e h = absurd h
    reraise-StaysOn i (err sunspec, s) e h = absurd h
    reraise-StaysOn i (err map_shift, s) e h = absurd h
    reraise-StaysOn i (err (refused k), s) e h = absurd h
    reraise-StaysOn i (err (web x), s) e h = absurd h

    after_pulse-StaysOn :
        (r : Result (Unit {0}) × W) → Ends On r → StaysOn On (after_pulse o enable r.0 r.1)
    unfolding after_pulse restore_enable ◌>>=◌
    after_pulse-StaysOn (ok u, s) h = h
    after_pulse-StaysOn (err e, s) h =
        reraise-StaysOn (o.interrupted s) (o.component.write enable (int 1) s) e (l.turns_on s)

    write_enabled-StaysOn :
        (v : Float) (was : Bool) (s : W) → On s → StaysOn On (write_enabled o enable value v was s)
    unfolding write_enabled attempt
    write_enabled-StaysOn v true s h =
        after_pulse-StaysOn (pulse o enable value v s) (pulse-Ends v s)
    write_enabled-StaysOn v false s h =
        bind-StaysOn On _ _ (l.write_value (float v))
          (λ _ t k. stays On (pure false t) ((Keeps-pure {P = On} false).at t k)) s h

    write_unless_held-StaysOn :
        (v : Float) (holding : List Field) (s : W)
        → On s
        → StaysOn On (write_unless_held o enable value v holding s)
    unfolding write_unless_held
    write_unless_held-StaysOn v [] s h =
        bind-StaysOn On _ _ (Keeps-gets _) (λ p t k. write_enabled-StaysOn v _ t k) s h
    write_unless_held-StaysOn v (f ∷ fs) s h =
        stays On (pure false s) ((Keeps-pure {P = On} false).at s h)

    -- A control that is live when its value is written is live when the write has ended, however
    -- it ended: returned, failed at any of its transactions, or was cancelled. The one exception
    -- says so: it raises ControlLeftDisabledError. Reads and writes of the value are relied on to
    -- leave the control on, and the write of its flag to switch it on or end in a Modbus error.
    pub write_with_pulse-StaysOn :
        (v : Float) (s : W) → On s → StaysOn On (write_with_pulse o enable value v s)
    unfolding write_with_pulse
    write_with_pulse-StaysOn v = bind-StaysOn On _ _ l.update λ _.
        bind-StaysOn On _ _ (registers_holding-Keeps o.component On l.reads _)
          λ holding. write_unless_held-StaysOn v holding

module _ {W : Type 0} (o : Outside W) (enable value : Field) (P : W → Type 0) where
  -- A write of the value that the register already holds, once the refresh and the comparison were
  -- answered, changes nothing that reads leave alone, the enable flag and the writes sent included,
  -- and reports that it did not pulse.
  held_value_untouched :
      (v : Float) (s : W)
      → KeptByReads o.component P
      → Keeps P o.component.update
      → (o.component.update s).0 ≡ ok tt
      → (holds o.component value (float v) (o.component.update s).1).0 ≡ ok true
      → P s
      → ((write_with_pulse o enable value v s).0 ≡ ok false)
        × P (write_with_pulse o enable value v s).1
  unfolding write_with_pulse write_unless_held ◌>>=◌
  held_value_untouched v s k u e h p =
      let s' = (o.component.update s).1 in
      let q = (registers_holding-Keeps o.component P k ((value, float v) ∷ [])).at s' (u.at s p) in
      let found = registers_holding-held o.component value (float v) s' h in
      rw (e, found) (refl, subst (λ r. P r.1) found q)
