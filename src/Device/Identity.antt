-- ===== src/Device/Identity.antt =====
-- Whether a unit's identity has changed: `async_identities_changed` of fronius_modbus_api/device.py.
use fronius_modbus.Common.{
  ℕ, ◌≡◌, refl, Bool, true, false, not, ◌||◌, Option, none, some, List, [], ◌∷◌, if◌then◌else◌,
}
use fronius_modbus.Exec.{Exec, Error, ModbusError, Result, ok, err, ◌>>=◌, pure, raise, attempt}
use fronius_modbus.Device.Library.{Library, Model}
use fronius_modbus.Device.State.{Device, MeterInfo}
use fronius_modbus.Device.Meters.{as_modbus_error, is_connection}

module _ {W Identity : Type 0} (l : Library W Identity) where
  -- `identity != known`, where the known one may be None
  abbrev pub differs : Identity → Option Identity → Bool
  differs i none = true
  differs i (some known) = not (l.same_identity i known)

  -- The `except` clauses of one meter.
  abbrev meter_failed : Error → Option ModbusError → Exec W Bool
  meter_failed e none = raise e
  meter_failed e (some m) = if is_connection m then raise e else pure false

  unfoldable pub meter_read : MeterInfo Identity → Result Identity → Exec W Bool
  meter_read info (ok i) = pure (differs i (some info.identity))
  meter_read info (err e) = meter_failed e (as_modbus_error l.sunspec_is_modbus e)

  -- The loop over the meters.
  unfoldable pub meters_changed : List (ℕ × MeterInfo Identity) → Exec W Bool
  meters_changed [] = pure false
  meters_changed ((u, info) ∷ ms) = do
    let rest = meters_changed ms
    changed ← attempt (l.read_identity u info.common) (meter_read info)
    if changed then pure true else rest

  -- `async_identities_changed` of a device whose common model is placed.
  unfoldable pub changed_at : Device Identity → Model → Exec W Bool
  changed_at d common = do
    i ← l.read_identity d.unit_id common
    if differs i d.identity then pure true else meters_changed d.meters

  unfoldable pub identities_changed : Device Identity → Exec W Bool
  identities_changed d = elim d.common [ none ↦ pure false | some common ↦ changed_at d common ]

  -- The meter at a unit answers, the same each time, or fails on its own account.
  abbrev pub Fails : Error → Type 0
  Fails e =
      (m : ModbusError) × (as_modbus_error l.sunspec_is_modbus e ≡ some m)
      × (is_connection m ≡ false)

  abbrev pub Answering : Result Identity → Type 0
  Answering (ok i) = Unit
  Answering (err e) = Fails e

  -- What an answer says of the identity on record: a failure says nothing.
  abbrev pub says_new : Identity → Result Identity → Bool
  says_new known (ok i) = not (l.same_identity i known)
  says_new known (err e) = false

  module _ (answer : ℕ → Model → Result Identity) where
    abbrev pub any_new : List (ℕ × MeterInfo Identity) → Bool
    any_new [] = false
    any_new ((u, info) ∷ ms) = says_new info.identity (answer u info.common) || any_new ms

    abbrev pub AllAnswer : List (ℕ × MeterInfo Identity) → Type 0
    AllAnswer [] = Unit
    AllAnswer ((u, info) ∷ ms) = Answering (answer u info.common) × AllAnswer ms

    abbrev pub Reads : Type 0
    Reads = (u : ℕ) (m : Model) (w : W) → (l.read_identity u m w).0 ≡ answer u m

    either :
        (b : Bool) (rest : Exec W Bool) (w : W) (n : Bool)
        → (rest w).0 ≡ ok n
        → ((if b then pure true else rest) w).0 ≡ ok (b || n)
    unfolding ◌>>=◌
    either true rest w n h = refl
    either false rest w n h = h

    meter_read-says :
        (info : MeterInfo Identity) (r : Result Identity) (w : W)
        → Answering r
        → meter_read info r w ≡ (ok (says_new info.identity r), w)
    unfolding meter_read ◌>>=◌
    meter_read-says info (ok i) w a = refl
    meter_read-says info (err e) w (m, p, q) = rw (p, q) refl

    meters_changed-any_new :
        (ms : List (ℕ × MeterInfo Identity)) (w : W)
        → Reads
        → AllAnswer ms
        → (meters_changed ms w).0 ≡ ok (any_new ms)
    unfolding meters_changed ◌>>=◌
    meters_changed-any_new [] w h a = refl
    meters_changed-any_new ((u, info) ∷ ms) w h a =
        rw
          (
            h u info.common w,
            meter_read-says info (answer u info.common) (l.read_identity u info.common w).1 a.0,
          )
          (either (says_new info.identity (answer u info.common)) (meters_changed ms)
            (l.read_identity u info.common w).1 (any_new ms)
            (meters_changed-any_new ms (l.read_identity u info.common w).1 h a.1))

    changed_at-news :
        (d : Device Identity) (common : Model) (i : Identity) (w : W)
        → Reads
        → AllAnswer d.meters
        → answer d.unit_id common ≡ ok i
        → (changed_at d common w).0 ≡ ok (differs i d.identity || any_new d.meters)
    unfolding changed_at ◌>>=◌
    changed_at-news d common i w h a e =
        rw (h d.unit_id common w, e)
          (either (differs i d.identity) (meters_changed d.meters)
            (l.read_identity d.unit_id common w).1 (any_new d.meters)
            (meters_changed-any_new d.meters (l.read_identity d.unit_id common w).1 h a))

    -- Where the inverter answers and each meter answers or fails on its own account, the check
    -- returns, and says yes exactly when an answer differs from what is on record, the inverter's
    -- or a meter's: a meter that fails counts as unchanged and hides no later one.
    pub identities_changed_lem :
        (d : Device Identity) (common : Model) (i : Identity) (w : W)
        → Reads
        → AllAnswer d.meters
        → d.common ≡ some common
        → answer d.unit_id common ≡ ok i
        → (identities_changed d w).0 ≡ ok (differs i d.identity || any_new d.meters)
    unfolding identities_changed changed_at
    identities_changed_lem d common i w h a c e = rw c (changed_at-news d common i w h a e)
