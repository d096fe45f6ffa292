-- ===== src/Exec.antt =====
-- A method call that may raise: what it wrote before it raised stays written, so the state comes
-- back beside the error. The errors are those of fronius_modbus_api/exceptions.py and of the
-- libraries below it.
pub mod Keeps
pub mod Gives
pub mod Ends
pub mod Raises
pub mod Post
pub mod Meets
pub mod Stops
use fronius_modbus.Common.{ℕ, Bool, true, false, Option, none, some, if◌then◌else◌}

-- The Modbus errors that the code tells apart; `not_fronius`, `inconsistent_model`,
-- `incomplete_chain` and `left_disabled` are the device library's own. `gateway` is either of the
-- two gateway errors.
pub data ModbusError : Type 0 where
  connection timeout gateway illegal_address other : ModbusError
  not_fronius inconsistent_model incomplete_chain left_disabled : ModbusError

-- The translation keys of ControlRefused and ControlUnavailable, and of its own refusals.
pub data Key : Type 0 where
  storage_mode_left charge_limit_not_in_mode discharge_limit_not_in_mode : Key
  grid_charge_power_not_in_mode grid_discharge_power_not_in_mode : Key
  value_not_whole value_out_of_range limit_blocks_both_ways grid_power_beyond_window : Key
  ac_limit_without_max_power : Key
  web_api_not_configured web_api_auth_failed technician_not_configured : Key
  needs_manual_self_consumption needs_manual_soc_mode soc_minimum_above_maximum : Key
  soc_minimum_web_failed : Key

-- The errors of web_errors.py: no answer, an error status, a rejected login, another SunSpec model
-- type, and a local address that is not known. `malformed` is what Python raises on a configuration
-- that lacks a part, or has another shape: a KeyError, TypeError or AttributeError.
pub data WebError : Type 0 where
  unreachable auth_failed mode_change_needed no_client_ip malformed : WebError
  response : ℕ → WebError

-- `bad_value` is a ValueError or TypeError of the library; `sunspec` and `map_shift` are its
-- SunSpecError and SunSpecMapShiftError.
pub data Error : Type 0 where
  modbus : ModbusError → Error
  bad_value cancelled sunspec map_shift : Error
  refused : Key → Error
  web : WebError → Error

pub data Result {ℓ} (A : Type ℓ) : Type ℓ where
  ok : A → Result A
  err : Error → Result A

abbrev pub Exec : Type 0 → Type 0 → Type 0
Exec S A = S → Result A × S

module _ {S A : Type 0} where
  pub pure : A → Exec S A
  pure a s = (ok a, s)

  pub raise : Error → Exec S A
  raise e s = (err e, s)

  pub gets : (S → A) → Exec S A
  gets f s = (ok (f s), s)

  pub or_raise : Option A → Error → Exec S A
  or_raise none e s = (err e, s)
  or_raise (some a) e s = (ok a, s)

pub modify : {S : Type 0} → (S → S) → Exec S (Unit {0})
modify f s = (ok tt, f s)

pub guard : {S : Type 0} → Bool → Error → Exec S (Unit {0})
guard true e s = (ok tt, s)
guard false e s = (err e, s)

-- `try: return m` / `except ModbusError, ValueError, TypeError: return d`, on the result of `m`.
module _ {A : Type 0} where
  abbrev pub or_default : A → Result A → Result A
  or_default d (ok a) = ok a
  or_default d (err (modbus e)) = ok d
  or_default d (err bad_value) = ok d
  or_default d (err cancelled) = err cancelled
  or_default d (err sunspec) = err sunspec
  or_default d (err map_shift) = err map_shift
  or_default d (err (refused k)) = err (refused k)
  or_default d (err (web w)) = err (web w)

  -- `try: return m` / `except ModbusError: return d`
  abbrev pub or_default_modbus : A → Result A → Result A
  or_default_modbus d (ok a) = ok a
  or_default_modbus d (err (modbus e)) = ok d
  or_default_modbus d (err bad_value) = err bad_value
  or_default_modbus d (err cancelled) = err cancelled
  or_default_modbus d (err sunspec) = err sunspec
  or_default_modbus d (err map_shift) = err map_shift
  or_default_modbus d (err (refused k)) = err (refused k)
  or_default_modbus d (err (web w)) = err (web w)

module _ {S A : Type 0} where
  pub caught : Exec S A → A → Exec S A
  caught m d s = let (r, s') = m s in (or_default d r, s')

  pub caught_modbus : Exec S A → A → Exec S A
  caught_modbus m d s = let (r, s') = m s in (or_default_modbus d r, s')

-- Runs `m`, and hands its result to `k`, raised or not: for `try` with `else` or `finally`.
unfoldable pub attempt : {S A B : Type 0} → Exec S A → (Result A → Exec S B) → Exec S B
attempt m k s = let (r, s') = m s in k r s'

module _ {S A B : Type 0} where
  abbrev pub continue : Result A → (A → Exec S B) → Exec S B
  continue (ok a) rest s = rest a s
  continue (err e) rest s = (err e, s)

  infixl 5 ◌>>=◌ ◌>>◌
  -- Opening this opens the other actions of this file too.
  unfoldable pub ◌>>=◌ : Exec S A → (A → Exec S B) → Exec S B
  unfolding pure raise gets or_raise modify guard caught caught_modbus attempt
  ◌>>=◌ action rest s = let (r, s') = action s in continue r rest s'

  abbrev pub ◌>>◌ : Exec S A → Exec S B → Exec S B
  first >> second = first >>= λ _. second

-- An action on a part of the state.
unfoldable pub zoom : {S T A : Type 0} → (T → S) → (S → T → T) → Exec S A → Exec T A
zoom get put m t = let (r, s) = m (get t) in (r, put s t)
