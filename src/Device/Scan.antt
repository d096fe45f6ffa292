-- ===== src/Device/Scan.antt =====
-- `_scan` and `_scan_until_refused` of fronius_modbus_api/device.py.
pub mod Walk
use fronius_modbus.Common.{
  ℕ, zero, suc, ◌+◌, Bool, true, false, Option, none, some, List, [], ◌∷◌, ◌++◌, ◌==◌,
  if◌then◌else◌,
}
use fronius_modbus.Exec.{
  Exec, Error, modbus, illegal_address, not_fronius, bad_value, cancelled, sunspec, map_shift,
  refused, Result, ok, err, ◌>>=◌, pure, raise, attempt, connection, timeout, gateway, other,
  inconsistent_model, incomplete_chain, left_disabled, ModbusError,
}
use fronius_modbus.Device.Library.{Library, Chain, Model}

abbrev pub common_model_id : ℕ
common_model_id = 1

abbrev pub sunspec_base_address : ℕ
sunspec_base_address = 40000

abbrev pub marker_words : ℕ
marker_words = 2

abbrev pub end_model_id : ℕ
end_model_id = 0xFFFF

abbrev pub maximum_models : ℕ
maximum_models = 64

-- `chain.setdefault(model_id, []).append(model)`
unfoldable pub append_model : Model → Chain → Chain
append_model m [] = (m.model_id, m ∷ []) ∷ []
append_model m ((k, ms) ∷ chain) =
    if k == m.model_id then (k, ms ++ m ∷ []) ∷ chain else (k, ms) ∷ append_model m chain

abbrev pub is_illegal_address : Error → Bool
is_illegal_address (modbus illegal_address) = true
is_illegal_address _ = false

abbrev pub is_sunspec : Error → Bool
is_sunspec sunspec = true
is_sunspec _ = false

-- `except IllegalDataAddressError: return chain`
abbrev pub stopped : Chain → Error → Result Chain
stopped chain e = if is_illegal_address e then ok chain else err e

module _ {W Identity : Type 0} (l : Library W Identity) (unit : ℕ) where
  -- The loop of `_scan_until_refused`, on the rounds that are left: a refusal, the end marker or
  -- the last round ends it, and any other error is raised.
  unfoldable pub walk : ℕ → ℕ → Chain → Exec W Chain
  walk zero address chain s = (ok chain, s)
  walk (suc rounds) address chain s =
      let (r, s') = l.read_header unit address s in
      elim r [
        | ok (model_id, length) ↦
            let model : Model = record {
              model_id = model_id;
              address = address;
              length = length;
            } in
            let rest = walk rounds (address + l.span model) (append_model model chain) s' in
            if model_id == end_model_id then (ok chain, s') else rest
        | err e ↦ (stopped chain e, s')
      ]

  unfoldable pub scan_until_refused : Exec W Chain
  unfolding walk
  scan_until_refused = walk maximum_models (sunspec_base_address + marker_words) []

  -- The chain of a refused scan, kept if it names a Fronius at all.
  unfoldable pub scan_refused : Exec W (Chain × Bool)
  scan_refused = do
    chain ← scan_until_refused
    elim (l.first chain (common_model_id ∷ [])) [
      | none ↦ raise (modbus illegal_address)
      | some _ ↦ pure (chain, false)
    ]

  -- `_scan` from the result of the library's scan on.
  unfoldable pub after_scan : Result Chain → Exec W (Chain × Bool)
  after_scan (ok chain) = elim (l.first chain (common_model_id ∷ [])) [
    | none ↦ raise (modbus not_fronius)
    | some _ ↦ pure (chain, true)
  ]
  after_scan (err e) =
      if is_illegal_address e
      then scan_refused
      else if is_sunspec e
      then raise (modbus not_fronius)
      else raise e

  -- `_scan`
  unfoldable pub scan_unit : Exec W (Chain × Bool)
  scan_unit = attempt (l.scan unit) after_scan
