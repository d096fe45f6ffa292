-- ===== src/Registers.antt =====
-- Which registers already hold what a write would put there: fronius_modbus_api/writes.py, over
-- the component that the library modbus_connection gives it.
mod Interface
pub mod Laws
pub mod Simulated
pub use Interface.*
use fronius_modbus.Common.{
  ℕ, Bool, true, false, ◌&&◌, Option, none, some, List, [], ◌∷◌, ◌==◌, if◌then◌else◌, ℤ,
}
use fronius_modbus.Exec.{
  Exec, bad_value, modbus, cancelled, refused, ◌>>=◌, pure, or_raise, caught, caught_modbus, ok,
  err,
}

-- `list(words) == written`
unfoldable pub same_words : List ℕ → List ℕ → Bool
same_words [] [] = true
same_words (x ∷ xs) (y ∷ ys) = x == y && same_words xs ys
same_words _ _ = false

module _ {W F V : Type 0} (c : Component W F V) where
  -- `_scale_exponent`
  unfoldable pub scale_exponent : F → Exec W (Option ℤ)
  scale_exponent f =
      if c.has_scale f then (do w ← c.read_scale f; pure (some (c.decode_int w))) else pure none

  -- `_encoded`
  unfoldable pub encoded : F → V → Exec W (List ℕ)
  encoded f v = do e ← scale_exponent f; or_raise (c.encode f v e) bad_value

  -- The body of the loop of `registers_holding`, inside its `try`.
  unfoldable pub holds : F → V → Exec W Bool
  holds f v = do words ← c.read_words f; written ← encoded f v; pure (same_words words written)

  unfoldable pub registers_holding : List (F × V) → Exec W (List F)
  registers_holding [] = pure []
  registers_holding ((f, v) ∷ wanted) = do
    held ← caught (holds f v) false
    rest ← registers_holding wanted
    pure (if held then f ∷ rest else rest)

  unfoldable pub register_value : F → Exec W (Option V)
  register_value f =
      caught_modbus (do words ← c.read_words f; e ← scale_exponent f; pure (c.decode f words e))
        none

  -- The rest of `written_value`, once the exponent is read or its read has failed. The library
  -- encodes no value as the words of an unimplemented point, which decode to None: it raises here.
  unfoldable pub reread : F → V → Option (Option ℤ) → Exec W V
  reread f v none = pure v
  reread f v (some e) = do
    words ← or_raise (c.encode f v e) bad_value
    or_raise (c.decode f words e) bad_value

  unfoldable pub written_value : F → V → Exec W V
  written_value f v = do
    exponent ← caught_modbus (do e ← scale_exponent f; pure (some e)) none
    reread f v exponent
