-- ===== src/Registers/Laws.antt =====
-- What the library does with the registers, as far as the writers rely on it, and what writes.py
-- promises them.
use fronius_modbus.Common.{ℕ, true, Option, none, some, List, [], ◌∷◌, ◌≡◌, refl, arith, ℤ}
use fronius_modbus.Exec.{ok, ◌>>=◌}
use fronius_modbus.Exec.Keeps.{Keeps, keeps_rules, Keeps-bind, Keeps-caught_modbus}
use fronius_modbus.Registers.{
  encoded, Component, same_words, scale_exponent, encoded, holds, registers_holding, register_value,
  reread, written_value,
}

-- No read changes what `P` says of the world: what the registers hold, say.
pub record KeptByReads {W F V : Type 0} (c : Component W F V) (P : W → Type 0) : Type 0 where
  pub words : (f : F) → Keeps P (c.read_words f)
  pub scale : (f : F) → Keeps P (c.read_scale f)

pub same_words_sound : (xs ys : List ℕ) → same_words xs ys ≡ true → xs ≡ ys
unfolding same_words
same_words_sound [] [] h = refl
same_words_sound [] (y ∷ ys) h = ground arith
same_words_sound (x ∷ xs) [] h = ground arith
same_words_sound (x ∷ xs) (y ∷ ys) h = ground (arith, same_words_sound xs ys)

module _ {W F V : Type 0} (c : Component W F V) (P : W → Type 0) (k : KeptByReads c P) where
  scale_exponent-Keeps : (f : F) → Keeps P (scale_exponent c f)
  unfolding scale_exponent
  scale_exponent-Keeps f = search (keeps_rules, k.scale)

  encoded-Keeps : (f : F) (v : V) → Keeps P (encoded c f v)
  unfolding encoded
  encoded-Keeps f v = search (keeps_rules, scale_exponent-Keeps)

  holds-Keeps : (f : F) (v : V) → Keeps P (holds c f v)
  unfolding holds
  holds-Keeps f v = search (keeps_rules, k.words, encoded-Keeps)

  pub registers_holding-Keeps : (wanted : List (F × V)) → Keeps P (registers_holding c wanted)
  unfolding registers_holding
  registers_holding-Keeps [] = search keeps_rules
  registers_holding-Keeps ((f, v) ∷ wanted) =
      Keeps-bind _ _ (search (keeps_rules, holds-Keeps))
        (search (keeps_rules, registers_holding-Keeps wanted))

  pub register_value-Keeps : (f : F) → Keeps P (register_value c f)
  unfolding register_value
  register_value-Keeps f =
      Keeps-caught_modbus _ _ (search (keeps_rules, k.words, scale_exponent-Keeps))

  reread-Keeps : (f : F) (v : V) (e : Option (Option ℤ)) → Keeps P (reread c f v e)
  unfolding reread
  reread-Keeps f v none = search keeps_rules
  reread-Keeps f v (some e) = search keeps_rules

  pub written_value-Keeps : (f : F) (v : V) → Keeps P (written_value c f v)
  unfolding written_value
  written_value-Keeps f v =
      Keeps-bind _ _ (Keeps-caught_modbus _ _ (search (keeps_rules, scale_exponent-Keeps)))
        (reread-Keeps f v)

-- A register that holds what is wanted is named, and only reads were sent to find out.
pub registers_holding-held :
    {W F V : Type 0} (c : Component W F V) (f : F) (v : V) (s : W)
    → (holds c f v s).0 ≡ ok true
    → registers_holding c ((f, v) ∷ []) s ≡ (ok (f ∷ []), (holds c f v s).1)
unfolding registers_holding ◌>>=◌
registers_holding-held c f v s h = rw h refl
