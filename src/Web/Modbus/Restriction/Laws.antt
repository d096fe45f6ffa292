-- ===== src/Web/Modbus/Restriction/Laws.antt =====
-- The list of hosts survives being written and read back, and the address on it is not added again.
use Prim.Native.Char.{Char, code}
use Prim.Native.String.{String, ◌++◌}
use text.Mathlib.Text.{◌==◌}
use text.Mathlib.TextLemmas.{nil-append, cons-append}
use fronius_modbus.Common
use fronius_modbus.Common.{
  ◌≡◌, refl, sym, ap, ◌∙◌, Bool, true, false, not, ◌&&◌, ◌||◌, List, [], ◌∷◌, if◌then◌else◌, All,
  arith, Bool-cases, inl, inr,
}
use fronius_modbus.Json.{bool, str, Members, get}
use fronius_modbus.Json.Laws.{get-put}
use fronius_modbus.Web.Text.{Text}
use fronius_modbus.Web.Flags.{is_enabled, flag_value}
use fronius_modbus.Web.Modbus.Restriction.{
  Networks, split, extend, nonempty, join, any_network, with_address, text_of, entries_of,
  restriction_with,
}

unfoldable pub comma_free : String → Bool
comma_free String.[] = true
comma_free (String.◌∷◌ c s) = not (Common.◌==◌ (code c) b',') && comma_free s

-- An entry of a list: it is not empty, and no separator stands in it.
abbrev pub IsEntry : String → Type 0
IsEntry w = ((w == "") ≡ false) × (comma_free w ≡ true)

split_before : (w rest : String) → comma_free w ≡ true → split (w ++ ("," ++ rest)) ≡ w ∷ split rest
unfolding split comma_free
split_before String.[] rest h =
    rw (nil-append ("," ++ rest), cons-append "," "" rest, nil-append rest)
split_before (String.◌∷◌ c w) rest h =
    rw (cons-append c w ("," ++ rest)) (ground (arith, split_before w rest))

split_alone : (w : String) → comma_free w ≡ true → split w ≡ w ∷ []
unfolding split comma_free
split_alone String.[] h = refl
split_alone (String.◌∷◌ c w) h = ground (arith, split_alone w)

kept : (w : String) (ws : List String) → (w == "") ≡ false → nonempty (w ∷ ws) ≡ w ∷ nonempty ws
unfolding nonempty
kept w ws h = rw h

-- A list of entries is read back from its text as it is.
nonempty-split-join : (es : List String) → All IsEntry es → nonempty (split (join es)) ≡ es
unfolding join
nonempty-split-join [] h = unfold split nonempty in refl
nonempty-split-join (w ∷ []) h =
    ap nonempty (split_alone w h.0.1) ∙ kept w [] h.0.0 ∙ unfold nonempty in refl
nonempty-split-join (w ∷ v ∷ ws) h =
    ap nonempty (split_before w (join (v ∷ ws)) h.0.1)
    ∙ kept w (split (join (v ∷ ws))) h.0.0
    ∙ ap (λ x. w ∷ x) (nonempty-split-join (v ∷ ws) h.1)

extend-free :
    (c : Char) (ws : List String)
    → Common.◌==◌ (code c) b',' ≡ false
    → All (λ w. comma_free w ≡ true) ws
    → All (λ w. comma_free w ≡ true) (extend c ws)
unfolding comma_free
extend-free c [] e h = (ground (arith, e), tt)
extend-free c (w ∷ ws) e h = (ground (arith, e, h.0), h.1)

split-free : (s : String) → All (λ w. comma_free w ≡ true) (split s)
unfolding split
split-free String.[] = unfold comma_free in (refl, tt)
split-free (String.◌∷◌ c s) = elim (Bool-cases (Common.◌==◌ (code c) b',')) [
  | inl e ↦ rw e (unfold comma_free in refl, split-free s)
  | inr e ↦ rw e (extend-free c (split s) e (split-free s))
]

nonempty-entries :
    (ws : List String) → All (λ w. comma_free w ≡ true) ws → All IsEntry (nonempty ws)
unfolding nonempty
nonempty-entries [] h = tt
nonempty-entries (w ∷ ws) h = elim (Bool-cases (w == "")) [
  | inl e ↦ rw e (nonempty-entries ws h.1)
  | inr e ↦ rw e ((e, h.0), nonempty-entries ws h.1)
]

module _ (t : Text) (n : Networks) (address : String) where
  entries-All : (r : Members) → All IsEntry (entries_of t r)
  unfolding entries_of
  entries-All r = elim (Bool-cases (is_enabled t (get "on" r))) [
    | inl e ↦ rw e (nonempty-entries _ (split-free (text_of t (get "ip" r))))
    | inr e ↦ rw e tt
  ]

  concat-All :
      (es : List String)
      → All IsEntry es
      → IsEntry address
      → All IsEntry (Common.◌++◌ es (address ∷ []))
  concat-All [] h a = (a, tt)
  concat-All (e ∷ es) h a = (h.0, concat-All es h.1 a)

  with_address-All :
      (es : List String)
      → All IsEntry es
      → IsEntry address
      → All IsEntry (with_address n es address)
  unfolding with_address
  with_address-All es h a = elim (Bool-cases (any_network n es address)) [
    | inl e ↦ rw e h
    | inr e ↦ rw e (concat-All es h a)
  ]

  any_network-concat :
      (es : List String)
      → n address address ≡ true
      → any_network n (Common.◌++◌ es (address ∷ [])) address ≡ true
  unfolding any_network
  any_network-concat [] h = rw h
  any_network-concat (e ∷ es) h = ground (arith, any_network-concat es h)

  -- Once the address is on the list, it is not added again.
  pub with_address_settles :
      (es : List String)
      → n address address ≡ true
      → with_address n (with_address n es address) address ≡ with_address n es address
  unfolding with_address
  with_address_settles es h = elim (Bool-cases (any_network n es address)) [
    | inl e ↦ rw (e, e)
    | inr e ↦ rw (e, any_network-concat es h)
  ]

  enabled_entries :
      (r : Members) (s : String)
      → get "on" r ≡ bool true
      → get "ip" r ≡ str s
      → entries_of t r ≡ nonempty (split s)
  unfolding entries_of is_enabled flag_value
  enabled_entries r s on ip = rw (on, ip)

  -- The entries read back from a restriction that was written.
  pub entries_back :
      (r : Members)
      → IsEntry address
      → entries_of t (restriction_with t n r address) ≡ with_address n (entries_of t r) address
  entries_back r a =
      enabled_entries (restriction_with t n r address)
        (join (with_address n (entries_of t r) address)) (unfold restriction_with in simp get-put)
        (unfold restriction_with in simp get-put)
      ∙ nonempty-split-join _ (with_address-All _ (entries-All r) a)
