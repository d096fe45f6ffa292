-- ===== src/Web/Client/Changes/Merged.antt =====
-- The fields that a write of settings sends, and what they leave in a configuration.
use Prim.Native.String.{String}
use text.Mathlib.Text.{◌==◌}
use text.Mathlib.TextEquality.{eq_iff}
use text.Mathlib.TextPositions.{eq_refl}
use mathlib.Core.Path.{subst}
use fronius_modbus.Common.{
  ◌≡◌, refl, sym, ◌∙◌, ◌⊎◌, inl, inr, Bool, true, false, ◌||◌, [], ◌∷◌, arith, All, Bool-cases,
}
use fronius_modbus.Common.{eqb_ℤ_iff}
use fronius_modbus.Json.{null, Members, get, put, put_all}
use fronius_modbus.Json.Laws.{get-put}
use fronius_modbus.Web.Configs.{is_description}
use fronius_modbus.Web.Text.{Text}
use fronius_modbus.Web.Flags.{Setting, flag, number, word, json_of, same, flag_value}
use fronius_modbus.Web.Client.{Settings, payload_of, changes_in}

-- Whether a setting has the key.
unfoldable pub named : String → Settings → Bool
named j [] = false
named j ((key, v) ∷ rest) = key == j || named j rest

-- No key twice, as in a dict, and none that is a description.
abbrev pub Once : Settings → Type 0
Once [] = Unit
Once ((key, v) ∷ rest) = ((named key rest ≡ false) × (is_description key ≡ false)) × Once rest

-- A configuration in which the inverter holds every setting.
abbrev pub Holds : Text → Settings → Members → Type 0
Holds t wanted ms = All (λ w. same t (get w.0 ms) w.1 ≡ true) wanted

-- What was read of the settings is kept, or was not answered.
abbrev pub Shown : Settings → Members → Members → Type 0
Shown wanted current ms =
    (j : String) → named j wanted ≡ true → (get j current ≡ get j ms) ⊎ (get j current ≡ null)

-- A key that is set is no description.
pub named_plain :
    (j : String) (wanted : Settings)
    → Once wanted
    → named j wanted ≡ true
    → is_description j ≡ false
unfolding named
named_plain j [] o n = absurd (cc n)
named_plain j ((key, v) ∷ rest) o n = elim (Bool-cases (key == j)) [
  | inl e ↦ subst (λ k. is_description k ≡ false) ((eq_iff key j).0 e) o.0.1
  | inr e ↦ named_plain j rest o.1 (ground (arith, e, n))
]

module _ (t : Text) where
  same-json_of : (v : Setting) → same t (json_of v) v ≡ true
  unfolding same flag_value
  same-json_of (flag true) = refl
  same-json_of (flag false) = refl
  same-json_of (number n) = ground (arith, eqb_ℤ_iff n n)
  same-json_of (word w) = eq_refl (t.casefold w)

  -- A key that no setting has keeps its value.
  pub others_kept :
      (j : String) (wanted : Settings) (current ms : Members)
      → named j wanted ≡ false
      → get j (put_all (payload_of (changes_in t wanted current)) ms) ≡ get j ms
  unfolding named changes_in payload_of put_all
  others_kept j [] current ms h = refl
  others_kept j ((key, v) ∷ rest) current ms h = ground (
    arith,
    others_kept j rest current ms,
    others_kept j rest current (put key (json_of v) ms),
    get-put key j (json_of v) ms,
  )

  same-null : (v : Setting) → same t null v ≡ false
  unfolding same
  same-null v = refl

  sent_held :
      (key : String) (v : Setting) (rest : Settings) (current ms : Members)
      → named key rest ≡ false
      → same t (get key (put_all (payload_of ((key, v) ∷ changes_in t rest current)) ms)) v ≡ true
  unfolding payload_of put_all
  sent_held key v rest current ms h = ground (
    arith,
    others_kept key rest current (put key (json_of v) ms) h,
    get-put key key (json_of v) ms,
    eq_refl key,
    same-json_of v,
  )

  rest-Shown :
      (key : String) (v : Setting) (rest : Settings) (current ms : Members)
      → named key rest ≡ false
      → Shown ((key, v) ∷ rest) current ms
      → Shown rest current (put key (json_of v) ms)
  unfolding named
  rest-Shown key v rest current ms fresh h j n =
      ground (arith, h j, get-put key j (json_of v) ms, eq_iff key j)

  held_skipped :
      (key : String) (v : Setting) (rest : Settings) (current : Members)
      → same t (get key current) v ≡ true
      → changes_in t ((key, v) ∷ rest) current ≡ changes_in t rest current
  unfolding changes_in
  held_skipped key v rest current e = rw e

  new_sent :
      (key : String) (v : Setting) (rest : Settings) (current : Members)
      → same t (get key current) v ≡ false
      → changes_in t ((key, v) ∷ rest) current ≡ (key, v) ∷ changes_in t rest current
  unfolding changes_in
  new_sent key v rest current e = rw e

  held_if_seen :
      (key : String) (v : Setting) (rest : Settings) (current ms : Members)
      → same t (get key current) v ≡ true
      → Shown ((key, v) ∷ rest) current ms
      → get key current ≡ get key ms
  unfolding named
  held_if_seen key v rest current ms e h = ground (arith, h key, eq_refl key, same-null v)

  rest_still-Shown :
      (key : String) (v : Setting) (rest : Settings) (current ms : Members)
      → Shown ((key, v) ∷ rest) current ms
      → Shown rest current ms
  unfolding named
  rest_still-Shown key v rest current ms h j n = ground (arith, h j)

  -- Once the fields that differ are merged in, every setting is held.
  pub changes-Holds :
      (wanted : Settings) (current ms : Members)
      → Once wanted
      → Shown wanted current ms
      → Holds t wanted (put_all (payload_of (changes_in t wanted current)) ms)
  unfolding payload_of put_all
  changes-Holds [] current ms once h = tt
  changes-Holds ((key, v) ∷ rest) current ms once h =
      let merged = λ (cs : Settings). Holds t ((key, v) ∷ rest) (put_all (payload_of cs) ms) in
      elim (Bool-cases (same t (get key current) v)) [
        | inl e ↦ subst merged (sym (held_skipped key v rest current e)) (
          subst (λ x. same t x v ≡ true)
              (held_if_seen key v rest current ms e h
                ∙ sym (others_kept key rest current ms once.0.0))
              e,
          changes-Holds rest current ms once.1 (rest_still-Shown key v rest current ms h),
        )
        | inr e ↦ subst merged (sym (new_sent key v rest current e)) (
          sent_held key v rest current ms once.0.0,
          changes-Holds rest current (put key (json_of v) ms) once.1
              (rest-Shown key v rest current ms once.0.0 h),
        )
      ]
