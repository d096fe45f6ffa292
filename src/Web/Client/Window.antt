-- ===== src/Web/Client/Window.antt =====
-- The SoC window: what `check_soc_window` and `set_soc_limits` of froniuswebclient.py promise.
use Prim.Native.String.{String}
use mathlib.Core.Path.{subst}
use fronius_modbus.Common.{
  ◌≡◌, refl, sym, ap, ◌⊎◌, inl, inr, Bool, true, false, not, ◌&&◌, Option, none, some, ℤ, arith,
}
use fronius_modbus.Exec.{Error}
use fronius_modbus.Exec.Meets.{Meets, bind-Meets, guard-Meets, pure-Meets, weaken-Meets}
use fronius_modbus.Json.{Json, Members, get}
use fronius_modbus.Web.Configs.{is_description}
use fronius_modbus.Web.Text.{Text}
use fronius_modbus.Web.Flags.{is_number}
use fronius_modbus.Web.Client.{Http, batteries_path, post_changes_to}
use fronius_modbus.Web.Client.Batteries.{
  or_held, is_above, check_soc_window, soc_limits, set_soc_limits,
}
use fronius_modbus.Web.Client.Changes.{
  Keeper, Same, Reads, Others, Written, get_config-Meets, post_changes_to-Meets,
}
use fronius_modbus.Web.Client.Changes.Merged.{named, Once, named_plain}

-- The limits asked for, with the other as a configuration has it, are numbers and no lower limit
-- lies above the upper one.
pub record Fits (t : Text) (soc_min soc_max : Option ℤ) (ms : Members) : Type 0 where
  pub numbers :
      is_number (or_held soc_min "BAT_M0_SOC_MIN" ms)
        && is_number (or_held soc_max "BAT_M0_SOC_MAX" ms)
      ≡ true
  pub ordered :
      is_above t (or_held soc_min "BAT_M0_SOC_MIN" ms) (or_held soc_max "BAT_M0_SOC_MAX" ms) ≡ false

limits-Once : (soc_min soc_max : Option ℤ) → Once (soc_limits soc_min soc_max)
unfolding soc_limits named is_description
limits-Once none none = tt
limits-Once none (some b) = ((refl, refl), tt)
limits-Once (some a) none = ((refl, refl), tt)
limits-Once (some a) (some b) = ((refl, refl), ((refl, refl), tt))

or_held_of :
    (o : Option ℤ) (key : String) (ms ms' : Members)
    → (o ≡ none → get key ms ≡ get key ms')
    → or_held o key ms ≡ or_held o key ms'
or_held_of none key ms ms' h = h refl
or_held_of (some n) key ms ms' h = refl

fit_moved :
    (t : Text) (soc_min soc_max : Option ℤ) (ms ms' : Members)
    → or_held soc_min "BAT_M0_SOC_MIN" ms ≡ or_held soc_min "BAT_M0_SOC_MIN" ms'
    → or_held soc_max "BAT_M0_SOC_MAX" ms ≡ or_held soc_max "BAT_M0_SOC_MAX" ms'
    → Fits t soc_min soc_max ms
    → Fits t soc_min soc_max ms'
fit_moved t soc_min soc_max ms ms' lower upper f = record {
  numbers =
      subst (λ x. is_number x && is_number (or_held soc_max "BAT_M0_SOC_MAX" ms') ≡ true) lower
        (subst (λ y. is_number (or_held soc_min "BAT_M0_SOC_MIN" ms) && is_number y ≡ true) upper
          f.numbers);
  ordered =
      subst (λ x. is_above t x (or_held soc_max "BAT_M0_SOC_MAX" ms') ≡ false) lower
        (subst (λ y. is_above t (or_held soc_min "BAT_M0_SOC_MIN" ms) y ≡ false) upper f.ordered);
}

named_min :
    (soc_max : Option ℤ) {o : Option ℤ}
    → o ≡ none
    → named "BAT_M0_SOC_MIN" (soc_limits o soc_max) ≡ false
unfolding named soc_limits
named_min none e = rw e refl
named_min (some b) e = rw e refl

named_max :
    (soc_min : Option ℤ) {o : Option ℤ}
    → o ≡ none
    → named "BAT_M0_SOC_MAX" (soc_limits soc_min o) ≡ false
unfolding named soc_limits
named_max none e = rw e refl
named_max (some b) e = rw e refl

unnamed_kept : {b : Bool} {v w : Json} → b ≡ false → (b ≡ true) ⊎ (v ≡ w) → v ≡ w
unnamed_kept e (inl x) = cc (e, x)
unnamed_kept e (inr p) = p

module _ {W : Type 0} (h : Http W) (k : Keeper h batteries_path) (t : Text) where
  module _ (soc_min soc_max : Option ℤ) where
    fit_read :
        (read ms : Members)
        → ((key : String) → is_description key ≡ false → get key read ≡ get key ms)
        → is_number (or_held soc_min "BAT_M0_SOC_MIN" read)
            && is_number (or_held soc_max "BAT_M0_SOC_MAX" read)
          ≡ true
        → not (
            is_above t
              (or_held soc_min "BAT_M0_SOC_MIN" read)
              (or_held soc_max "BAT_M0_SOC_MAX" read))
          ≡ true
        → Fits t soc_min soc_max ms
    unfolding is_description
    fit_read read ms e n a =
        fit_moved t soc_min soc_max read ms
          (or_held_of soc_min "BAT_M0_SOC_MIN" read ms (λ _. e "BAT_M0_SOC_MIN" refl))
          (or_held_of soc_max "BAT_M0_SOC_MAX" read ms (λ _. e "BAT_M0_SOC_MAX" refl))
          (record { numbers = n; ordered = ground (arith, a) })

    abbrev Checked : Members → Members → W → Type 0
    Checked ms read s = Reads h batteries_path k ms read s × Fits t soc_min soc_max ms

    -- A window that would be inverted, or cannot be read, is refused, and nothing is changed.
    check_soc_window-Meets :
        (s : W)
        → Meets
            (Checked (k.view s))
            (λ e. Same h batteries_path k (k.view s))
            (check_soc_window h t soc_min soc_max s)
    unfolding check_soc_window
    check_soc_window-Meets s =
        let ms = k.view s in
        let Q = Checked ms in
        let E = λ (e : Error). Same h batteries_path k ms in
        bind-Meets (Reads h batteries_path k ms) Q E _ _ s (get_config-Meets h batteries_path k s)
          λ read u r.
            guard-Meets Q E _ _ _ u
              (λ n.
                guard-Meets Q E _ _ _ u (λ a. pure-Meets Q E read u (r, fit_read read ms r.1 n a))
                  (λ _. r.0))
              (λ _. r.0)

  -- What a write of limits leaves: they are held, and the window with them is not inverted.
  abbrev pub Limited : Option ℤ → Option ℤ → Members → Bool → W → Type 0
  Limited soc_min soc_max ms b s =
      Written h batteries_path k t (soc_limits soc_min soc_max) ms b s
      × Fits t soc_min soc_max (k.view s)

  kept_Fits :
      (soc_min soc_max : Option ℤ) (ms : Members) (s : W)
      → Fits t soc_min soc_max ms
      → Others h batteries_path k t (soc_limits soc_min soc_max) ms s
      → Fits t soc_min soc_max (k.view s)
  kept_Fits soc_min soc_max ms s f o =
      fit_moved t soc_min soc_max ms (k.view s)
        (or_held_of soc_min "BAT_M0_SOC_MIN" ms (k.view s)
          (λ e. sym (unnamed_kept (named_min soc_max e) (o "BAT_M0_SOC_MIN"))))
        (or_held_of soc_max "BAT_M0_SOC_MAX" ms (k.view s)
          (λ e. sym (unnamed_kept (named_max soc_min e) (o "BAT_M0_SOC_MAX"))))
        f

  -- On an inverter that keeps its battery configuration, a write of SoC limits that returns leaves
  -- the limits asked for held and a window that is not inverted, the other limit being the one the
  -- inverter held at the write; whether it returns or raises, nothing else is changed.
  pub set_soc_limits-Limited :
      (soc_min soc_max : Option ℤ) (s : W)
      → Meets
          (Limited soc_min soc_max (k.view s))
          (λ e. Others h batteries_path k t (soc_limits soc_min soc_max) (k.view s))
          (set_soc_limits h t soc_min soc_max s)
  unfolding set_soc_limits
  set_soc_limits-Limited soc_min soc_max s =
      let ms = k.view s in
      let wanted = soc_limits soc_min soc_max in
      let E = λ (e : Error). Others h batteries_path k t wanted ms in
      bind-Meets (Checked soc_min soc_max ms) (Limited soc_min soc_max ms) E _ _ s
        (weaken-Meets (Checked soc_min soc_max ms) (Checked soc_min soc_max ms)
          (λ e. Same h batteries_path k ms) E _ (λ c u g. g) (λ e u g j. inr (ap (get j) g))
          (check_soc_window-Meets soc_min soc_max s))
        λ read u r.
          weaken-Meets (Written h batteries_path k t wanted ms) (Limited soc_min soc_max ms) E E _
            (λ b v w. (w, kept_Fits soc_min soc_max ms v r.1 w.1)) (λ e v w. w)
            (subst
              (λ m.
                Meets (Written h batteries_path k t wanted m)
                  (λ e. Others h batteries_path k t wanted m)
                  (post_changes_to h t batteries_path wanted read u))
              r.0.0
              (post_changes_to-Meets h batteries_path k t wanted (limits-Once soc_min soc_max) read
                u
                (λ j n. inl (
                  subst (λ m. get j read ≡ get j m) (sym r.0.0)
                    (r.0.1 j (named_plain j wanted (limits-Once soc_min soc_max) n))))))
