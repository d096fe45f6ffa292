-- ===== src/Web/Control/Sources.antt =====
-- What the charge sources that web_control.py implies leave on the inverter.
use fronius_modbus.Common.{
  ◌≡◌, refl, ◌⊎◌, inl, inr, Bool, true, false, not, ◌&&◌, Option, none, some, ◌++◌, arith,
}
use fronius_modbus.Exec.Meets.{Meets, weaken-Meets}
use fronius_modbus.Json.{Json, null, bool, int, str, arr, obj, Members, get}
use fronius_modbus.Web.Configs.{is_description}
use fronius_modbus.Web.Text.{Text}
use fronius_modbus.Web.Flags.{flag, same, same_flag, flag_value, is_true_flag}
use fronius_modbus.Web.Client.{Http, Settings, batteries_path}
use fronius_modbus.Web.Client.Batteries.{flag_if, set_battery_charge_sources}
use fronius_modbus.Web.Client.Changes.{Keeper, Written, Others, post_changes-Written}
use fronius_modbus.Web.Client.Changes.Merged.{named, Once, Holds}
use fronius_modbus.Web.Control.Setters.{implied_charge_sources}

module _ (t : Text) where
  of_flag : (o : Option Bool) (b : Bool) → same_flag t o b ≡ true → o ≡ some b
  of_flag o b h = ground arith

  -- A flag that counts as the one wanted reads as it.
  flag_of_same : (v : Json) (b : Bool) → same t v (flag b) ≡ true → flag_value t v ≡ some b
  unfolding same
  flag_of_same null b h = absurd (cc h)
  flag_of_same (bool x) b h = of_flag _ b h
  flag_of_same (int n) b h = of_flag _ b h
  flag_of_same (Json.float x) b h = of_flag _ b h
  flag_of_same (str s) b h = of_flag _ b h
  flag_of_same (arr xs) b h = of_flag _ b h
  flag_of_same (obj ms) b h = of_flag _ b h

  -- Charging from the grid is on only with charging from AC.
  abbrev pub ThroughAc : Members → Type 0
  ThroughAc ms =
      is_true_flag (flag_value t (get "HYB_EVU_CHARGEFROMGRID" ms))
        && not (is_true_flag (flag_value t (get "HYB_BM_CHARGEFROMAC" ms)))
      ≡ false

  grid_off :
      (ms : Members) → flag_value t (get "HYB_EVU_CHARGEFROMGRID" ms) ≡ some false → ThroughAc ms
  grid_off ms e = ground (arith, e)

  ac_on : (ms : Members) → flag_value t (get "HYB_BM_CHARGEFROMAC" ms) ≡ some true → ThroughAc ms
  ac_on ms e = ground (arith, e)

  wanted_of : Option Bool × Option Bool → Settings
  wanted_of (grid, from_ac) =
      flag_if "HYB_EVU_CHARGEFROMGRID" grid ++ flag_if "HYB_BM_CHARGEFROMAC" from_ac

  implied-Once :
      (grid from_ac : Option Bool) → Once (wanted_of (implied_charge_sources grid from_ac))
  unfolding wanted_of implied_charge_sources named is_description
  implied-Once grid (some false) = ((refl, refl), ((refl, refl), tt))
  implied-Once (some true) (some true) = ((refl, refl), ((refl, refl), tt))
  implied-Once (some true) none = ((refl, refl), ((refl, refl), tt))
  implied-Once (some false) (some true) = ((refl, refl), ((refl, refl), tt))
  implied-Once (some false) none = ((refl, refl), tt)
  implied-Once none (some true) = ((refl, refl), tt)
  implied-Once none none = tt

  -- What is held of an implied request, beside a configuration that was consistent before.
  implied-ThroughAc :
      (grid from_ac : Option Bool) (ms : Members)
      → Holds t (wanted_of (implied_charge_sources grid from_ac)) ms
      → ((grid ≡ none) × (from_ac ≡ none)) ⊎ ThroughAc ms
  unfolding wanted_of implied_charge_sources
  implied-ThroughAc grid (some false) ms h = inr (grid_off ms (flag_of_same _ false h.0))
  implied-ThroughAc (some true) (some true) ms h = inr (ac_on ms (flag_of_same _ true h.1.0))
  implied-ThroughAc (some true) none ms h = inr (ac_on ms (flag_of_same _ true h.1.0))
  implied-ThroughAc (some false) (some true) ms h = inr (grid_off ms (flag_of_same _ false h.0))
  implied-ThroughAc (some false) none ms h = inr (grid_off ms (flag_of_same _ false h.0))
  implied-ThroughAc none (some true) ms h = inr (ac_on ms (flag_of_same _ true h.0))
  implied-ThroughAc none none ms h = inl (refl, refl)

module _ {W : Type 0} (h : Http W) (k : Keeper h batteries_path) (t : Text) where
  -- On an inverter that keeps its battery configuration, a request for charge sources that returns
  -- leaves no grid charging without AC charging, whatever the configuration was before; only a
  -- request that names neither leaves what was there.
  pub implied_sources-ThroughAc :
      (grid from_ac : Option Bool) (s : W)
      → Meets
          (λ b u. ((grid ≡ none) × (from_ac ≡ none)) ⊎ ThroughAc t (k.view u))
          (λ e u. Unit)
          (set_battery_charge_sources h t
            (implied_charge_sources grid from_ac).0
            (implied_charge_sources grid from_ac).1
            s)
  unfolding set_battery_charge_sources
  implied_sources-ThroughAc grid from_ac s =
      let wanted = wanted_of t (implied_charge_sources grid from_ac) in
      weaken-Meets (Written h batteries_path k t wanted (k.view s))
        (λ b u. ((grid ≡ none) × (from_ac ≡ none)) ⊎ ThroughAc t (k.view u))
        (λ e. Others h batteries_path k t wanted (k.view s)) (λ e u. Unit) _
        (λ b u w. implied-ThroughAc t grid from_ac (k.view u) w.0) (λ e u w. tt)
        (unfold wanted_of in
          post_changes-Written h batteries_path k t wanted (implied-Once t grid from_ac) s)
