-- ===== src/Web/Control/SocLimits/Laws.antt =====
-- What `apply_soc_minimum` of web_control.py promises of the minimum that Modbus holds.
use mathlib.Core.Path.{subst}
use fronius_modbus.Common.{
  ◌≡◌, refl, sym, ◌⊎◌, inl, inr, Bool, true, false, ◌&&◌, none, some, ℤ, if◌then◌else◌, Bool-cases,
}
use fronius_modbus.Exec.{Exec, Error, err, ◌>>=◌}
use fronius_modbus.Exec.Stops.{Fails, error_of, bind_stops}
use fronius_modbus.Web.Control.Login.{web_job-Fails}
use fronius_modbus.Web.Client.Batteries.{check_soc_window}
use fronius_modbus.Web.Control.{Site, WebControl, soc_mode_is_manual}
use fronius_modbus.Web.Control.Jobs.{web_job, on_bus}
use fronius_modbus.Web.Control.Setters.{check_soc_range, in_soc_range}
use fronius_modbus.Web.Control.SocLimits.{apply_soc_minimum, apply_both}

module _ {W : Type 0} (site : Site W) (soc_min : ℤ) (s : WebControl W) where
  -- The window check that is made before Modbus is written.
  abbrev pub Refused : Type 0
  Refused =
      (in_soc_range (some soc_min) none ≡ false)
      ⊎ ((e : Error) × ((check_soc_window site.client site.words (some soc_min) none s.bus).0
            ≡ err e))

  module _ (write other : Exec W (Unit {0})) where
    out_of_range :
        in_soc_range (some soc_min) none ≡ false
        → (apply_both site soc_min write s ≡ apply_both site soc_min other s)
          × Fails (apply_both site soc_min write s)
    unfolding apply_both
    out_of_range range =
        bind_stops (check_soc_range site (some soc_min) none) _ _ s
          (unfold check_soc_range ◌>>=◌ in rw range tt)

    both_stop :
        s.has_client ≡ true
        → Refused
        → (apply_both site soc_min write s ≡ apply_both site soc_min other s)
          × Fails (apply_both site soc_min write s)
    unfolding apply_both
    both_stop client (inl range) = out_of_range range
    both_stop client (inr (e, h)) = elim (Bool-cases (in_soc_range (some soc_min) none)) [
      | inl fine ↦
          unfold check_soc_range ◌>>=◌ in
          rw fine (
            bind_stops (web_job site (check_soc_window site.client site.words (some soc_min) none))
              _ _ s (web_job-Fails _ site _ s e client h))
      | inr range ↦ out_of_range range
    ]

    -- In manual SoC mode a minimum that is out of range, or that the window check refuses or
    -- cannot check, never reaches Modbus: `apply_soc_minimum` does the same whatever it was given
    -- to write there, and it raises.
    pub refused_minimum_unwritten :
        s.has_client ≡ true
        → soc_mode_is_manual s.web_data ≡ true
        → Refused
        → (apply_soc_minimum site soc_min write s ≡ apply_soc_minimum site soc_min other s)
          × ((e : Error) × ((apply_soc_minimum site soc_min write s).0 ≡ err e))
    unfolding apply_soc_minimum ◌>>=◌
    refused_minimum_unwritten client manual r =
        let (same, raises) = both_stop client r in
        let goes = λ (b : Bool) (m : Exec W (Unit {0})).
          (if b then apply_both site soc_min m else on_bus site m) s in
        let test : s.has_client && soc_mode_is_manual s.web_data ≡ true =
          rw (client, manual) refl in
        subst (λ b. (goes b write ≡ goes b other) × ((e : Error) × ((goes b write).0 ≡ err e)))
          (sym test) (same, error_of _ raises)
