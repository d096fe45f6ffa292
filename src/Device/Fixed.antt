-- ===== src/Device/Fixed.antt =====
-- A component of FroniusInverter (fronius_modbus_api/device.py) never moves: the controls that hold
-- it would write to registers that are no longer its own.
use fronius_modbus.Common.{ℕ, ◌≡◌, refl, true, false, Option, none, some, List, [], ◌∷◌, arith}
use fronius_modbus.Exec.{Exec, Error, ModbusError, Result, ok, err, zoom}
use fronius_modbus.Exec.Keeps.{
  Keeps, keeps_rules, Keeps-bind, Keeps-bind-state, Keeps-modify, Keeps-attempt, Keeps-if,
  Keeps-pure, Keeps-gets,
}
use fronius_modbus.Device.Library.{Library, Chain, Model}
use fronius_modbus.Device.State.{Device, UpdateReport, lookup}
use fronius_modbus.Device.Setup.{
  Machine, on_bus, built, optional, optional_at, place, build_components, choose_inverter, setup,
}
use fronius_modbus.Device.Addresses.{lookup-insert}
use fronius_modbus.Device.Poll.{
  retry_undecided, retry_discovery, rediscover, passed_over, taken_down, discovery_result,
  open_report, first_setup, set_up, async_update,
}

module _ {W Identity : Type 0} (l : Library W Identity) (k a : ℕ) where
  -- The component of model `k` reads at `a`.
  abbrev pub ReadsAt : Machine W Identity → Type 0
  ReadsAt s = lookup k s.device.components ≡ some a

  stays : {A : Type 0} (m : Exec W A) → Keeps ReadsAt (on_bus m)
  unfolding zoom
  stays m = record { at = λ s h. h }

  built-ReadsAt :
      (id : ℕ) (m : Model) (d e : Device Identity)
      → lookup k d.components ≡ some a
      → built id m d ≡ some e
      → lookup k e.components ≡ some a
  unfolding built
  built-ReadsAt id m d e h p = ground (arith, lookup-insert id k m.address d.components)

  place-ReadsAt :
      (id : ℕ) (m : Model) (s : Machine W Identity) (o : Option (Device Identity))
      → ReadsAt s
      → built id m s.device ≡ o
      → Keeps ReadsAt (place o)
  unfolding place
  place-ReadsAt id m s none h p = search keeps_rules
  place-ReadsAt id m s (some d) h p =
      Keeps-bind _ _ (Keeps-modify _ (λ t _. built-ReadsAt id m s.device d h p))
        (λ _. Keeps-pure true)

  optional_at-ReadsAt : (id : ℕ) (m : Option Model) → Keeps ReadsAt (optional_at id m)
  unfolding optional_at
  optional_at-ReadsAt id none = Keeps-pure false
  optional_at-ReadsAt id (some m) = Keeps-bind-state _ λ s h. place-ReadsAt id m s _ h refl

  optional-ReadsAt : (chain : Chain) (id : ℕ) → Keeps ReadsAt (optional l chain id)
  unfolding optional
  optional-ReadsAt chain id = optional_at-ReadsAt id _

  build_components-ReadsAt :
      (chain : Chain) (m : Model) → Keeps ReadsAt (build_components l chain m)
  unfolding build_components
  build_components-ReadsAt chain m = search (keeps_rules, optional-ReadsAt) depth 20

  choose_inverter-ReadsAt :
      (m c : Option Model) → Keeps ReadsAt (choose_inverter {W = W} {Identity = Identity} m c)
  unfolding choose_inverter
  choose_inverter-ReadsAt none c = search keeps_rules
  choose_inverter-ReadsAt (some m) none = search keeps_rules
  choose_inverter-ReadsAt (some m) (some c) = search keeps_rules

  setup-ReadsAt : Keeps ReadsAt (setup l)
  unfolding setup
  setup-ReadsAt = Keeps-bind-state _ λ s h. Keeps-bind _ _ (stays _) λ found.
      Keeps-bind _ _ (choose_inverter-ReadsAt _ _) λ models. Keeps-bind _ _ (stays _) λ i.
        Keeps-bind _ _ (build_components-ReadsAt found.0 models.0) λ present.
          Keeps-bind-state _ λ t p. Keeps-bind _ _ (stays _) λ filed. Keeps-modify _ (λ u q. q)

  retry_undecided-ReadsAt :
      (us : List ℕ) (r : UpdateReport) → Keeps ReadsAt (retry_undecided l us r)
  unfolding retry_undecided
  retry_undecided-ReadsAt [] r = search keeps_rules
  retry_undecided-ReadsAt (u ∷ us) r = Keeps-bind-state _ λ s h. Keeps-bind _ _ (stays _) λ f.
      Keeps-bind _ _ (Keeps-modify _ (λ t p. p))
        λ _. Keeps-bind-state _ λ t p. Keeps-bind _ _ (stays _) λ q. retry_undecided-ReadsAt us q

  passed_over-ReadsAt : (e : Error) (o : Option ModbusError) → Keeps ReadsAt (passed_over e o)
  unfolding passed_over
  passed_over-ReadsAt e none = search keeps_rules
  passed_over-ReadsAt e (some m) = search keeps_rules

  discovery_result-ReadsAt : (r : Result (Unit {0})) → Keeps ReadsAt (discovery_result l r)
  discovery_result-ReadsAt (ok u) = search keeps_rules
  discovery_result-ReadsAt (err e) = passed_over-ReadsAt e _

  open_report-ReadsAt : Keeps ReadsAt (open_report l)
  unfolding open_report rediscover retry_discovery
  open_report-ReadsAt = Keeps-bind-state _ λ s h.
      Keeps-if s.device.discovery_complete _ _ (λ _. Keeps-pure _)
        λ _.
          Keeps-bind _ _ (Keeps-attempt _ _ setup-ReadsAt discovery_result-ReadsAt)
            (λ _. Keeps-gets _)

  taken_down-ReadsAt : (e : Error) (o : Option ModbusError) → Keeps ReadsAt (taken_down e o)
  unfolding taken_down
  taken_down-ReadsAt e none = search keeps_rules
  taken_down-ReadsAt e (some m) =
      Keeps-bind _ _ (Keeps-modify _ (λ s h. h)) (λ _. search keeps_rules)

  first_setup-ReadsAt : (r : Result (Unit {0})) → Keeps ReadsAt (first_setup l r)
  first_setup-ReadsAt (ok u) = search keeps_rules
  first_setup-ReadsAt (err e) = taken_down-ReadsAt e _

  async_update-ReadsAt : Keeps ReadsAt (async_update l)
  unfolding async_update set_up
  async_update-ReadsAt = Keeps-bind-state _ λ s h.
      Keeps-bind _ _
        (Keeps-if s.device.is_set_up _ _ (λ _. Keeps-pure tt)
          (λ _. Keeps-attempt _ _ setup-ReadsAt first_setup-ReadsAt))
        λ _. Keeps-bind _ _ open_report-ReadsAt λ opened. Keeps-bind-state _ λ t p.
          Keeps-bind _ _ (stays _)
            λ report. Keeps-bind-state _ λ u m. retry_undecided-ReadsAt _ report

  -- A model whose component reads at an address reads there after every poll too, whether the poll
  -- returns or raises, and whatever chain it reads: a control built on the component goes on
  -- writing the registers that it was built for.
  pub component_never_moves :
      (s : Machine W Identity)
      → lookup k s.device.components ≡ some a
      → lookup k (async_update l s).1.device.components ≡ some a
  component_never_moves s h = async_update-ReadsAt.at s h
