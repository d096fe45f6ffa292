-- ===== src/Device/Kept.antt =====
-- Every poll of FroniusInverter (fronius_modbus_api/device.py), also one that raises halfway, leaves
-- the components of the meters where their models sit.
use fronius_modbus.Common.{ℕ, Option, none, some, List, [], ◌∷◌}
use fronius_modbus.Exec.{Error, ModbusError, Result, ok, err}
use fronius_modbus.Exec.Keeps.{
  Keeps, keeps_rules, Keeps-bind, Keeps-bind-state, Keeps-modify, Keeps-attempt, Keeps-if,
  Keeps-pure, Keeps-gets,
}
use fronius_modbus.Exec.Gives.{Keeps-bind-Gives}
use fronius_modbus.Device.Library.{Library}
use fronius_modbus.Device.State.{UpdateReport}
use fronius_modbus.Device.Setup.{Machine}
use fronius_modbus.Device.Poll.{
  retry_undecided, retry_discovery, passed_over, taken_down, discovery_result, rediscover,
  open_report, first_setup, set_up, async_update,
}
use fronius_modbus.Device.Addresses.{
  MetersPlaced, Placed, on_bus-Gives, place_meter-Placed, stays, setup-Keeps,
}

module _ {W Identity : Type 0} (l : Library W Identity) where
  abbrev P : Machine W Identity → Type 0
  P = MetersPlaced l

  retry_undecided-Keeps : (us : List ℕ) (r : UpdateReport) → Keeps P (retry_undecided l us r)
  unfolding retry_undecided
  retry_undecided-Keeps [] r = search keeps_rules
  retry_undecided-Keeps (u ∷ us) r = Keeps-bind-state _ λ s h.
      Keeps-bind-Gives _ _ (Placed l) (stays l _)
        (on_bus-Gives l (Placed l) _ (place_meter-Placed l s.device u _ h h))
        λ f p.
          Keeps-bind _ _ (Keeps-modify _ (λ t _. p)) λ _.
            Keeps-bind-state _ λ t k. Keeps-bind _ _ (stays l _) λ q. retry_undecided-Keeps us q

  passed_over-Keeps : (e : Error) (o : Option ModbusError) → Keeps P (passed_over e o)
  unfolding passed_over
  passed_over-Keeps e none = search keeps_rules
  passed_over-Keeps e (some m) = search keeps_rules

  discovery_result-Keeps : (r : Result (Unit {0})) → Keeps P (discovery_result l r)
  discovery_result-Keeps (ok u) = search keeps_rules
  discovery_result-Keeps (err e) = passed_over-Keeps e _

  rediscover-Keeps : Keeps P (rediscover l)
  unfolding rediscover retry_discovery
  rediscover-Keeps =
      Keeps-bind _ _ (Keeps-attempt _ _ (setup-Keeps l) discovery_result-Keeps) (λ _. Keeps-gets _)

  open_report-Keeps : Keeps P (open_report l)
  unfolding open_report
  open_report-Keeps =
      Keeps-bind-state _
        λ s h. Keeps-if s.device.discovery_complete _ _ (λ _. Keeps-pure _) (λ _. rediscover-Keeps)

  taken_down-Keeps : (e : Error) (o : Option ModbusError) → Keeps P (taken_down e o)
  unfolding taken_down
  taken_down-Keeps e none = search keeps_rules
  taken_down-Keeps e (some m) = Keeps-bind _ _ (Keeps-modify _ (λ s h. h)) (λ _. search keeps_rules)

  first_setup-Keeps : (r : Result (Unit {0})) → Keeps P (first_setup l r)
  first_setup-Keeps (ok u) = search keeps_rules
  first_setup-Keeps (err e) = taken_down-Keeps e _

  set_up-Keeps : Keeps P (set_up l)
  unfolding set_up
  set_up-Keeps = Keeps-attempt _ _ (setup-Keeps l) first_setup-Keeps

  async_update-Keeps : Keeps P (async_update l)
  unfolding async_update
  async_update-Keeps = Keeps-bind-state _ λ s h.
      Keeps-bind _ _ (Keeps-if s.device.is_set_up _ _ (λ _. Keeps-pure tt) (λ _. set_up-Keeps)) λ _.
        Keeps-bind _ _ open_report-Keeps λ opened. Keeps-bind-state _ λ t k.
          Keeps-bind _ _ (stays l _)
            λ report. Keeps-bind-state _ λ u m. retry_undecided-Keeps _ report

  -- Where the component of each meter reads at the meter's model, it does after a poll too, whether
  -- the poll returns or raises, and whatever of the discovery it repeats.
  pub async_update-MetersPlaced :
      (s : Machine W Identity) → MetersPlaced l s → MetersPlaced l (async_update l s).1
  async_update-MetersPlaced s h = async_update-Keeps.at s h
