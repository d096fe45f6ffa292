-- ===== src/Device/Addresses.antt =====
-- Where the components of FroniusInverter (fronius_modbus_api/device.py) read: a component is never
-- moved, and the component of a meter always reads where the meter's model sits.
use mathlib.Core.Path.{subst₂}
use fronius_modbus.Device.Scan.{is_illegal_address}
use fronius_modbus.Common.{
  Bool-cases, inl, inr, Option-cases, ◌∙◌, sym, ℕ, ◌≡◌, refl, Bool, true, false, Option, none, some,
  List, [], ◌∷◌, ◌==◌, arith, if◌then◌else◌,
}
use fronius_modbus.Exec.{Exec, Result, ok, err, ◌>>=◌, zoom}
use fronius_modbus.Exec.Keeps.{Keeps, keeps_rules, Keeps-bind, Keeps-bind-state, Keeps-modify}
use fronius_modbus.Exec.Gives.{
  Gives, Keeps-bind-Gives, Gives-bind, Gives-attempt, Gives-pure, Gives-raise, Gives-any,
}
use fronius_modbus.Device.Library.{Library, Chain, Model}
use fronius_modbus.Device.State.{Device, MeterInfo, lookup, insert}
use fronius_modbus.Device.Meters.{
  Filed, meter_of, probe_chain, found_meter, with_meter, after_probe_scan, probe_meter, file_meter,
  as_modbus_error, is_connection, place_meter, place_meters,
}
use fronius_modbus.Device.Setup.{
  Machine, on_bus, built, optional, optional_at, place, build_components, choose_inverter, setup,
}

pub lookup-insert :
    {V : Type 0} (k j : ℕ) (v : V) (d : List (ℕ × V))
    → lookup j (insert k v d) ≡ (if k == j then some v else lookup j d)
lookup-insert k j v [] = refl
lookup-insert k j v ((i, w) ∷ d) = ground (arith, lookup-insert k j v d)

-- The component of a meter reads where its model sits, which is on record.
pub record IsPlaced {Identity : Type 0} (addresses : List (ℕ × ℕ))
    (meters : List (ℕ × MeterInfo Identity)) : Type 0 where
  pub at : (u : ℕ) (m : MeterInfo Identity) → lookup u meters ≡ some m → m.component_at ≡ m.address
  pub on_record :
      (u : ℕ) (m : MeterInfo Identity)
      → lookup u meters ≡ some m
      → lookup u addresses ≡ some m.address

module _ {W Identity : Type 0} (l : Library W Identity) where
  meter_of-component_at :
      (d : Device Identity) (u : ℕ) (m c : Model) (i : Identity)
      → IsPlaced d.meter_addresses d.meters
      → ((meter_of l d u m c i).component_at ≡ m.address)
        × ((meter_of l d u m c i).address ≡ m.address)
  unfolding meter_of
  meter_of-component_at d u m c i h = elim (Option-cases (lookup u d.meters)) [
    | inl e ↦ ground arith
    | inr (k, e) ↦ ground (arith, h.at u k e, h.on_record u k e)
  ]

  file-IsPlaced :
      (u : ℕ) (m : MeterInfo Identity) (f : Filed Identity)
      → m.component_at ≡ m.address
      → IsPlaced f.addresses f.meters
      → IsPlaced (insert u m.address f.addresses) (insert u m f.meters)
  file-IsPlaced u m f e h = record {
    at = λ v k p. ground (arith, lookup-insert u v m f.meters, h.at v k);
    on_record = λ v k p. ground (
      arith,
      lookup-insert u v m f.meters,
      lookup-insert u v m.address f.addresses,
      h.on_record v k,
    );
  }

  -- What a probe finds reads where its model sits.
  abbrev AtModel : Option (MeterInfo Identity) → Type 0
  AtModel none = Unit
  AtModel (some m) = m.component_at ≡ m.address

  module _ (d : Device Identity) (u : ℕ) (placed : IsPlaced d.meter_addresses d.meters) where
    found-AtModel : (m c : Model) → Gives AtModel (found_meter l d u m c)
    unfolding found_meter
    found-AtModel m c =
        Gives-bind _ _ (λ i. Unit {0}) AtModel (Gives-any _)
          λ i _.
            Gives-pure (some (meter_of l d u m c i)) AtModel
              (let (p, q) = meter_of-component_at d u m c i placed in p ∙ sym q)

    with_meter-AtModel : (m c : Option Model) → Gives AtModel (with_meter l d u m c)
    unfolding with_meter
    with_meter-AtModel none c = Gives-pure none AtModel tt
    with_meter-AtModel (some m) none = Gives-raise _ AtModel
    with_meter-AtModel (some m) (some c) = found-AtModel m c

    probe_chain-AtModel : (found : Chain × Bool) → Gives AtModel (probe_chain l d u found)
    unfolding probe_chain
    probe_chain-AtModel (chain, false) = Gives-raise _ AtModel
    probe_chain-AtModel (chain, true) = with_meter-AtModel _ _

    after_scan-AtModel : (r : Result (Chain × Bool)) → Gives AtModel (after_probe_scan l d u r)
    after_scan-AtModel (ok found) = probe_chain-AtModel found
    after_scan-AtModel (err e) = elim (Bool-cases (is_illegal_address e)) [
      | inl h ↦ rw h (Gives-pure none AtModel tt)
      | inr h ↦ rw h (Gives-raise e AtModel)
    ]

    probe_meter-AtModel : Gives AtModel (probe_meter l d u)
    unfolding probe_meter
    probe_meter-AtModel =
        Gives-attempt _ _ (λ c. Unit {0}) AtModel (Gives-any _) (λ r _. after_scan-AtModel r)

  abbrev pub Placed : Filed Identity → Type 0
  Placed f = IsPlaced f.addresses f.meters

  file_meter-Placed :
      (u : ℕ) (f : Filed Identity) (r : Result (Option (MeterInfo Identity)))
      → Placed f
      → ((m : Option (MeterInfo Identity)) → r ≡ ok m → AtModel m)
      → Gives Placed (file_meter l u f r)
  unfolding file_meter
  file_meter-Placed u f (ok none) h k = Gives-pure _ Placed h
  file_meter-Placed u f (ok (some m)) h k =
      Gives-pure _ Placed (file-IsPlaced u m f (k (some m) refl) h)
  file_meter-Placed u f (err e) h k = elim (Option-cases (as_modbus_error l.sunspec_is_modbus e)) [
    | inl p ↦ rw (p, file_meter) (Gives-raise e Placed)
    | inr (m, p) ↦ elim (Bool-cases (is_connection m)) [
      | inl q ↦ rw (p, file_meter) (rw q (Gives-raise e Placed))
      | inr q ↦ rw (p, file_meter) (rw q (Gives-pure _ Placed h))
    ]
  ]

  pub place_meter-Placed :
      (d : Device Identity) (u : ℕ) (f : Filed Identity)
      → IsPlaced d.meter_addresses d.meters
      → Placed f
      → Gives Placed (place_meter l d u f)
  unfolding place_meter
  place_meter-Placed d u f h k =
      Gives-attempt _ _ AtModel Placed (probe_meter-AtModel d u h)
        (λ r a. file_meter-Placed u f r k a)

  place_meters-Placed :
      (d : Device Identity) (us : List ℕ) (f : Filed Identity)
      → IsPlaced d.meter_addresses d.meters
      → Placed f
      → Gives Placed (place_meters l d us f)
  unfolding place_meters
  place_meters-Placed d [] f h k = Gives-pure f Placed k
  place_meters-Placed d (u ∷ us) f h k =
      Gives-bind _ _ Placed Placed (place_meter-Placed d u f h k)
        (λ g p. place_meters-Placed d us g h p)

  -- The invariant of the device.
  abbrev pub MetersPlaced : Machine W Identity → Type 0
  MetersPlaced s = IsPlaced s.device.meter_addresses s.device.meters

  -- What happens on the library's side leaves the device alone.
  pub on_bus-Keeps :
      {A : Type 0} (P : Device Identity → Type 0) (m : Exec W A)
      → Keeps (λ s. P s.device) (on_bus m)
  unfolding zoom
  on_bus-Keeps P m = record { at = λ s h. h }

  pub on_bus-Gives :
      {A : Type 0} (Q : A → Type 0) (m : Exec W A)
      → Gives Q m
      → Gives Q (on_bus {Identity = Identity} m)
  unfolding zoom
  on_bus-Gives Q m g = record { at = λ s a e. g.at s.bus a e }

  optional-meters :
      (chain : Chain) (k : ℕ) (s : Machine W Identity)
      → ((optional l chain k s).1.device.meter_addresses ≡ s.device.meter_addresses)
        × ((optional l chain k s).1.device.meters ≡ s.device.meters)
  unfolding optional optional_at place built ◌>>=◌
  optional-meters chain k s = ground arith

  optional-Keeps : (chain : Chain) (k : ℕ) → Keeps MetersPlaced (optional l chain k)
  optional-Keeps chain k = record {
    at = λ s h.
        let (p, q) = optional-meters chain k s in subst₂ (λ a m. IsPlaced a m) (sym p) (sym q) h;
  }

  build_components-Keeps :
      (chain : Chain) (m : Model) → Keeps MetersPlaced (build_components l chain m)
  unfolding build_components
  build_components-Keeps chain m = search (keeps_rules, optional-Keeps) depth 20

  choose_inverter-Keeps :
      (m c : Option Model) → Keeps MetersPlaced (choose_inverter {W = W} {Identity = Identity} m c)
  unfolding choose_inverter
  choose_inverter-Keeps none c = search keeps_rules
  choose_inverter-Keeps (some m) none = search keeps_rules
  choose_inverter-Keeps (some m) (some c) = search keeps_rules

  no_meters-IsPlaced : (a : List (ℕ × ℕ)) → IsPlaced {Identity = Identity} a []
  no_meters-IsPlaced a = record { at = λ u m e. cc e; on_record = λ u m e. cc e }

  pub stays : {A : Type 0} (m : Exec W A) → Keeps MetersPlaced (on_bus m)
  stays m = on_bus-Keeps (λ d. IsPlaced d.meter_addresses d.meters) m

  pub setup-Keeps : Keeps MetersPlaced (setup l)
  unfolding setup
  setup-Keeps = Keeps-bind-state _ λ s h. Keeps-bind _ _ (stays _) λ found.
      Keeps-bind _ _ (choose_inverter-Keeps _ _) λ models. Keeps-bind _ _ (stays _) λ i.
        Keeps-bind _ _ (build_components-Keeps found.0 models.0) λ present.
          Keeps-bind-state _ λ t k.
            Keeps-bind-Gives _ _ Placed (stays _)
              (on_bus-Gives Placed _
                (place_meters-Placed t.device _ _ k (no_meters-IsPlaced t.device.meter_addresses)))
              λ filed p. Keeps-modify _ (λ u _. p)
