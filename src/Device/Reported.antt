-- ===== src/Device/Reported.antt =====
-- What a poll of FroniusInverter (fronius_modbus_api/device.py) reports.
use fronius_modbus.Common.{
  ℕ, ◌≡◌, refl, ◌∙◌, ap, Bool, true, false, ◌||◌, ◌&&◌, Option, none, some, List, [], ◌∷◌, ◌++◌,
  ◌==◌, if◌then◌else◌, Float, arith, Bool-cases, inl, inr,
}
use fronius_modbus.Exec.{Error, ModbusError, Result, ok, err}
use fronius_modbus.Exec.Gives.{
  Gives, Gives-bind, Gives-attempt, Gives-pure, Gives-raise, Gives-any, Gives-weaken,
}
use fronius_modbus.Device.Library.{Library, Name}
use fronius_modbus.Device.State.{
  UpdateReport, has_name, same_name, name_code, failed_in, set_failed,
}
use fronius_modbus.Device.Meters.{is_connection}
use fronius_modbus.Device.Poll.{
  file_read, file_error, update_component, update_components, add_updated, is_timeout,
  nothing_answered,
}

-- A name that the report answers for: as updated or as failed.
abbrev pub reported : Name → UpdateReport → Bool
reported n r = has_name n r.updated || failed_in n r.failed

or_assoc : (a b c : Bool) → ((a || b) || c) ≡ (a || (b || c))
or_assoc a b c = ground arith

or_swap : (a b c : Bool) → (a || (b || c)) ≡ (b || (a || c))
or_swap a b c = ground arith

or_left : (a b c : Bool) → (a || (b || c)) ≡ ((b || a) || c)
or_left a b c = ground arith

or_again : (a b c : Bool) → b ≡ a → (a || c) ≡ (a || (b || c))
or_again a b c h = ground arith

has_name-append :
    (n m : Name) (ns : List Name) → has_name n (ns ++ m ∷ []) ≡ (same_name n m || has_name n ns)
has_name-append n m [] = refl
has_name-append n m (k ∷ ns) = ground (arith, has_name-append n m ns)

codes_eq :
    (i j k m a b : ℕ)
    → (i == j) && (a == b) ≡ true
    → ((k == j) && (m == b)) ≡ ((k == i) && (m == a))
codes_eq i j k m a b h = ground arith

same_name-eq : (n m k : Name) → same_name m k ≡ true → same_name n k ≡ same_name n m
same_name-eq n m k h =
    codes_eq (name_code m).0 (name_code k).0 (name_code n).0 (name_code n).1 (name_code m).1
      (name_code k).1 h

-- One entry of the dict: replaced by the new one, or passed by.
failed_in-if :
    (n m k : Name) (e f : ModbusError) (b : Bool) (fs gs : List (Name × ModbusError))
    → (b ≡ true → same_name n k ≡ same_name n m)
    → failed_in n gs ≡ (same_name n m || failed_in n fs)
    → failed_in n (if b then (m, e) ∷ fs else (k, f) ∷ gs)
      ≡ (same_name n m || failed_in n ((k, f) ∷ fs))
failed_in-if n m k e f true fs gs h g =
    or_again (same_name n m) (same_name n k) (failed_in n fs) (h refl)
failed_in-if n m k e f false fs gs h g =
    ap (λ b. same_name n k || b) g ∙ or_swap (same_name n k) (same_name n m) (failed_in n fs)

failed_in-set_failed :
    (n m : Name) (e : ModbusError) (fs : List (Name × ModbusError))
    → failed_in n (set_failed m e fs) ≡ (same_name n m || failed_in n fs)
failed_in-set_failed n m e [] = refl
failed_in-set_failed n m e ((k, f) ∷ fs) =
    failed_in-if n m k e f (same_name m k) fs (set_failed m e fs) (same_name-eq n m k)
      (failed_in-set_failed n m e fs)

module _ {W Identity : Type 0} (l : Library W Identity) (n : Name) where
  -- The report answers for what it did, and for the name if that is the new one.
  abbrev Adds : Bool → UpdateReport → UpdateReport → Type 0
  Adds new r q = reported n q ≡ (new || reported n r)

  updated-Adds :
      (m : Name) (a b : Float) (r : UpdateReport) → Adds (same_name n m) r (add_updated l m a b r)
  updated-Adds m a b r =
      ap (λ c. c || failed_in n r.failed) (has_name-append n m r.updated)
      ∙ or_assoc (same_name n m) (has_name n r.updated) (failed_in n r.failed)

  failed-Adds :
      (m : Name) (e : ModbusError) (r : UpdateReport)
      → Adds (same_name n m) r (record r { failed = set_failed m e r.failed })
  failed-Adds m e r =
      ap (λ c. has_name n r.updated || c) (failed_in-set_failed n m e r.failed)
      ∙ or_swap (has_name n r.updated) (same_name n m) (failed_in n r.failed)

  file_error-Adds :
      (m : Name) (r : UpdateReport) (x : Error) (o : Option ModbusError)
      → Gives {S = W} (Adds (same_name n m) r) (file_error l m r x o)
  unfolding file_error
  file_error-Adds m r x none = Gives-raise x _
  file_error-Adds m r x (some e) =
      elim (Bool-cases (is_connection e || (is_timeout e && nothing_answered r))) [
        | inl h ↦ rw h (Gives-raise x (Adds (same_name n m) r))
        | inr h ↦ rw h (Gives-pure _ (Adds (same_name n m) r) (failed-Adds m e r))
      ]

  file_read-Adds :
      (m : Name) (started : Float) (r : UpdateReport) (a : Result (Unit {0}))
      → Gives (Adds (same_name n m) r) (file_read l m started r a)
  unfolding file_read
  file_read-Adds m started r (ok u) =
      Gives-bind _ _ (λ b. Unit {0}) _ (Gives-any _)
        (λ b _. Gives-pure _ _ (updated-Adds m started b r))
  file_read-Adds m started r (err x) = file_error-Adds m r x _

  update_component-Adds :
      (m : Name) (r : UpdateReport) → Gives (Adds (same_name n m) r) (update_component l m r)
  unfolding update_component
  update_component-Adds m r =
      Gives-bind _ _ (λ b. Unit {0}) _ (Gives-any _)
        λ started _.
          Gives-attempt _ _ (λ u. Unit {0}) _ (Gives-any _) (λ a _. file_read-Adds m started r a)

  update_components-Adds :
      (ns : List Name) (r : UpdateReport)
      → Gives (Adds (has_name n ns) r) (update_components l ns r)
  unfolding update_components
  update_components-Adds [] r = Gives-pure r (Adds false r) refl
  update_components-Adds (m ∷ ns) r =
      Gives-bind _ _ (Adds (same_name n m) r) _ (update_component-Adds m r) λ q h.
        Gives-weaken _ _ _ (update_components-Adds ns q) (λ p k.
          k
          ∙ ap (λ b. has_name n ns || b) h
          ∙ or_left (has_name n ns) (same_name n m) (reported n r))

  -- A poll's reads that return report exactly the names read, on top of what the report held: each
  -- as updated or as failed, so no sub-system is passed over in silence.
  pub polled_reported :
      (ns : List Name) (r q : UpdateReport) (w : W)
      → (update_components l ns r w).0 ≡ ok q
      → reported n q ≡ (has_name n ns || reported n r)
  polled_reported ns r q w e = (update_components-Adds ns r).at w q e
