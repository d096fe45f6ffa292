-- ===== src/Derived/Tests.antt =====
-- The values of derived.py on concrete readings.
use fronius_modbus.Common.{◌≡◌, ◌↔◌, refl, arith, true, none, some, [], ◌∷◌, pos, zero_float}
use fronius_modbus.Numbers.Plain.{plain}
use fronius_modbus.Derived.Throttle.{
  several, state_throttles, throttle_reason, Explains, throttle_reason-Explains,
}
use fronius_modbus.Derived.Grid.{off_grid_operating, grid_status, Shows, grid_status-Shows}
use fronius_modbus.Derived.Load.{household_load, Balances, household_load-Balances}
use fronius_modbus.Derived.Total.{TotalGuard, observe, new_guard, seed, plausible_after, suspect}
use fronius_modbus.Derived.Total.Laws.{SubSigned, Agree, after, adoption_needs_agreement}

plain-SubSigned : SubSigned plain
plain-SubSigned a b h = ground arith

throttle_reason-Explains_example :
    (throttle_reason (some 5) none (some true) ≡ some several)
    ↔ Explains (some several) (state_throttles (some 5)) none (some true)
throttle_reason-Explains_example = throttle_reason-Explains (some several) (some 5) none (some true)

-- 53.0 Hz at the inverter, no grid at the meter
grid_status-Shows_example :
    (grid_status (some (pos 0x404a800000000000)) (some zero_float) ≡ some off_grid_operating)
    ↔ Shows off_grid_operating (pos 0x404a800000000000) zero_float
grid_status-Shows_example = grid_status-Shows off_grid_operating (pos 0x404a800000000000) zero_float

household_load-Balances_example :
    (household_load plain (some (pos 300)) (some (pos 700)) (some 0) zero_float ≡ some (pos 1000))
    ↔ Balances plain (pos 300) (some (pos 700)) 0 zero_float (pos 1000)
household_load-Balances_example =
    household_load-Balances plain (pos 300) (some (pos 700)) 0 zero_float (pos 1000)

-- A total of 100 with steps of at most 10, and two confirmations.
abbrev guarded : TotalGuard
guarded = record {
  value = some (pos 100);
  max_step = pos 10;
  confirmations = 2;
  suspect_polls = 0;
  last_suspect = none;
}

adoption_needs_agreement_example : Agree plain (pos 10) 2 (some (pos 7) ∷ some (pos 5) ∷ [])
unfolding observe after seed plausible_after suspect new_guard
adoption_needs_agreement_example =
    adoption_needs_agreement plain (pos 10) 2 (some (pos 100)) (some (pos 5) ∷ []) (some (pos 7))
      refl
