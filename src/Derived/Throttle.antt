-- ===== src/Derived/Throttle.antt =====
-- `throttle_reason` of derived.py: why the inverter is holding its output back.
use fronius_modbus.Common.{
  ℕ, ◌≡◌, ◌≢◌, ◌↔◌, ◌⊎◌, Bool, true, false, Option, none, some, List, [], ◌∷◌, ◌==◌, if◌then◌else◌,
  arith,
}

-- THROTTLE_REASONS of const.py
pub data Reason : Type 0 where
  no_reason inverter_state ac_limit feed_in_limit several : Reason

abbrev pub throttled_operating_state : ℕ
throttled_operating_state = 5

abbrev pub Signal : Type 0
Signal = Reason × Option Bool

-- `[reason for reason, applies in signals if applies]`
abbrev pub applying : List Signal → List Reason
applying [] = []
applying ((r, some true) ∷ signals) = r ∷ applying signals
applying ((r, some false) ∷ signals) = applying signals
applying ((r, none) ∷ signals) = applying signals

-- `any(applies is None for _, applies in signals)`
abbrev pub any_unknown : List Signal → Bool
any_unknown [] = false
any_unknown ((r, none) ∷ signals) = true
any_unknown ((r, some b) ∷ signals) = any_unknown signals

abbrev pub state_throttles : Option ℕ → Option Bool
state_throttles none = none
state_throttles (some st) = some (st == throttled_operating_state)

unfoldable pub throttle_reason : Option ℕ → Option Bool → Option Bool → Option Reason
throttle_reason operating_state relative_limit_reached absolute_limit_reached =
    let signals : List Signal =
      (inverter_state, state_throttles operating_state)
      ∷ (ac_limit, relative_limit_reached)
      ∷ (feed_in_limit, absolute_limit_reached)
      ∷ [] in
    elim (applying signals) [
      | [] ↦ if any_unknown signals then none else some no_reason
      | r ∷ rest ↦ elim rest [ [] ↦ some r | _ ∷ _ ↦ some several ]
    ]

-- What each answer says of the three signals.
abbrev pub Explains : Option Reason → Option Bool → Option Bool → Option Bool → Type 0
Explains (some no_reason) a b c = (a ≡ some false) × (b ≡ some false) × (c ≡ some false)
Explains (some inverter_state) a b c = (a ≡ some true) × (b ≢ some true) × (c ≢ some true)
Explains (some ac_limit) a b c = (a ≢ some true) × (b ≡ some true) × (c ≢ some true)
Explains (some feed_in_limit) a b c = (a ≢ some true) × (b ≢ some true) × (c ≡ some true)
Explains (some several) a b c =
    ((a ≡ some true) × (b ≡ some true))
    ⊎ ((a ≡ some true) × (c ≡ some true))
    ⊎ ((b ≡ some true) × (c ≡ some true))
Explains none a b c =
    (a ≢ some true) × (b ≢ some true) × (c ≢ some true) × ((a ≡ none) ⊎ (b ≡ none) ⊎ (c ≡ none))

-- The answer names a limit exactly when it is the only one that is known to be reached, `several`
-- exactly when two are, no reason only when all three sources answered no, and nothing when none
-- is known to be reached and a source did not answer.
pub throttle_reason-Explains :
    (x : Option Reason) (st : Option ℕ) (relative absolute : Option Bool)
    → (throttle_reason st relative absolute ≡ x) ↔ Explains x (state_throttles st) relative absolute
unfolding throttle_reason
throttle_reason-Explains none st b c = (ground arith, ground arith)
throttle_reason-Explains (some no_reason) st b c = (ground arith, ground arith)
throttle_reason-Explains (some several) st b c = (ground arith, ground arith)
throttle_reason-Explains (some _) st b c = (ground arith, ground arith)
