-- ===== src/Events/Leading.antt =====
-- `leading_event` of inverter_events.py: the most severe active event, the newest among equals.
use fronius_modbus.Common.{
  ℕ, ◌<◌, ◌≡◌, ◌⊎◌, inl, inr, refl, Bool, true, false, ◌||◌, ◌&&◌, Option, none, some, List, [],
  ◌∷◌, ltb, ◌==◌, if◌then◌else◌, ltb_ℤ, ◌≤ℤ◌, arith, All, Has, Bool-cases, ◌∙◌, Has, Bool-cases,
  ◌∙◌,
}
use mathlib.Core.Path.{subst}
use fronius_modbus.Events.Parse.{InverterEvent, Severity, error, warning, info}

-- The first part of `_rank`; the second is the negated start.
abbrev pub level : Option Severity → ℕ
level (some error) = 0
level (some warning) = 1
level (some info) = 2
level none = 3

-- `_rank(a) < _rank(b)`, in the order of tuples
unfoldable pub ranks_before : InverterEvent → InverterEvent → Bool
ranks_before a b =
    ltb (level a.severity) (level b.severity)
    || ((level a.severity == level b.severity) && ltb_ℤ b.started a.started)

-- `min` keeps the first of the least.
unfoldable pub least : InverterEvent → List InverterEvent → InverterEvent
least best [] = best
least best (e ∷ events) = least (if ranks_before e best then e else best) events

unfoldable pub leading_event : List InverterEvent → Option InverterEvent
unfolding least
leading_event [] = none
leading_event (e ∷ events) = some (least e events)

-- `a` is as severe as `b` or more so, and no older than it where they are equally severe.
abbrev pub Leads : InverterEvent → InverterEvent → Type 0
Leads a b =
    (level a.severity < level b.severity)
    ⊎ ((level a.severity ≡ level b.severity) × (b.started ≤ℤ a.started))

Leads-trans : (a b c : InverterEvent) → Leads a b → Leads b c → Leads a c
Leads-trans a b c h k = omega arith

Leads-refl : (a : InverterEvent) → Leads a a
Leads-refl a = omega arith

ranks_before-true : (a b : InverterEvent) → ranks_before a b ≡ true → Leads a b
unfolding ranks_before
ranks_before-true a b h = ground arith

ranks_before-false : (a b : InverterEvent) → ranks_before a b ≡ false → Leads b a
unfolding ranks_before
ranks_before-false a b h = ground arith

-- Each round of the loop keeps the better of the two.
better : InverterEvent → InverterEvent → InverterEvent
better best e = if ranks_before e best then e else best

better-Leads : (best e : InverterEvent) → Leads (better best e) best × Leads (better best e) e
unfolding better
better-Leads best e = elim (Bool-cases (ranks_before e best)) [
  | inl h ↦ rw h (ranks_before-true e best h, Leads-refl e)
  | inr h ↦ rw h (Leads-refl best, ranks_before-false e best h)
]

better-cases : (best e : InverterEvent) → (better best e ≡ e) ⊎ (better best e ≡ best)
unfolding better
better-cases best e = ground arith

least-Leads :
    (best : InverterEvent) (events : List InverterEvent)
    → Leads (least best events) best × All (Leads (least best events)) events
unfolding least better
least-Leads best [] = (Leads-refl best, tt)
least-Leads best (e ∷ events) =
    let b = better best e in
    let (h, k) = least-Leads b events in
    let (p, q) = better-Leads best e in
    (Leads-trans (least b events) b best h p, (Leads-trans (least b events) b e h q, k))

least-Has :
    (best : InverterEvent) (events : List InverterEvent) → Has (least best events) (best ∷ events)
unfolding least better
least-Has best [] = inl refl
least-Has best (e ∷ events) = elim (least-Has (better best e) events) [
  | inl p ↦ elim (better-cases best e) [ inl q ↦ inr (inl (p ∙ q)) | inr q ↦ inl (p ∙ q) ]
  | inr m ↦ inr (inr m)
]

-- The leading event is one of the list, and leads every event of it: none is more severe, and
-- none that is as severe started later.
pub leading_event-Leads :
    (events : List InverterEvent) (e : InverterEvent)
    → leading_event events ≡ some e
    → Has e events × All (Leads e) events
unfolding leading_event
leading_event-Leads [] e h = cc
leading_event-Leads (x ∷ events) e h =
    let p : least x events ≡ e = cc h in
    subst (λ a. Has a (x ∷ events) × All (Leads a) (x ∷ events)) p
      (least-Has x events, least-Leads x events)
