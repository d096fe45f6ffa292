-- ===== src/Coordinator/Retained.antt =====
-- When a poll of FroniusModbusCoordinator (coordinator.py) shows the values of an earlier one.
use fronius_modbus.Common.{
  ℕ, ◌≡◌, refl, ap, ◌∙◌, true, Option, none, some, ltb, Bool-cases, inl, inr,
}
use mathlib.Core.Path.{subst}
use fronius_modbus.Numbers.{Numbers}
use fronius_modbus.Exec.{
  Exec, Error, ModbusError, modbus, bad_value, cancelled, sunspec, map_shift, refused, web, Result,
  ok, err, ◌>>=◌, gets, attempt, zoom,
}
use fronius_modbus.Exec.Keeps.{
  Keeps, Keeps-bind, Keeps-bind-state, Keeps-modify, Keeps-if, Keeps-pure,
}
use fronius_modbus.Exec.Post.{
  Post, bind-Post, raise-Post, pure-Post, if-Post, state-Post, Keeps-any,
}
use fronius_modbus.Device.State.{UpdateReport}
use fronius_modbus.Device.Poll.{is_timeout, is_empty}
use fronius_modbus.Coordinator.{
  Coordinator, Link, ModbusPoll, Outcome, shown, unreachable, update_failed, poll_failure,
  no_answer, kept, in_window, give_up, failed_with, failed_poll, timed_out, lost_poll, on_bus,
  count_tolerated, timeouts_before_recycle,
}
use fronius_modbus.Coordinator.Values.{good_poll, after_update, update_data, poll_of}

-- The poll is the one before it, marked as retained.
abbrev pub From : Option ModbusPoll → ModbusPoll → Type 0
From none p = ⊥
From (some q) p = p ≡ kept q

module _ {W : Type 0} (l : Link W) (last : Option ModbusPoll) where
  -- What a retained poll shows, and when.
  abbrev pub Tolerated : Outcome → Coordinator W → Type 0
  Tolerated (shown p) t = p.retained ≡ true → From last p × (in_window l t ≡ true)
  Tolerated unreachable t = Unit
  Tolerated update_failed t = Unit

  abbrev Same : Coordinator W → Type 0
  Same t = t.last ≡ last

  bus-Same : {A : Type 0} (m : Exec W A) → Keeps Same (on_bus m)
  unfolding zoom
  bus-Same m = record { at = λ t h. h }

  failure-Tolerated : (m : ModbusError) (t : Coordinator W) → Tolerated (poll_failure m) t
  unfolding poll_failure
  failure-Tolerated m t = elim (Bool-cases (no_answer m)) [ inl h ↦ rw h tt | inr h ↦ rw h tt ]

  give_up-Post : (m : ModbusError) (t : Coordinator W) → Post Tolerated (give_up l m t)
  unfolding give_up
  give_up-Post m t = state-Post Tolerated _ t (
      bind-Post (λ u. Unit {0}) Tolerated _ _ t (Keeps-any _) tt
        λ _ u _.
          bind-Post (λ u. Unit {0}) Tolerated _ _ u (Keeps-any _) tt
            λ _ v _. pure-Post Tolerated (poll_failure m) v (failure-Tolerated m v))

  failed_with-Post :
      (m : ModbusError) (o : Option ModbusPoll) (t : Coordinator W)
      → o ≡ last
      → Post Tolerated (failed_with l m o t)
  unfolding failed_with
  failed_with-Post m none t e = give_up-Post m t
  failed_with-Post m (some p) t e = state-Post Tolerated _ t (
      if-Post Tolerated (in_window l t) _ _ t
        (λ w.
          bind-Post (λ u. in_window l u ≡ true) Tolerated _ _ t
            (Keeps-modify count_tolerated (λ u h. h)) w
            λ _ u h.
              pure-Post Tolerated (shown (kept p)) u
                (λ _. (subst (λ q. From q (kept p)) e refl, h)))
        (λ _. give_up-Post m t))

  failed_poll-Post :
      (m : ModbusError) (t : Coordinator W) → Same t → Post Tolerated (failed_poll l m t)
  unfolding failed_poll
  failed_poll-Post m t h = state-Post Tolerated _ t (failed_with-Post m t.last t h)

  timed_out-Same : Keeps Same (timed_out l)
  unfolding timed_out
  timed_out-Same = Keeps-bind _ _ (Keeps-modify _ (λ t h. h)) λ _. Keeps-bind-state _ λ t h.
      Keeps-if (ltb t.timeouts timeouts_before_recycle) _ _ (λ _. Keeps-pure tt)
        (λ _. Keeps-bind _ _ (bus-Same _) (λ _. Keeps-modify _ (λ u k. k)))

  lost_poll-Post :
      (e : Error) (o : Option ModbusError) (t : Coordinator W)
      → Same t
      → Post Tolerated (lost_poll l e o t)
  unfolding lost_poll
  lost_poll-Post e none t h = raise-Post Tolerated e t
  lost_poll-Post e (some m) t h =
      bind-Post Same Tolerated _ _ t
        (Keeps-if (is_timeout m) _ _ (λ _. timed_out-Same) (λ _. Keeps-pure tt)) h
        (λ _ u k. failed_poll-Post m u k)

  module _ (numbers : Numbers) (primary : ℕ) (location : Option ℕ) where
    good_poll-Post :
        (r : UpdateReport) (t : Coordinator W)
        → Post Tolerated (good_poll numbers primary location l r t)
    unfolding good_poll
    good_poll-Post r t =
        bind-Post (λ u. Unit {0}) Tolerated _ _ t (Keeps-any _) tt
          λ _ u _.
            bind-Post (λ u. Unit {0}) Tolerated _ _ u (Keeps-any _) tt
              λ _ v _. bind-Post (λ u. Unit {0}) Tolerated _ _ v (Keeps-any _) tt λ _ w _. fresh w
      where
        fresh :
            (w : Coordinator W)
            → Post Tolerated
                (gets (λ s. shown (poll_of numbers primary location (l.readings s.bus) r)) w)
        fresh w = unfold poll_of ◌>>=◌ in λ h. cc h

    after_update-Post :
        (r : Result UpdateReport) (t : Coordinator W)
        → Same t
        → Post Tolerated (after_update numbers primary location l r t)
    unfolding after_update
    after_update-Post (ok report) t h =
        bind-Post (λ u. Unit {0}) Tolerated _ _ t (Keeps-any _) tt
          λ _ u _.
            if-Post Tolerated (is_empty report.updated) _ _ u
              (λ _. pure-Post Tolerated update_failed u tt) (λ _. good_poll-Post report u)
    after_update-Post (err map_shift) t h =
        bind-Post (λ u. Unit {0}) Tolerated _ _ t (Keeps-any _) tt
          λ _ u _. pure-Post Tolerated update_failed u tt
    after_update-Post (err (modbus m)) t h = lost_poll-Post (modbus m) _ t h
    after_update-Post (err bad_value) t h = lost_poll-Post bad_value _ t h
    after_update-Post (err cancelled) t h = lost_poll-Post cancelled _ t h
    after_update-Post (err sunspec) t h = lost_poll-Post sunspec _ t h
    after_update-Post (err (refused k)) t h = lost_poll-Post (refused k) _ t h
    after_update-Post (err (web e)) t h = lost_poll-Post (web e) _ t h

    update_data-Post :
        (s : Coordinator W) → Same s → Post Tolerated (update_data numbers primary location l s)
    unfolding update_data attempt zoom
    update_data-Post s h = after_update-Post (l.update s.bus).0 _ h

pub retained_in_window :
    {W : Type 0} (l : Link W) (numbers : Numbers) (primary : ℕ) (location : Option ℕ)
    (s : Coordinator W) (p : ModbusPoll)
    → (update_data numbers primary location l s).0 ≡ ok (shown p)
    → p.retained ≡ true
    → From s.last p × (in_window l (update_data numbers primary location l s).1 ≡ true)
retained_in_window l numbers primary location s p e h =
    answered (update_data numbers primary location l s) e
      (update_data-Post l s.last numbers primary location s refl)
  where
    answered :
        (r : Result Outcome × Coordinator _)
        → r.0 ≡ ok (shown p)
        → Post (Tolerated l s.last) r
        → From s.last p × (in_window l r.1 ≡ true)
    answered (ok (shown q), t) f k =
        let same : q ≡ p = cc f in
        subst (λ x. From s.last x × (in_window l t ≡ true)) same (k (ap (λ x. x.retained) same ∙ h))
    answered (ok unreachable, t) f k = cc f
    answered (ok update_failed, t) f k = cc f
    answered (err x, t) f k = cc f
