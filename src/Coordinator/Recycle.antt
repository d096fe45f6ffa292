-- ===== src/Coordinator/Recycle.antt =====
-- How timeouts recycle the connection: FroniusModbusCoordinator of coordinator.py.
use mathlib.Core.Path.{subst}
use fronius_modbus.Common.{
  ℕ, ◌+◌, ◌≤◌, ◌<◌, ◌≡◌, ◌⊎◌, inl, inr, refl, sym, true, false, Option, none, some, ltb, Bool-cases,
  arith, ◌==◌,
}
use fronius_modbus.Numbers.{Numbers}
use fronius_modbus.Exec.{ModbusError, modbus, timeout, ok, err, ◌>>=◌, attempt, zoom}
use fronius_modbus.Exec.Keeps.{
  Keeps, Keeps-bind, Keeps-bind-state, Keeps-modify, Keeps-if, Keeps-pure,
}
use fronius_modbus.Device.Meters.{as_modbus_error}
use fronius_modbus.Coordinator.{
  Coordinator, Link, ModbusPoll, in_window, give_up, failed_with, failed_poll, timed_out, lost_poll,
  on_bus, timeouts_before_recycle,
}
use fronius_modbus.Coordinator.Values.{after_update, update_data}

module _ {W : Type 0} (l : Link W) (count : W → ℕ) where
  -- A device that never answers a read in time, over a connection whose recyclings are counted.
  pub record NeverAnswers : Type 0 where
    pub times_out : (w : W) → (l.update w).0 ≡ err (modbus timeout)
    pub update_count : (w : W) → count (l.update w).1 ≡ count w
    pub disconnects : (w : W) → (l.disconnect w).0 ≡ ok tt
    pub disconnect_count : (w : W) → count (l.disconnect w).1 ≡ count w + 1

  -- The count of timeouts is `k`, and at least `n` recyclings are counted.
  abbrev AtLeast : ℕ → ℕ → Coordinator W → Type 0
  AtLeast k n t = (t.timeouts ≡ k) × (n ≤ count t.bus)

  module _ (h : NeverAnswers) (k n : ℕ) where
    disconnect-AtLeast : Keeps (AtLeast k n) (on_bus l.disconnect)
    unfolding zoom
    disconnect-AtLeast = record {
      at = λ t p. (p.0, subst (λ c. n ≤ c) (sym (h.disconnect_count t.bus)) (omega arith));
    }

    give_up-AtLeast : (m : ModbusError) → Keeps (AtLeast k n) (give_up l m)
    unfolding give_up
    give_up-AtLeast m = Keeps-bind-state _ λ t p.
        Keeps-bind _ _
          (Keeps-if (t.tolerated_failures == 0) _ _ (λ _. Keeps-pure tt)
            (λ _. Keeps-bind _ _ (Keeps-modify _ (λ u q. q)) (λ _. disconnect-AtLeast)))
          λ _. Keeps-bind _ _ (Keeps-modify _ (λ u q. q)) (λ _. Keeps-pure _)

    failed_with-AtLeast :
        (m : ModbusError) (o : Option ModbusPoll) → Keeps (AtLeast k n) (failed_with l m o)
    unfolding failed_with
    failed_with-AtLeast m none = give_up-AtLeast m
    failed_with-AtLeast m (some p) = Keeps-bind-state _ λ t q.
        Keeps-if (in_window l t) _ _
          (λ _. Keeps-bind _ _ (Keeps-modify _ (λ u r. r)) (λ _. Keeps-pure _))
          (λ _. give_up-AtLeast m)

    failed_poll-AtLeast : (m : ModbusError) → Keeps (AtLeast k n) (failed_poll l m)
    unfolding failed_poll
    failed_poll-AtLeast m = Keeps-bind-state _ λ t p. failed_with-AtLeast m t.last

  -- Both ways that a timeout is counted.
  abbrev Counted : ℕ → ℕ → Coordinator W → Type 0
  Counted k n t =
      ((k + 1 < timeouts_before_recycle) × AtLeast (k + 1) n t)
      ⊎ ((timeouts_before_recycle ≤ k + 1) × AtLeast 0 (n + 1) t)

  module _ (h : NeverAnswers) where
    timed_out-few :
        (t : Coordinator W)
        → ltb (t.timeouts + 1) timeouts_before_recycle ≡ true
        → timed_out l t ≡ (ok tt, record t { timeouts = t.timeouts + 1 })
    unfolding timed_out ◌>>=◌
    timed_out-few t e = rw e refl

    timed_out-many :
        (t : Coordinator W)
        → ltb (t.timeouts + 1) timeouts_before_recycle ≡ false
        → timed_out l t ≡ (ok tt, record t { timeouts = 0; bus = (l.disconnect t.bus).1 })
    unfolding timed_out ◌>>=◌ zoom
    timed_out-many t e = rw (e, h.disconnects t.bus) refl

    lost_step :
        (t : Coordinator W)
        → Counted t.timeouts (count t.bus) (lost_poll l (modbus timeout) (some timeout) t).1
    unfolding lost_poll ◌>>=◌
    lost_step t = elim (Bool-cases (ltb (t.timeouts + 1) timeouts_before_recycle)) [
      | inl e ↦ rw (timed_out-few t e) (
          inl (
            ground arith,
            (failed_poll-AtLeast h (t.timeouts + 1) (count t.bus) timeout).at
                (record t { timeouts = t.timeouts + 1 }) (refl, omega arith),
          ))
      | inr e ↦ rw (timed_out-many t e) (
          inr (
            ground arith,
            (failed_poll-AtLeast h 0 (count t.bus + 1) timeout).at
                (record t { timeouts = 0; bus = (l.disconnect t.bus).1 })
                (
                  refl,
                  subst (λ c. count t.bus + 1 ≤ c) (sym (h.disconnect_count t.bus)) (omega arith),
                ),
          ))
    ]

    module _ (numbers : Numbers) (primary : ℕ) (location : Option ℕ) where
      -- The state after a number of polls.
      abbrev pub poll : Coordinator W → Coordinator W
      poll s = (update_data numbers primary location l s).1

      poll-Counted : (s : Coordinator W) → Counted s.timeouts (count s.bus) (poll s)
      unfolding update_data after_update as_modbus_error attempt zoom
      poll-Counted s =
          let t : Coordinator W = record s { bus = (l.update s.bus).1 } in
          subst
            (λ r. Counted s.timeouts (count s.bus) (after_update numbers primary location l r t).1)
            (sym (h.times_out s.bus))
            (subst (λ c. Counted s.timeouts c (lost_poll l (modbus timeout) (some timeout) t).1)
              (h.update_count s.bus) (lost_step t))

      -- A link that stays up while the device stops answering is recycled: three polls in a row that
      -- time out drop the connection at least once, whatever the count they start from, and leave
      -- the count below its bound.
      pub timeouts_recycle :
          (s : Coordinator W)
          → s.timeouts < timeouts_before_recycle
          → (count s.bus + 1 ≤ count (poll (poll (poll s))).bus)
            × ((poll (poll (poll s))).timeouts < timeouts_before_recycle)
      timeouts_recycle s p =
          let a = poll s in
          let b = poll a in
          let c = poll b in
          three s.timeouts a.timeouts b.timeouts c.timeouts (count s.bus) (count a.bus)
            (count b.bus) (count c.bus) p (poll-Counted s) (poll-Counted a) (poll-Counted b)
        where
          three :
              (k k1 k2 k3 n n1 n2 n3 : ℕ)
              → k < 3
              → ((k + 1 < 3) × ((k1 ≡ k + 1) × (n ≤ n1)))
                ⊎ ((3 ≤ k + 1) × ((k1 ≡ 0) × (n + 1 ≤ n1)))
              → ((k1 + 1 < 3) × ((k2 ≡ k1 + 1) × (n1 ≤ n2)))
                ⊎ ((3 ≤ k1 + 1) × ((k2 ≡ 0) × (n1 + 1 ≤ n2)))
              → ((k2 + 1 < 3) × ((k3 ≡ k2 + 1) × (n2 ≤ n3)))
                ⊎ ((3 ≤ k2 + 1) × ((k3 ≡ 0) × (n2 + 1 ≤ n3)))
              → (n + 1 ≤ n3) × (k3 < 3)
          three k k1 k2 k3 n n1 n2 n3 p a b c = ground arith
