-- ===== src/Web/Control/Tickets/Bursts.antt =====
-- What _last_writer_wins of web_control.py writes of one burst of calls.
use mathlib.Core.List.{append-nil, append_assoc}
use fronius_modbus.Common.{
  ℕ, ◌+◌, ◌≤◌, ◌≡◌, refl, sym, ap, ◌∙◌, false, some, List, [], ◌∷◌, ◌++◌, map, ◌==◌, arith,
}
use fronius_modbus.Web.Control.Tickets.{
  Waiter, ours, Holder, woken, our_write, Burst, Event, calls, ends, resumes, at_rest, step, run,
  next_holder,
}
use fronius_modbus.Web.Control.Tickets.Queued.{last_of}

module _ {V : Type 0} where
  -- A burst: calls while the first one is written, the end of its write, and every waiter in turn.
  abbrev pub burst : V → List V → List (Event V)
  burst v vs = calls v ∷ (map (λ w. calls w) vs ++ (ends ∷ map (λ w. resumes) vs))

  -- The waiters that a burst leaves.
  tickets : ℕ → List V → List (Waiter V)
  tickets n [] = []
  tickets n (v ∷ vs) = ours (n + 1) v ∷ tickets (n + 1) vs

  last_ticket : ℕ → List V → ℕ
  last_ticket n [] = n
  last_ticket n (v ∷ vs) = last_ticket (n + 1) vs

  le-last_ticket : (n : ℕ) (vs : List V) → n ≤ last_ticket n vs
  unfolding last_ticket
  le-last_ticket n [] = omega arith
  le-last_ticket n (v ∷ vs) = omega (arith, le-last_ticket (n + 1) vs)

  run-append : (es fs : List (Event V)) (s : Burst V) → run (es ++ fs) s ≡ run fs (run es s)
  unfolding run
  run-append [] fs s = refl
  run-append (e ∷ es) fs s = run-append es fs (step e s)

  state : ℕ → Holder → List (Waiter V) → List V → Burst V
  state n h ws written = record { issued = n; holder = h; waiting = ws; written = written }

  calls_wait :
      (vs : List V) (n : ℕ) (ws : List (Waiter V)) (written : List V)
      → run (map (λ w. calls w) vs) (state n our_write ws written)
        ≡ state (last_ticket n vs) our_write (ws ++ tickets n vs) written
  unfolding run step state last_ticket tickets
  calls_wait [] n ws written = ap (λ x. state n our_write x written) (sym (append-nil ws))
  calls_wait (v ∷ vs) n ws written =
      calls_wait vs (n + 1) (ws ++ ours (n + 1) v ∷ []) written
      ∙ ap (λ x. state (last_ticket (n + 1) vs) our_write x written)
          (append_assoc ws (ours (n + 1) v ∷ []) (tickets (n + 1) vs))

  not_last : (n : ℕ) (w : V) (vs : List V) → ((n + 1) == last_ticket (n + 1) (w ∷ vs)) ≡ false
  unfolding last_ticket
  not_last n w vs = ground (arith, le-last_ticket (n + 1 + 1) vs)

  -- A call whose ticket is no longer the last hands the lock on.
  late :
      (k : ℕ) (v : V) (n : ℕ) (ws : List (Waiter V)) (written : List V)
      → (k == n) ≡ false
      → step resumes (state n woken (ours k v ∷ ws) written) ≡ state n (next_holder ws) ws written
  unfolding step state
  late k v n ws written e = rw e

  last_alone : (v u : V) → last_of (v ∷ []) ≡ some u → v ≡ u
  last_alone v u e = cc e

  -- The waiters return one by one, but for the last, which writes.
  waiters_return :
      (v : V) (vs : List V) (u : V) (n : ℕ) (written : List V)
      → last_of (v ∷ vs) ≡ some u
      → (run
          (map (λ w. resumes) (v ∷ vs))
          (state (last_ticket n (v ∷ vs)) woken (tickets n (v ∷ vs)) written)).written
        ≡ written ++ u ∷ []
  unfolding run step state last_ticket tickets
  waiters_return v [] u n written e = ground (arith, last_alone v u e)
  waiters_return v (w ∷ vs) u n written e =
      ap (λ s. (run (map (λ x. resumes) (w ∷ vs)) s).written)
        (late (n + 1) v (last_ticket (n + 1) (w ∷ vs)) (tickets (n + 1) (w ∷ vs)) written
          (not_last n w vs))
      ∙ waiters_return w vs u (n + 1) written e

  -- Of a burst of calls that come in while the first of them is written, the first value and the
  -- last one are written, and none between.
  pub burst_writes_two :
      (v w : V) (ws : List V) (u : V)
      → last_of (w ∷ ws) ≡ some u
      → (run (burst v (w ∷ ws)) at_rest).written ≡ v ∷ u ∷ []
  unfolding run step at_rest state tickets
  burst_writes_two v w ws u e =
      let front = state 1 our_write [] (v ∷ []) in
      let rest = ends ∷ map (λ x. resumes) (w ∷ ws) in
      let later = map (λ x. calls x) (w ∷ ws) in
      ap (λ s. s.written) (run-append later rest front)
      ∙ ap (λ s. (run rest s).written) (calls_wait (w ∷ ws) 1 [] (v ∷ []))
      ∙ waiters_return w ws u 1 (v ∷ []) e
