-- ===== src/Web/Control/Tickets.antt =====
-- Bursts of one control: `_last_writer_wins` and `_serialised` of web_control.py, on the one write
-- lock. A lock of asyncio hands itself to its waiters in their order, and a waiter that it woke runs
-- later: other calls may come in between. No caller is cancelled while it waits.
pub mod Queued
pub mod Laws
pub mod Bursts
use fronius_modbus.Common.{
  ℕ, ◌+◌, Bool, true, false, Option, none, some, List, [], ◌∷◌, ◌++◌, map, ◌==◌, if◌then◌else◌,
}

-- Who waits for the lock: a call of the control with its ticket and value, or another setter.
pub data Waiter (V : Type 0) : Type 0 where
  ours : ℕ → V → Waiter V
  another : Waiter V

-- Who has the lock: nobody, the first waiter, which it woke, another setter, or a write of the
-- control.
pub data Holder : Type 0 where
  free woken other_write our_write : Holder

-- `self._tickets[name]`, the lock, and the values that the control has written, the newest last.
pub record Burst (V : Type 0) : Type 0 where
  pub issued : ℕ
  pub holder : Holder
  pub waiting : List (Waiter V)
  pub written : List V

pub data Event (V : Type 0) : Type 0 where
  calls : V → Event V
  other_calls : Event V
  -- the holder's write ends, returned or raised
  ends : Event V
  -- the waiter that was woken runs
  resumes : Event V

module _ {V : Type 0} where
  unfoldable pub at_rest : Burst V
  at_rest = record { issued = 0; holder = free; waiting = []; written = [] }

  abbrev pub with_lock : ℕ → V → Burst V → Burst V
  with_lock ticket v s = record s {
    issued = ticket;
    holder = our_write;
    written = s.written ++ v ∷ [];
  }

  abbrev pub queued : ℕ → Waiter V → Burst V → Burst V
  queued ticket w s = record s { issued = ticket; waiting = s.waiting ++ w ∷ [] }

  -- `ticket = self._tickets[name] = self._tickets.get(name, 0) + 1`, then the lock
  abbrev pub call_at : Holder → V → Burst V → Burst V
  call_at free v s = with_lock (s.issued + 1) v s
  call_at woken v s = queued (s.issued + 1) (ours (s.issued + 1) v) s
  call_at other_write v s = queued (s.issued + 1) (ours (s.issued + 1) v) s
  call_at our_write v s = queued (s.issued + 1) (ours (s.issued + 1) v) s

  abbrev pub other_at : Holder → Burst V → Burst V
  other_at free s = record s { holder = other_write }
  other_at woken s = queued s.issued another s
  other_at other_write s = queued s.issued another s
  other_at our_write s = queued s.issued another s

  abbrev pub next_holder : List (Waiter V) → Holder
  next_holder [] = free
  next_holder (w ∷ ws) = woken

  abbrev pub released : List (Waiter V) → Burst V → Burst V
  released ws s = record s { holder = next_holder ws; waiting = ws }

  abbrev pub end_at : Holder → Burst V → Burst V
  end_at other_write s = released s.waiting s
  end_at our_write s = released s.waiting s
  end_at free s = s
  end_at woken s = s

  -- The first waiter has the lock: a call whose ticket is no longer the last returns.
  abbrev pub resume_with : List (Waiter V) → Burst V → Burst V
  resume_with [] s = s
  resume_with (another ∷ ws) s = record s { holder = other_write; waiting = ws }
  resume_with (ours ticket v ∷ ws) s =
      if ticket == s.issued
      then record s { holder = our_write; waiting = ws; written = s.written ++ v ∷ [] }
      else released ws s

  abbrev pub resume_at : Holder → Burst V → Burst V
  resume_at woken s = resume_with s.waiting s
  resume_at free s = s
  resume_at other_write s = s
  resume_at our_write s = s

  unfoldable pub step : Event V → Burst V → Burst V
  step (calls v) s = call_at s.holder v s
  step other_calls s = other_at s.holder s
  step ends s = end_at s.holder s
  step resumes s = resume_at s.holder s

  unfoldable pub run : List (Event V) → Burst V → Burst V
  run [] s = s
  run (e ∷ es) s = run es (step e s)
