-- ===== src/Web/Control/Tickets/Laws.antt =====
-- What _last_writer_wins of web_control.py leaves written, whatever calls come in.
use mathlib.Core.Path.{subst}
use fronius_modbus.Common.{
  ◌+◌, ◌≡◌, refl, sym, ap, ◌∙◌, inl, inr, Option, none, some, List, [], ◌∷◌, ◌++◌, ◌==◌, arith, All,
  Bool-cases, ==_iff,
}
use fronius_modbus.Web.Control.Tickets.{
  Waiter, ours, another, Holder, free, woken, other_write, our_write, Burst, Event, calls,
  other_calls, ends, resumes, at_rest, queued, call_at, other_at, end_at, resume_with, resume_at,
  step, run, released, next_holder,
}
use fronius_modbus.Web.Control.Tickets.Queued.{
  last_of, last_of-concat, called, newest, IsIssued, Single, Reaches, older, All-concat,
  newest-concat, Single-concat, newest-another, Single-another,
}

module _ {V : Type 0} where
  -- The value called last is written last, or waits with the last ticket.
  record Follows (last : Option V) (s : Burst V) : Type 0 where
    idle : (s.holder ≡ free) → s.waiting ≡ []
    old : All (IsIssued s.issued) s.waiting
    single : Single s.issued s.waiting
    reaches : Reaches last s.written (newest s.issued s.waiting)

  module _ (last : Option V) (s : Burst V) (f : Follows last s) where
    call_queued :
        (v : V)
        → (s.holder ≡ free → ⊥)
        → Follows (some v) (queued (s.issued + 1) (ours (s.issued + 1) v) s)
    call_queued v busy = record {
      idle = λ e. absurd (busy e);
      old = All-concat (s.issued + 1) s.waiting _ (older s.issued s.waiting f.old) (omega arith);
      single = Single-concat s.issued s.waiting v f.old;
      reaches = inr (v, refl, newest-concat s.issued s.waiting v f.old);
    }

    other_queued : (s.holder ≡ free → ⊥) → Follows last (queued s.issued another s)
    other_queued busy = record {
      idle = λ e. absurd (busy e);
      old = All-concat s.issued s.waiting another f.old tt;
      single = Single-another s.issued s.waiting f.single;
      reaches = subst (Reaches last s.written) (sym (newest-another s.issued s.waiting)) f.reaches;
    }

  empty_if_free : (ws : List (Waiter V)) → next_holder ws ≡ free → ws ≡ []
  empty_if_free [] e = refl
  empty_if_free (w ∷ ws) e = absurd (cc e)

  module _ (last : Option V) (s : Burst V) where
    -- The call whose ticket is the last is the one that is written.
    written_now :
        (v : V) (waits : Option V)
        → waits ≡ none
        → Reaches last s.written (some v)
        → Reaches last (s.written ++ v ∷ []) waits
    written_now v waits n (inl (e, p)) = absurd (cc p)
    written_now v waits n (inr (x, e, p)) = inl (last_of-concat s.written v ∙ cc (e, p), n)

    resume-Follows :
        (ws : List (Waiter V)) → s.waiting ≡ ws → Follows last s → Follows last (resume_with ws s)
    resume-Follows [] e f = f
    resume-Follows (another ∷ ws) e f =
        let n = s.issued in
        record {
          idle = λ x. absurd (cc x);
          old = (subst (All (IsIssued n)) e f.old).1;
          single = subst (Single n) e f.single;
          reaches =
              subst (Reaches last s.written) (ap (newest n) e ∙ unfold newest in refl) f.reaches;
        }
    resume-Follows (ours k v ∷ ws) e f = elim (Bool-cases (k == s.issued)) [
      | inl m ↦ rw m (record {
        idle = λ x. absurd (cc x);
        old = (subst (All (IsIssued s.issued)) e f.old).1;
        single = (subst (Single s.issued) e f.single).1;
        reaches =
            written_now v _ ((subst (Single s.issued) e f.single).0 ((==_iff k s.issued).0 m)) (
              subst (Reaches last s.written) (ap (newest s.issued) e ∙ unfold newest in rw m)
                f.reaches);
      })
      | inr m ↦ rw m (record {
        idle = empty_if_free ws;
        old = (subst (All (IsIssued s.issued)) e f.old).1;
        single = (subst (Single s.issued) e f.single).1;
        reaches =
            subst (Reaches last s.written) (ap (newest s.issued) e ∙ unfold newest in rw m)
              f.reaches;
      })
    ]

  module _ (last : Option V) (s : Burst V) (f : Follows last s) where
    call-Follows : (h : Holder) (v : V) → s.holder ≡ h → Follows (some v) (call_at h v s)
    call-Follows free v e = record {
      idle = λ x. absurd (cc x);
      old = older s.issued s.waiting f.old;
      single = subst (Single (s.issued + 1)) (sym (f.idle e)) tt;
      reaches = inl (
        last_of-concat s.written v,
        ap (newest (s.issued + 1)) (f.idle e) ∙ unfold newest in refl,
      );
    }
    call-Follows woken v e = call_queued last s f v (λ x. cc (e, x))
    call-Follows other_write v e = call_queued last s f v (λ x. cc (e, x))
    call-Follows our_write v e = call_queued last s f v (λ x. cc (e, x))

    other-Follows : (h : Holder) → s.holder ≡ h → Follows last (other_at h s)
    other-Follows free e = record {
      idle = λ x. absurd (cc x);
      old = f.old;
      single = f.single;
      reaches = f.reaches;
    }
    other-Follows woken e = other_queued last s f (λ x. cc (e, x))
    other-Follows other_write e = other_queued last s f (λ x. cc (e, x))
    other-Follows our_write e = other_queued last s f (λ x. cc (e, x))

    released-Follows : Follows last (released s.waiting s)
    released-Follows = record {
      idle = empty_if_free s.waiting;
      old = f.old;
      single = f.single;
      reaches = f.reaches;
    }

    end-Follows : (h : Holder) → Follows last (end_at h s)
    end-Follows free = f
    end-Follows woken = f
    end-Follows other_write = released-Follows
    end-Follows our_write = released-Follows

    woken-Follows : (h : Holder) → Follows last (resume_at h s)
    woken-Follows free = f
    woken-Follows woken = resume-Follows last s s.waiting refl f
    woken-Follows other_write = f
    woken-Follows our_write = f

  run-Follows :
      (es : List (Event V)) (last : Option V) (s : Burst V)
      → Follows last s
      → Follows (called last es) (run es s)
  unfolding run step called
  run-Follows [] last s f = f
  run-Follows (calls v ∷ es) last s f =
      run-Follows es (some v) (call_at s.holder v s) (call-Follows last s f s.holder v refl)
  run-Follows (other_calls ∷ es) last s f =
      run-Follows es last (other_at s.holder s) (other-Follows last s f s.holder refl)
  run-Follows (ends ∷ es) last s f =
      run-Follows es last (end_at s.holder s) (end-Follows last s f s.holder)
  run-Follows (resumes ∷ es) last s f =
      run-Follows es last (resume_at s.holder s) (woken-Follows last s f s.holder)

  rest-Follows : Follows none at_rest
  unfolding at_rest newest
  rest-Follows = record { idle = λ e. refl; old = tt; single = tt; reaches = inl (refl, refl) }

  nobody_waits :
      (last : Option V) (s : Burst V) → Follows last s → s.waiting ≡ [] → last_of s.written ≡ last
  nobody_waits last s f e =
      found (subst (Reaches last s.written) (ap (newest s.issued) e) f.reaches)
    where
      found : Reaches last s.written (newest s.issued []) → last_of s.written ≡ last
      found (inl p) = p.0
      found (inr (v, p, q)) = absurd (unfold newest in cc q)

  -- Whatever calls of a control come in, beside other writes and at whatever moment of them, once
  -- the lock is free the value that was written last is the one that was called last.
  pub last_writer_wins :
      (es : List (Event V))
      → (run es at_rest).holder ≡ free
      → last_of (run es at_rest).written ≡ called none es
  last_writer_wins es e =
      let f = run-Follows es none at_rest rest-Follows in
      nobody_waits (called none es) (run es at_rest) f (f.idle e)
