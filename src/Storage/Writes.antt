-- ===== src/Storage/Writes.antt =====
-- How the writes of fronius_modbus_api/storage.py end: what of the control they change when they
-- return, and that they change nothing of it when they raise.
use fronius_modbus.Common.{
  ◌≡◌, ◌⊎◌, refl, Bool, true, false, not, Option, none, some, Float, zero_float, ◌<ℤ◌, ◌==◌, arith,
}
use fronius_modbus.Numbers.{Numbers}
use fronius_modbus.Exec.{Exec, Key, Result, ok, err, zoom}
use fronius_modbus.Exec.Keeps.{
  Keeps, Keeps-bind, Keeps-bind-state, Keeps-gets, Keeps-pure, Keeps-guard, Keeps-if,
}
use fronius_modbus.Exec.Ends.{Ends, bind-Ends, guard-Ends, modify-Ends}
use fronius_modbus.Registers.{Component, Value}
use fronius_modbus.Storage.Modes.{ExtendedMode, Image}
use fronius_modbus.Storage.Control.{StorageControl}
use fronius_modbus.Storage.Fields.{Field, has_field, is_selected}
use fronius_modbus.Storage.Live.{on_bus, with_lock}
use fronius_modbus.Storage.SetMode.{kept_power, grid_power_kept, set_mode}
use fronius_modbus.Storage.SetRate.{
  set_rate, switched_on, send_rate, blocks_both, image_or_table, image_for_a_rate, write_rate_in,
  write_rate,
}

module _ {W : Type 0} (s : StorageControl W) where
  -- The choice of `s`, which a failed write leaves as it is.
  pub record Unchanged (t : StorageControl W) : Type 0 where
    pub selected : t.selected ≡ s.selected
    pub unconfirmed_polls : t.unconfirmed_polls ≡ s.unconfirmed_polls
    pub written : t.written ≡ s.written

  unchanged : Unchanged s
  unchanged = record { selected = refl; unconfirmed_polls = refl; written = refl }

  bus-Unchanged : {A : Type 0} (m : Exec W A) → Keeps Unchanged (on_bus m)
  unfolding zoom
  bus-Unchanged m = record {
    at = λ t h. record {
      selected = h.selected;
      unconfirmed_polls = h.unconfirmed_polls;
      written = h.written;
    };
  }

  -- A write that was chosen: the mode, none of whose polls is counted.
  abbrev pub Chosen : ExtendedMode → StorageControl W → Type 0
  Chosen x t = (t.selected ≡ some x) × (t.unconfirmed_polls ≡ some 0)

  -- Rates that leave a way open.
  abbrev pub Open : Option Float → Option Float → Type 0
  Open (some i) (some o) = (zero_float <ℤ i) ⊎ (zero_float <ℤ o)
  Open _ _ = ⊥

  abbrev pub Rated : StorageControl W → Type 0
  Rated t =
      (t.selected ≡ s.selected)
      × (t.unconfirmed_polls ≡ some 0)
      × Open t.written.in_w_rte t.written.out_w_rte

  module _ (c : Component W Field Value) (numbers : Numbers) where
    kept_power-Unchanged :
        (x : ExtendedMode) (f : Option Field) → Keeps Unchanged (kept_power c numbers x f)
    unfolding kept_power
    kept_power-Unchanged x none = Keeps-pure _
    kept_power-Unchanged x (some f) = Keeps-bind-state _ λ t h.
        Keeps-if (is_selected x t.selected) _ _
          (λ _. Keeps-bind _ _ (bus-Unchanged _) (λ r. Keeps-pure _)) (λ _. Keeps-pure _)

    image_or_table-Unchanged : (r : Option Image) → Keeps Unchanged (image_or_table c numbers r)
    unfolding image_or_table
    image_or_table-Unchanged none = Keeps-gets _
    image_or_table-Unchanged (some r) =
        Keeps-bind-state _ λ t h. Keeps-bind _ _ (Keeps-guard _ _) (λ _. Keeps-pure r)

    image_for_a_rate-Unchanged : Keeps Unchanged (image_for_a_rate c numbers)
    unfolding image_for_a_rate
    image_for_a_rate-Unchanged = Keeps-bind _ _ (bus-Unchanged _) image_or_table-Unchanged

    -- The lock around a write is free again, however the write ended.
    with_lock-Ends :
        {A : Type 0} (P : StorageControl W → Type 0) (m : Exec (StorageControl W) A)
        → ((t : StorageControl W) → P t → P (record t { locked = false }))
        → Ends P Unchanged (m (record s { locked = true }))
        → Ends
            (λ t. P t × (t.locked ≡ false))
            (λ t. Unchanged t × (t.locked ≡ false))
            (with_lock m s)
    unfolding with_lock
    with_lock-Ends {A} P m k h = freed (m (record s { locked = true })) h
      where
        freed :
            (r : Result A × StorageControl W)
            → Ends P Unchanged r
            → Ends
                (λ t. P t × (t.locked ≡ false))
                (λ t. Unchanged t × (t.locked ≡ false))
                (r.0, record r.1 { locked = false })
        freed (ok a, t) g = (k t g, refl)
        freed (err e, t) g = (
          record {
            selected = g.selected;
            unconfirmed_polls = g.unconfirmed_polls;
            written = g.written;
          },
          refl,
        )

    start : Unchanged (record s { locked = true })
    start = record { selected = refl; unconfirmed_polls = refl; written = refl }

    -- A mode write either returns, with the mode chosen and no poll counted against it, or raises
    -- and leaves the choice as it was: the mode, the count and the rates written. The lock is free
    -- again both times.
    pub set_mode-Ends :
        (x : ExtendedMode)
        → Ends
            (λ t. Chosen x t × (t.locked ≡ false))
            (λ t. Unchanged t × (t.locked ≡ false))
            (set_mode c numbers x s)
    unfolding set_mode grid_power_kept
    set_mode-Ends x =
        with_lock-Ends (Chosen x) _ (λ t h. h)
          (bind-Ends _ _ _ _ _ (kept_power-Unchanged x _) start λ kept t h.
            bind-Ends _ _ _ _ t (bus-Unchanged _) h λ written u k. modify-Ends _ _ _ u (refl, refl))

    pair-Open : (i o : Float) → not (blocks_both (i, o)) ≡ true → Open (some i) (some o)
    pair-Open i o h = ground arith

    rates-Open :
        (f : Field) (value : Float) (r : Image)
        → not (blocks_both (set_rate f value r)) ≡ true
        → let (i, o) = set_rate f value r in Open (some i) (some o)
    rates-Open f value r h = pair-Open _ _ h

    send_rate-Ends :
        (f : Field) (value : Float) (r : Image) (t : StorageControl W)
        → Unchanged t
        → not (blocks_both (set_rate f value r)) ≡ true
        → Ends Rated Unchanged (send_rate c numbers f value r t)
    unfolding send_rate
    send_rate-Ends f value r t h e = bind-Ends _ _ _ _ t (bus-Unchanged _) h λ holding u k.
        bind-Ends _ _ _ _ u
          (Keeps-if (has_field f holding) _ _ (λ _. Keeps-pure tt) (λ _. bus-Unchanged _)) k
          λ _ v l.
            bind-Ends _ _ _ _ v
              (Keeps-if (switched_on f r.mode == r.mode) _ _ (λ _. Keeps-pure tt)
                (λ _. bus-Unchanged _))
              l λ _ w m. modify-Ends _ _ _ w (m.selected, refl, rates-Open f value r e)

    write_rate_in-Ends :
        (f : Field) (value : Float) (r : Image) (t : StorageControl W)
        → Unchanged t
        → Ends Rated Unchanged (write_rate_in c numbers f value r t)
    unfolding write_rate_in
    write_rate_in-Ends f value r t h =
        guard-Ends _ _ _ _ _ t h λ e. guard-Ends _ _ _ _ _ t h λ _. send_rate-Ends f value r t h e

    -- A write of a rate, which the four setters share, either returns, with at least one of the
    -- two rates it then counts as written above zero, no poll counted against them and the mode as
    -- it was, or raises and leaves the choice as it was. The lock is free again both times.
    pub write_rate-Ends :
        (f : Field) (percent : StorageControl W → Float) (allowed : ExtendedMode → Bool) (key : Key)
        → Ends
            (λ t. Rated t × (t.locked ≡ false))
            (λ t. Unchanged t × (t.locked ≡ false))
            (write_rate c numbers f percent allowed key s)
    unfolding write_rate
    write_rate-Ends f percent allowed key =
        with_lock-Ends Rated _ (λ t h. h)
          (bind-Ends _ _ _ _ _ (Keeps-gets _) start λ before t h. guard-Ends _ _ _ _ _ t h λ _.
            bind-Ends _ _ _ _ t (bus-Unchanged _) h λ value u k.
              bind-Ends _ _ _ _ u image_for_a_rate-Unchanged k
                λ r v l. write_rate_in-Ends f _ r v l)
