-- ===== src/Storage/Sync.antt =====
-- What `sync_from_device` (fronius_modbus_api/storage.py) does with the mode that was chosen.
use fronius_modbus.Common.{
  ℕ, zero, suc, ◌+◌, ◌<◌, ◌≤◌, ◌≡◌, ◌≢◌, ◌⊎◌, refl, inl, inr, true, false, Option, none, some,
  arith,
}
use fronius_modbus.Storage.Modes.{
  ExtendedMode, Image, same_mode, derive_extended_mode, mode_write_grace_polls,
}
use fronius_modbus.Storage.Control.{
  Written, StorageControl, nothing_written, applied_image, holds_selected, sync_image,
  sync_from_device,
}

same_mode_refl : (x : ExtendedMode) → same_mode x x ≡ true
same_mode_refl x = ground arith

-- The polls that may leave a chosen mode unconfirmed stay below their bound.
abbrev pub IsWithinGrace : Option ℕ → Type 0
IsWithinGrace none = Unit
IsWithinGrace (some n) = n < mode_write_grace_polls

abbrev counted : Option ℕ → ℕ
counted none = 0
counted (some n) = n

-- The mode that an image derives to is held by it, whatever was written.
holds-derived : (w : Written) (r : Image) → holds_selected w (derive_extended_mode r) r ≡ true
unfolding holds_selected
holds-derived w r = rw same_mode_refl

module _ {W : Type 0} where
  -- A poll keeps the count of unconfirmed polls below the grace.
  pub sync-IsWithinGrace :
      (s : StorageControl W)
      → IsWithinGrace s.unconfirmed_polls
      → IsWithinGrace (sync_from_device s).unconfirmed_polls
  unfolding sync_from_device
  sync-IsWithinGrace s h = ground arith

  -- Once the registers have won, polls of the same registers change no more of the choice.
  settled :
      (r : Image) (s : StorageControl W)
      → s.selected ≡ some (derive_extended_mode r)
      → let s' = sync_image r s in
        (s'.selected ≡ some (derive_extended_mode r)) × (s'.written ≡ s.written)
  unfolding sync_image
  settled r s e = ground (arith, holds-derived s.written r)

  held :
      (r : Image) (x : ExtendedMode) (s : StorageControl W)
      → s.selected ≡ some x
      → holds_selected s.written x r ≡ true
      → let s' = sync_image r s in
        (s'.selected ≡ some x) × (s'.written ≡ s.written) × (s'.unconfirmed_polls ≡ none)
  unfolding sync_image
  held r x s e h = ground arith

  -- A poll that does not hold the mode counts, or the registers win.
  unheld :
      (r : Image) (x : ExtendedMode) (s : StorageControl W)
      → s.selected ≡ some x
      → holds_selected s.written x r ≡ false
      → let s' = sync_image r s in
        ((s'.selected ≡ some (derive_extended_mode r)) × (s'.written ≡ nothing_written))
        ⊎ ((s'.selected ≡ some x)
            × (s'.written ≡ s.written)
            × (s'.unconfirmed_polls ≡ some (counted s.unconfirmed_polls + 1))
            × (counted s.unconfirmed_polls + 1 < mode_write_grace_polls)
            × (s.unconfirmed_polls ≢ none))
  unfolding sync_image
  unheld r x s e h = ground arith

  -- Polls in a row that read the same registers.
  unfoldable pub polls : ℕ → StorageControl W → StorageControl W
  polls zero s = s
  polls (suc n) s = polls n (sync_from_device s)

  -- What the polls of one image leave alone.
  record Reads (r : Image) (s : StorageControl W) : Type 0 where
    unlocked : s.locked ≡ false
    read : applied_image s.polled ≡ some r

  sync-Reads : {r : Image} (s : StorageControl W) → Reads r s → Reads r (sync_from_device s)
  unfolding sync_from_device
  sync-Reads s h = ground arith

  sync-eq-sync_image :
      {r : Image} (s : StorageControl W) → Reads r s → sync_from_device s ≡ sync_image r s
  unfolding sync_from_device
  sync-eq-sync_image s h = ground (arith, h.unlocked, h.read)

  settled_polls :
      (n : ℕ) (r : Image) (s : StorageControl W)
      → Reads r s
      → s.selected ≡ some (derive_extended_mode r)
      → ((polls n s).selected ≡ some (derive_extended_mode r)) × ((polls n s).written ≡ s.written)
  unfolding polls
  settled_polls zero r s h e = (e, refl)
  settled_polls (suc n) r s h e = ground (
    arith,
    settled r s e,
    sync-eq-sync_image s h,
    settled_polls n r (sync_from_device s) (sync-Reads s h),
  )

  unheld_polls :
      (n : ℕ) (r : Image) (x : ExtendedMode) (s : StorageControl W)
      → Reads r s
      → s.selected ≡ some x
      → holds_selected s.written x r ≡ false
      → 1 ≤ n
      → mode_write_grace_polls ≤ counted s.unconfirmed_polls + n
      → ((polls n s).selected ≡ some (derive_extended_mode r))
        × ((polls n s).written ≡ nothing_written)
  unfolding polls
  unheld_polls zero r x s h e f p q = absurd (omega arith)
  unheld_polls (suc n) r x s h e f p q = elim (unheld r x s e f) [
    | inl won ↦
        ground
          (arith, sync-eq-sync_image s h, settled_polls n r (sync_from_device s) (sync-Reads s h))
    | inr waits ↦
        ground
          (arith, sync-eq-sync_image s h, unheld_polls n r x (sync_from_device s) (sync-Reads s h))
  ]

  -- Registers that do not hold the chosen mode replace it: after any three or more polls that read
  -- them, outside a write, the mode is the one that they mean, and nothing counts as written.
  pub registers_win :
      (n : ℕ) {r : Image} {x : ExtendedMode} (s : StorageControl W)
      → s.locked ≡ false
      → applied_image s.polled ≡ some r
      → s.selected ≡ some x
      → holds_selected s.written x r ≡ false
      → mode_write_grace_polls ≤ n
      → ((polls n s).selected ≡ some (derive_extended_mode r))
        × ((polls n s).written ≡ nothing_written)
  registers_win n {r} {x} s l e f h p =
      unheld_polls n r x s (record { unlocked = l; read = e }) f h (omega arith) (omega arith)

  polls-zero : (n : ℕ) (s : StorageControl W) → n ≡ 0 → polls n s ≡ s
  unfolding polls
  polls-zero zero s h = refl
  polls-zero (suc n) s h = absurd (omega arith)

  held_polls :
      (n : ℕ) (r : Image) (x : ExtendedMode) (s : StorageControl W)
      → Reads r s
      → s.selected ≡ some x
      → holds_selected s.written x r ≡ true
      → ((polls n s).selected ≡ some x)
        × ((polls n s).written ≡ s.written)
        × (1 ≤ n → (polls n s).unconfirmed_polls ≡ none)
  unfolding polls
  held_polls zero r x s h e f = (e, refl, λ p. absurd (omega arith))
  held_polls (suc n) r x s h e f = ground (
    arith,
    held r x s e f,
    sync-eq-sync_image s h,
    held_polls n r x (sync_from_device s) (sync-Reads s h),
    polls-zero n (sync_from_device s),
  )

  pub registers_confirm :
      (n : ℕ) {r : Image} {x : ExtendedMode} (s : StorageControl W)
      → s.locked ≡ false
      → applied_image s.polled ≡ some r
      → s.selected ≡ some x
      → holds_selected s.written x r ≡ true
      → 1 ≤ n
      → ((polls n s).selected ≡ some x)
        × ((polls n s).written ≡ s.written)
        × ((polls n s).unconfirmed_polls ≡ none)
  registers_confirm n {r} {x} s l e f h p =
      let (a, b, k) = held_polls n r x s (record { unlocked = l; read = e }) f h in (a, b, k p)
