-- ===== src/Web/ExportLimit/Laws.antt =====
-- The soft limit that is written is the one that is read back.
use mathlib.Core.Path.{subst}
use fronius_modbus.Common.{◌≡◌, refl, sym, true, some, ℤ}
use fronius_modbus.Json.{bool, int, Members, get, put}
use fronius_modbus.Json.Laws.{get-put, find-put}
use fronius_modbus.Web.Text.{Text}
use fronius_modbus.Web.Flags.{flag_value, int_of}
use fronius_modbus.Web.Configs.{config_part}
use fronius_modbus.Web.ExportLimit.{
  Place, in_block, in_soft, soft_limit_place, holder_at, soft_limit_value, limited, with_block,
  shown_soft_limit, limit_if_on,
}

module _ (t : Text) (soft : Members) (w : ℤ) where
  -- A block that was written, wherever its firmware keeps the limit, is one with the limit.
  block_shown :
      (active_power : Members) (p : Place)
      → soft_limit_place active_power ≡ p
      → int_of t (soft_limit_value (limited p active_power soft w)) ≡ some w
  unfolding soft_limit_place soft_limit_value holder_at limited int_of
  block_shown active_power in_block e = simp (get-put, find-put)
  block_shown active_power in_soft e = simp (get-put, find-put, e)

  soft_of : Place → Members
  soft_of in_block = put "enabled" (bool true) soft
  soft_of in_soft = put "powerLimit" (int w) (put "enabled" (bool true) soft)

  soft_back :
      (active_power : Members) (p : Place)
      → config_part (some (limited p active_power soft w)) "softLimit" ≡ some (soft_of p)
  unfolding config_part limited soft_of
  soft_back active_power in_block = simp find-put
  soft_back active_power in_soft = simp find-put

  switched_on : (p : Place) → flag_value t (get "enabled" (soft_of p)) ≡ some true
  unfolding soft_of flag_value
  switched_on in_block = simp get-put
  switched_on in_soft = simp get-put

  block_back :
      (config limits block : Members)
      → config_part
          (config_part (some (with_block config limits block)) "exportLimits")
          "activePower"
        ≡ some block
  unfolding config_part with_block
  block_back config limits block = simp find-put

  -- The limit that a write put into a configuration, at either of the places where firmware keeps
  -- it, is the one that the next refresh shows, whatever stood there before.
  pub written-shown :
      (config limits active_power : Members)
      → shown_soft_limit t (
          some (
            with_block config limits (limited (soft_limit_place active_power) active_power soft w)))
        ≡ some w
  unfolding shown_soft_limit
  written-shown config limits active_power =
      let p = soft_limit_place active_power in
      let block = limited p active_power soft w in
      let back = block_back config limits block in
      subst (λ b. limit_if_on t b (config_part b "softLimit") ≡ some w) (sym back)
        (subst (λ s. limit_if_on t (some block) s ≡ some w) (sym (soft_back active_power p))
          (rw (switched_on p) (block_shown active_power p refl)))
