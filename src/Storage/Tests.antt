-- ===== src/Storage/Tests.antt =====
-- The modes and the polls of fronius_modbus_api/storage.py on concrete registers.
use fronius_modbus.Common.{
  neg_ℤ, ℕ, true, [], ◌∷◌, pos_part, arith, ◌≡◌, ◌↔◌, refl, false, none, some, pos, negsuc,
  zero_float,
}
use fronius_modbus.Numbers.Plain.{plain}
use fronius_modbus.Exec.{charge_limit_not_in_mode}
use fronius_modbus.Exec.Ends.{Ends}
use fronius_modbus.Registers.{Component, Value, int, float}
use fronius_modbus.Registers.Simulated.{Device, answers, fails, simulated}
use fronius_modbus.Storage.Fields.{mode_writes, Field, in_w_rte, field_code}
use fronius_modbus.Storage.SetMode.{set_mode}
use fronius_modbus.Storage.SetRate.{write_rate}
use fronius_modbus.Storage.Window.{AllAccepted, mode_writes-AllAccepted}
use fronius_modbus.Storage.Writes.{Unchanged, Chosen, Rated, set_mode-Ends, write_rate-Ends}
use fronius_modbus.Storage.Modes.{
  auto, charge_from_grid, block_charging, charge_and_discharge_limit, Image, derive_extended_mode,
  registers_fit, full_rate_pct,
}
use fronius_modbus.Storage.Control.{StorageControl, nothing_written, applied_image, holds_selected}
use fronius_modbus.Storage.Derivation.{Means, derive_iff-Means}
use fronius_modbus.Storage.Sync.{polls, registers_win, registers_confirm}

abbrev forced_charge : Image
forced_charge = record { mode = 2; in_rate = full_rate_pct; out_rate = negsuc 41 }

abbrev no_charge : Image
no_charge = record { mode = 3; in_rate = zero_float; out_rate = full_rate_pct }

derive_iff-Means_example :
    (derive_extended_mode forced_charge ≡ charge_from_grid) ↔ Means charge_from_grid forced_charge
derive_iff-Means_example = derive_iff-Means charge_from_grid forced_charge

-- A control whose mode another client has replaced: the registers hold a forced charge.
abbrev replaced : StorageControl Unit
replaced = record {
  bus = tt;
  polled = record {
    stor_ctl_mod = some 2;
    in_w_rte = some full_rate_pct;
    out_w_rte = some (negsuc 41);
    cha_gri_set = none;
    min_rsv_pct = none;
  };
  max_charge_rate_w = pos 9;
  max_discharge_rate_w = pos 9;
  selected = some auto;
  unconfirmed_polls = some 0;
  locked = false;
  written = record { in_w_rte = some full_rate_pct; out_w_rte = some full_rate_pct };
}

abbrev kept : StorageControl Unit
kept = record replaced { selected = some charge_from_grid; unconfirmed_polls = some 2 }

registers_win_example :
    ((polls 3 replaced).selected ≡ some (derive_extended_mode forced_charge))
    × ((polls 3 replaced).written ≡ nothing_written)
unfolding applied_image holds_selected registers_fit derive_extended_mode
registers_win_example =
    registers_win 3 {r = forced_charge} {x = auto} replaced refl refl refl refl (omega arith)

registers_confirm_example :
    ((polls 2 kept).selected ≡ some charge_from_grid)
    × ((polls 2 kept).written ≡ kept.written)
    × ((polls 2 kept).unconfirmed_polls ≡ none)
unfolding applied_image holds_selected registers_fit derive_extended_mode
registers_confirm_example =
    registers_confirm 2 {r = forced_charge} {x = charge_from_grid} kept refl refl refl refl
      (omega arith)

abbrev number : Field → ℕ
number f = field_code f

abbrev word_of : Value → ℕ
word_of (int n) = n
word_of (float x) = pos_part x

abbrev component : Component Device Field Value
component = simulated number word_of (λ f w. int w)

-- An idle storage whose third transaction fails.
abbrev idle : StorageControl Device
idle = record {
  bus = record { word = λ n. 0; script = answers ∷ answers ∷ fails ∷ []; log = [] };
  polled = replaced.polled;
  max_charge_rate_w = pos 9;
  max_discharge_rate_w = pos 9;
  selected = some charge_and_discharge_limit;
  unconfirmed_polls = none;
  locked = false;
  written = nothing_written;
}

set_mode-Ends_example :
    Ends
      (λ t. Chosen idle charge_from_grid t × (t.locked ≡ false))
      (λ t. Unchanged idle t × (t.locked ≡ false))
      (set_mode component plain charge_from_grid idle)
set_mode-Ends_example = set_mode-Ends idle component plain charge_from_grid

write_rate-Ends_example :
    Ends
      (λ t. Rated idle t × (t.locked ≡ false))
      (λ t. Unchanged idle t × (t.locked ≡ false))
      (write_rate component plain in_w_rte
        (λ s. zero_float)
        (λ x. true)
        charge_limit_not_in_mode
        idle)
write_rate-Ends_example =
    write_rate-Ends idle component plain in_w_rte (λ s. zero_float) (λ x. true)
      charge_limit_not_in_mode

-- Another controller left a negative rate that StorCtl_Mod keeps off.
abbrev left_off : Image
left_off = record { mode = 1; in_rate = zero_float; out_rate = neg_ℤ full_rate_pct }

mode_writes-AllAccepted_example : AllAccepted (mode_writes block_charging none) left_off
mode_writes-AllAccepted_example =
    mode_writes-AllAccepted block_charging none left_off tt
      (omega arith, omega arith, λ e. absurd (omega arith))
