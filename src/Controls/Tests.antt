-- ===== src/Controls/Tests.antt =====
-- The controls of fronius_modbus_api/controls.py over a simulated device.
use fronius_modbus.Common.{
  ℕ, ◌≡◌, refl, arith, true, some, [], ◌∷◌, pos, pos_part, zero_float, ◌==◌, if◌then◌else◌,
}
use fronius_modbus.Exec.{ok}
use fronius_modbus.Registers.{Value, int, float}
use fronius_modbus.Registers.Laws.{KeptByReads}
use fronius_modbus.Registers.Simulated.{Device, answers, loses, simulated}
use fronius_modbus.Controls.{
  Outside, Field, w_max_lim_ena, w_max_lim_pct, out_pf_set_ena, out_pf_set, v_ar_pct_ena, conn,
  write_with_pulse,
}
use fronius_modbus.Controls.Pulse.{StaysOn, Switch, write_with_pulse-StaysOn}

abbrev number : Field → ℕ
number w_max_lim_ena = 0
number w_max_lim_pct = 1
number out_pf_set_ena = 2
number out_pf_set = 3
number v_ar_pct_ena = 4
number conn = 5

abbrev word_of : Value → ℕ
word_of (int n) = n
word_of (float x) = pos_part x

abbrev outside : Outside Device
outside = record {
  component = simulated number word_of (λ f w. int w);
  points = λ d. record {
    w_max_lim_ena = some (d.word 0);
    w_max_lim_pct = some (pos (d.word 1));
    out_pf_set_ena = some (d.word 2);
    out_pf_set = some (pos (d.word 3));
    v_ar_pct_ena = some (d.word 4);
    conn = some (d.word 5);
  };
  monotonic = λ d. zero_float;
  sleep = λ d. (ok tt, d);
  interrupted = λ d. true;
}

abbrev LimitOn : Device → Type 0
LimitOn d = d.word 0 ≡ 1

limit-Switch : Switch outside w_max_lim_ena w_max_lim_pct LimitOn
limit-Switch = record {
  reads = record {
    words = λ f. record { at = λ d h. ground arith };
    scale = λ f. record { at = λ d h. ground arith };
  };
  update = record { at = λ d h. ground arith };
  write_value = λ v. record { at = λ d h. ground arith };
  turns_on = λ d. ground arith;
}

abbrev words_of : ℕ → ℕ
words_of n = if n == 0 then 1 else 50

-- A live limit of 50; the write of the new value is lost, and the one that switches the limit
-- back on is answered.
abbrev live : Device
live = record {
  word = λ n. words_of n;
  script = answers ∷ answers ∷ answers ∷ loses ∷ [];
  log = [];
}

write_with_pulse-StaysOn_example :
    StaysOn LimitOn (write_with_pulse outside w_max_lim_ena w_max_lim_pct (pos 70) live)
write_with_pulse-StaysOn_example =
    write_with_pulse-StaysOn outside w_max_lim_ena w_max_lim_pct LimitOn limit-Switch (pos 70) live
      refl

abbrev Unwritten : Device → Type 0
Unwritten d = d.log ≡ []

reads-Unwritten : KeptByReads outside.component Unwritten
reads-Unwritten = record {
  words = λ f. record { at = λ d h. ground arith };
  scale = λ f. record { at = λ d h. ground arith };
}
