-- ===== src/Numbers/Plain.antt =====
-- Numbers that stand for themselves, in place of bit patterns, to try the models on.
use fronius_modbus.Common.{◌+◌, true, Float, pos, sub_ℕ, pos_part, neg_part}
use fronius_modbus.Numbers.{Numbers}

abbrev difference : Float → Float → Float
difference a b = sub_ℕ (pos_part a + neg_part b) (neg_part a + pos_part b)

abbrev pub plain : Numbers
plain = record {
  int_of = pos_part;
  float_of = pos;
  is_integer = λ x. true;
  truncated = λ x. x;
  percent_of = λ w m. w;
  share_of = λ m p. p;
  add = λ a b. sub_ℕ (pos_part a + pos_part b) (neg_part a + neg_part b);
  sub = difference;
  round_cents = λ x. x;
}
