-- ===== src/Floats/Fixed.antt =====
-- Thousandths as a concrete choice of `float` and `double`: it shows that what is asked of them can
-- be given, and lets the code run.
use cqut_lgv.Common.{ℕ, ◌*◌, ◌/◌, ◌^◌, ◌+◌, ◌%◌, if◌then◌else◌, ltb}
use cqut_lgv.Common.Int.{ℤ, pos, pos_part, neg_part, sub_ℕ, ◌+ℤ◌, ◌-ℤ◌, ltb_ℤ, leb_ℤ, abs}
use cqut_lgv.Floats.{Floats}

abbrev pub unit : ℕ
unit = 1000

abbrev pub scale : ℤ → ℤ
scale a = sub_ℕ (pos_part a * unit) (neg_part a * unit)

-- The sign of the product of `a` and `b`, with the given magnitude.
abbrev pub signed : ℤ → ℤ → ℕ → ℤ
signed a b m =
    if ltb 0 (pos_part a * neg_part b + neg_part a * pos_part b) then sub_ℕ 0 m else pos m

abbrev pub times : ℤ → ℤ → ℤ
times a b = signed a b (abs a * abs b / unit)

abbrev pub over : ℤ → ℤ → ℤ
over a b = signed a b (abs a * unit / abs b)

instance abbrev pub fixed : Floats ℤ ℤ
fixed = record {
  widen = λ a. a;
  narrow = λ a. a;
  float_of = scale;
  double_of = scale;
  decimal = λ digits places. pos (digits * unit / 10 ^ places);
  float_to_u16 = λ a. pos_part a / unit % 2 ^ 16;
  float_to_u32 = λ a. pos_part a / unit % 2 ^ 32;
  fadd = ◌+ℤ◌;
  fsub = ◌-ℤ◌;
  fmul = times;
  fdiv = over;
  flt = ltb_ℤ;
  fle = leb_ℤ;
  dadd = ◌+ℤ◌;
  dsub = ◌-ℤ◌;
  dmul = times;
  ddiv = over;
  dlt = ltb_ℤ;
  exp = λ a. pos unit;
  sqrt = λ a. a;
}
