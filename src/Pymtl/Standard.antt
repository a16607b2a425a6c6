-- ===== src/Pymtl/Standard.antt =====
-- Functions that satisfy the laws: the assumptions of `Pymtl` can be met, and tests run on them.
use lizard.Prelude.{◌+◌, ◌-◌, ◌*◌, ◌/◌, ◌%◌, ◌^◌, refl, bit_and, bit_or, bit_xor}
use lizard.Prelude.{some, ltb, if◌then◌else◌}
use lizard.BitLaws.Digits.{bit}
use lizard.Pymtl.{Pymtl, signed, wrap}

instance abbrev pub standard : Pymtl
standard = record {
  add = λ w a b. (a + b) % 2 ^ w;
  add_law = λ w a b. refl;
  sub = λ w a b. (a + 2 ^ w - b) % 2 ^ w;
  sub_law = λ w a b. refl;
  inv = λ w a. 2 ^ w - 1 - a;
  inv_law = λ w a. refl;
  mul = λ w a b. a * b % 2 ^ (2 * w);
  mul_law = λ w a b. refl;
  band = bit_and;
  band_law = λ a b. refl;
  bor = bit_or;
  bor_law = λ a b. refl;
  bxor = bit_xor;
  bxor_law = λ a b. refl;
  shl = λ w a k. a * 2 ^ k % 2 ^ w;
  shl_law = λ w a k. refl;
  shr = λ a k. a / 2 ^ k;
  shr_law = λ a k. refl;
  index = bit;
  index_law = λ a i. refl;
  slice = λ a lo hi. a / 2 ^ lo % 2 ^ (hi - lo);
  slice_law = λ a lo hi. refl;
  put = λ a lo hi v. a / 2 ^ hi * 2 ^ hi + v * 2 ^ lo + a % 2 ^ lo;
  put_law = λ a lo hi v. refl;
  concat = λ w a b. a * 2 ^ w + b;
  concat_law = λ w a b. refl;
  to_int = signed;
  to_int_law = λ w a. refl;
  trunc = wrap;
  trunc_law = λ w z. refl;
  construct = λ w z. some (wrap w z);
  construct_law = λ w z h. refl;
  sext = λ w w' a. if ltb a (2 ^ (w - 1)) then a else a + 2 ^ w' - 2 ^ w;
  sext_law = λ w w' a. refl;
}
