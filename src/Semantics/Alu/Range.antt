-- ===== src/Semantics/Alu/Range.antt =====
-- Every register-register instruction produces a register value.
use lizard.Prelude.{ℕ, zero, suc, ◌-◌, ◌*◌, ◌^◌, ◌≤◌, ◌<◌, ◌≡◌, refl, arith, ap}
use lizard.Prelude.{Option, some, ◌>>=◌, bit_and}
use mathlib.Core.Option
use native.Mathlib.Nat.{mod-lt, div-le_self}
use lizard.Prelude.Int.{ℤ, pos, negsuc, neg, ◌*ℤ◌}
use lizard.BitLaws.Masks.{bit_and-lt, bit_or-lt, bit_xor-lt, two_pow_pos}
use lizard.Pymtl.{Pymtl, InRange, wrap}
use lizard.Semantics.Divide.Range.{
  IsSigned, signed-IsSigned, quotient-InRange, remainder-InRange, quotient-InRange_unsigned,
  remainder-InRange_unsigned,
}
use lizard.Semantics.Divide.Total.{sane_divide-some, sane_rem-some}
use lizard.Semantics.Alu

wrap-lt : (w : ℕ) (z : ℤ) → wrap w z < 2 ^ w
wrap-lt w (pos n) = mod-lt n (two_pow_pos w)
wrap-lt w (negsuc n) = omega (arith, two_pow_pos w)

product_bound : (a b m n : ℕ) → a ≤ m → b ≤ n → a * b ≤ m * n
product_bound a b m n ha hb = grind arith

neg-InRange : (n : ℕ) → n ≤ 2 ^ 127 → InRange 128 (neg n)
neg-InRange zero h = omega arith
neg-InRange (suc n) h = h

pos-InRange : (n : ℕ) → n < 2 ^ 128 → InRange 128 (pos n)
pos-InRange n h = h

pub product-InRange : (a b : ℤ) → IsSigned 63 a → IsSigned 63 b → InRange 128 (a *ℤ b)
product-InRange (pos a) (pos b) ha hb =
    pos-InRange (a * b)
      (omega (arith, product_bound a b (2 ^ 63) (2 ^ 63) (omega arith) (omega arith)))
product-InRange (pos a) (negsuc b) ha hb =
    neg-InRange (a * suc b)
      (omega (arith, product_bound a (suc b) (2 ^ 63) (2 ^ 63) (omega arith) (omega arith)))
product-InRange (negsuc a) (pos b) ha hb =
    neg-InRange (suc a * b)
      (omega (arith, product_bound (suc a) b (2 ^ 63) (2 ^ 63) (omega arith) (omega arith)))
product-InRange (negsuc a) (negsuc b) ha hb =
    pos-InRange (suc a * suc b)
      (omega (arith, product_bound (suc a) (suc b) (2 ^ 63) (2 ^ 63) (omega arith) (omega arith)))

pub mixed-InRange : (a : ℤ) (b : ℕ) → IsSigned 63 a → b < 2 ^ 64 → InRange 128 (a *ℤ pos b)
mixed-InRange (pos a) b ha hb =
    pos-InRange (a * b)
      (omega (arith, product_bound a b (2 ^ 63) (2 ^ 64) (omega arith) (omega arith)))
mixed-InRange (negsuc a) b ha hb =
    neg-InRange (suc a * b)
      (omega (arith, product_bound (suc a) b (2 ^ 63) (2 ^ 64) (omega arith) (omega arith)))

pub unsigned-InRange : (a b : ℕ) → a < 2 ^ 64 → b < 2 ^ 64 → InRange 128 (pos a *ℤ pos b)
unsigned-InRange a b ha hb =
    pos-InRange (a * b)
      (omega (arith, product_bound a b (2 ^ 64 - 1) (2 ^ 64 - 1) (omega arith) (omega arith)))

-- A 64-bit result.
abbrev pub Returns : Option ℕ → Type 0
Returns o = (v : ℕ) × (o ≡ some v) × (v < 2 ^ 64)

module _ ⦃p : Pymtl⦄ where
  sext-lt : (a : ℕ) → a < 2 ^ 32 → Alu.sext_xlen 32 a < 2 ^ 64
  sext-lt a h = ground (arith, p.sext_law 32 64 a)

  low32-lt : (a : ℕ) → Alu.low32 a < 2 ^ 32
  low32-lt a = omega (arith, p.slice_law a 0 32)

  value : (v : ℕ) → v < 2 ^ 64 → Returns (some v)
  value v h = (v, refl, h)

  word : (a : ℕ) → a < 2 ^ 32 → Returns (some (Alu.sext_xlen 32 a))
  word a h = value (Alu.sext_xlen 32 a) (sext-lt a h)

  full : (z : ℤ) → InRange 64 z → Returns (p.construct 64 z)
  full z h = (wrap 64 z, p.construct_law 64 z h, wrap-lt 64 z)

  half : (z : ℤ) → InRange 32 z → Returns (Option.map (Alu.sext_xlen 32) (p.construct 32 z))
  half z h = (
    Alu.sext_xlen 32 (wrap 32 z),
    ap (Option.map (Alu.sext_xlen 32)) (p.construct_law 32 z h),
    sext-lt (wrap 32 z) (wrap-lt 32 z),
  )

  full_of : (o : Option ℤ) (z : ℤ) → o ≡ some z → InRange 64 z → Returns (o >>= p.construct 64)
  full_of o z e h = rw e (full z h)

  half_of :
      (o : Option ℤ) (z : ℤ)
      → o ≡ some z
      → InRange 32 z
      → Returns (Option.map (Alu.sext_xlen 32) (o >>= p.construct 32))
  half_of o z e h = rw e (half z h)

  upper :
      (z : ℤ)
      → InRange 128 z
      → Returns (Option.map (λ wide. p.slice wide 64 128) (p.construct 128 z))
  upper z h = (
    p.slice (wrap 128 z) 64 128,
    ap (Option.map (λ wide. p.slice wide 64 128)) (p.construct_law 128 z h),
    omega (arith, p.slice_law (wrap 128 z) 64 128),
  )

  signed64 : (a : ℕ) → a < 2 ^ 64 → IsSigned 63 (p.to_int 64 a)
  signed64 a h = rw (p.to_int_law 64 a) (signed-IsSigned 63 a h)

  signed32 : (a : ℕ) → IsSigned 31 (p.to_int 32 (Alu.low32 a))
  signed32 a = rw (p.to_int_law 32 (Alu.low32 a)) (signed-IsSigned 31 (Alu.low32 a) (low32-lt a))

  trunc-lt : (w : ℕ) (z : ℤ) → p.trunc w z < 2 ^ w
  trunc-lt w z = rw (p.trunc_law w z) (wrap-lt w z)

  -- From 64-bit operands every instruction gives a 64-bit value, and none of the `Bits` that it builds
  -- is refused, division by zero and the overflowing division included.
  pub rr_value-Returns :
      (op : Alu.RrOp) (a b : ℕ) → a < 2 ^ 64 → b < 2 ^ 64 → Returns (Alu.rr_value op a b)
  unfolding Alu.rr_value
  rr_value-Returns Alu.add a b ha hb = value _ (omega (arith, p.add_law 64 a b))
  rr_value-Returns Alu.addw a b ha hb =
      word _ (omega (arith, p.add_law 32 (Alu.low32 a) (Alu.low32 b)))
  rr_value-Returns Alu.sub a b ha hb = value _ (omega (arith, p.sub_law 64 a b))
  rr_value-Returns Alu.subw a b ha hb =
      word _ (omega (arith, p.sub_law 32 (Alu.low32 a) (Alu.low32 b)))
  rr_value-Returns Alu.sll a b ha hb = value _ (omega (arith, p.shl_law 64 a (bit_and b 0x3F)))
  rr_value-Returns Alu.sllw a b ha hb =
      word _ (omega (arith, p.shl_law 32 (Alu.low32 a) (bit_and (Alu.low32 b) 0x1F)))
  rr_value-Returns Alu.slt a b ha hb = value _ (ground arith)
  rr_value-Returns Alu.sltu a b ha hb = value _ (ground arith)
  rr_value-Returns Alu.xor a b ha hb =
      value _ (omega (arith, p.bxor_law a b, bit_xor-lt 64 a b ha hb))
  rr_value-Returns Alu.srl a b ha hb =
      value _ (omega (arith, p.shr_law a (bit_and b 0x3F), div-le_self a (2 ^ bit_and b 0x3F)))
  rr_value-Returns Alu.srlw a b ha hb = word _ (
      omega (
        arith,
        p.shr_law (Alu.low32 a) (bit_and (Alu.low32 b) 0x1F),
        div-le_self (Alu.low32 a) (2 ^ bit_and (Alu.low32 b) 0x1F),
        low32-lt a,
      ))
  rr_value-Returns Alu.sra a b ha hb = value _ (trunc-lt 64 _)
  rr_value-Returns Alu.sraw a b ha hb = word _ (trunc-lt 32 _)
  rr_value-Returns Alu.or a b ha hb = value _ (omega (arith, p.bor_law a b, bit_or-lt 64 a b ha hb))
  rr_value-Returns Alu.and a b ha hb =
      value _ (omega (arith, p.band_law a b, bit_and-lt 64 a b ha hb))
  rr_value-Returns Alu.mul a b ha hb = value _ (trunc-lt 64 _)
  rr_value-Returns Alu.mulh a b ha hb =
      upper _ (product-InRange (p.to_int 64 a) (p.to_int 64 b) (signed64 a ha) (signed64 b hb))
  rr_value-Returns Alu.mulhsu a b ha hb =
      upper _ (mixed-InRange (p.to_int 64 a) b (signed64 a ha) hb)
  rr_value-Returns Alu.mulhu a b ha hb = upper _ (unsigned-InRange a b ha hb)
  rr_value-Returns Alu.mulw a b ha hb = word _ (trunc-lt 32 _)
  rr_value-Returns Alu.div a b ha hb =
      full_of _ _ (sane_divide-some _ _ _)
        (quotient-InRange 63 (p.to_int 64 a) (p.to_int 64 b) (signed64 a ha))
  rr_value-Returns Alu.divu a b ha hb =
      full_of _ _ (sane_divide-some _ _ _) (quotient-InRange_unsigned 63 a b ha)
  rr_value-Returns Alu.divw a b ha hb =
      half_of _ _ (sane_divide-some _ _ _)
        (quotient-InRange 31 (p.to_int 32 (Alu.low32 a)) (p.to_int 32 (Alu.low32 b)) (signed32 a))
  rr_value-Returns Alu.divuw a b ha hb =
      half_of _ _ (sane_divide-some _ _ _)
        (quotient-InRange_unsigned 31 (Alu.low32 a) (Alu.low32 b) (low32-lt a))
  rr_value-Returns Alu.rem a b ha hb =
      full_of _ _ (sane_rem-some _ _ _)
        (remainder-InRange 63 (p.to_int 64 a) (p.to_int 64 b) (signed64 a ha))
  rr_value-Returns Alu.remu a b ha hb =
      full_of _ _ (sane_rem-some _ _ _) (remainder-InRange_unsigned 63 a b ha)
  rr_value-Returns Alu.remw a b ha hb =
      half_of _ _ (sane_rem-some _ _ _)
        (remainder-InRange 31 (p.to_int 32 (Alu.low32 a)) (p.to_int 32 (Alu.low32 b)) (signed32 a))
  rr_value-Returns Alu.remuw a b ha hb =
      half_of _ _ (sane_rem-some _ _ _)
        (remainder-InRange_unsigned 31 (Alu.low32 a) (Alu.low32 b) (low32-lt a))
