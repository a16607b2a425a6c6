-- ===== src/CoreAlu/Stage.antt =====
-- What the ALU stage computes for the register-register instructions.
use lizard.Prelude.{ℕ, ◌+◌, ◌-◌, ◌*◌, ◌/◌, ◌%◌, ◌^◌, ◌<◌, ◌≡◌, refl, ap, ◌∙◌, arith}
use lizard.Prelude.{Bool, true, false, ltb, to_bit, if◌then◌else◌, ◌&&◌, bit_and, some}
use lizard.Prelude.Int.{ℤ, pos, negsuc, shift_right}
use lizard.BitLaws.Masks.{bit_and-low, bit-div}
use native.Mathlib.Nat.{div-le_self}
use lizard.Pymtl.{Pymtl, signed, wrap}
use lizard.Semantics.Alu
use lizard.Semantics.Alu.{RrOp, rr_value}
use lizard.CoreAlu.{AluMsg, process, exec, add, sub, sll, slt, xor, srl, sra, or, and}
use lizard.CoreAlu.Compare.{ltb-biased_unsigned, ltb-biased_signed}
use lizard.CoreAlu.Shift.{shift_signed}
use lizard.CoreAlu.Decoder.{alu_msg}

and-false : (x : Bool) → (x && false) ≡ false
and-false true = refl
and-false false = refl

and-true : (x : Bool) → (x && true) ≡ x
and-true true = refl
and-true false = refl

-- The low half of a shift depends on the low half of what is shifted.
shift_low : (x y m : ℕ) → x % 2 ^ 32 ≡ y → x * m % 2 ^ 64 % 2 ^ 32 ≡ y * m % 2 ^ 32
shift_low x y m e =
    let high = x / 2 ^ 32 in
    let split : x ≡ y + 2 ^ 32 * high = omega (arith, e) in
    let product : x * m ≡ y * m + 2 ^ 32 * (high * m) = ap (λ k. k * m) split ∙ grind arith in
    omega (arith, product)

wrap_low : (z : ℤ) → wrap 64 z % 2 ^ 32 ≡ wrap 32 z
wrap_low (pos n) = omega arith
wrap_low (negsuc n) = omega arith

-- Sign extension keeps the integer.
signed-sext :
    (x : ℕ)
    → x < 2 ^ 32
    → signed 64 (if ltb x (2 ^ 31) then x else x + 2 ^ 64 - 2 ^ 32) ≡ signed 32 x
signed-sext x h = ground arith

module _ ⦃p : Pymtl⦄ where
  abbrev wide : ℕ → ℕ
  wide x = p.sext 32 64 (Alu.low32 x)

  low32-lt : (x : ℕ) → Alu.low32 x < 2 ^ 32
  low32-lt x = omega (arith, p.slice_law x 0 32)

  wide-lt : (x : ℕ) → wide x < 2 ^ 64
  wide-lt x = ground (arith, p.sext_law 32 64 (Alu.low32 x), low32-lt x)

  wide_low : (x : ℕ) → wide x % 2 ^ 32 ≡ Alu.low32 x
  wide_low x = ground (arith, p.sext_law 32 64 (Alu.low32 x), low32-lt x)

  put_same : (x : ℕ) → p.put x 5 6 (to_bit (p.index x 5 && true)) ≡ x
  put_same x =
      rw (and-true (p.index x 5), p.index_law x 5, bit-div x 5, p.put_law x 5 6 _) (ground arith)

  -- The shift amount of a 32-bit shift
  shamt32 : (x : ℕ) → p.slice (p.put x 5 6 (to_bit (p.index x 5 && false))) 0 6 ≡ x % 32
  shamt32 x = rw (and-false (p.index x 5), p.put_law x 5 6 0, p.slice_law _ 0 6) (omega arith)

  low_shamt : (x y : ℕ) → x % 2 ^ 32 ≡ y → x % 32 ≡ bit_and y 31
  low_shamt x y e = omega (arith, bit_and-low 5 y)

  sra_value :
      (x k : ℕ)
      → x < 2 ^ 64
      → k < 64
      → p.slice (p.shr (p.sext 64 128 x) k) 0 64 ≡ wrap 64 (shift_right (signed 64 x) k)
  sra_value x k hx hk =
      rw (p.slice_law _ 0 64, p.shr_law _ k, p.sext_law 64 128 x)
        (omega (arith, shift_signed x k hx hk))

module _ ⦃p : Pymtl⦄ (a b imm pc : ℕ) (ha : a < 2 ^ 64) (hb : b < 2 ^ 64) where
  -- The stage on a message with two register operands.
  abbrev pub stage : AluMsg → ℕ
  stage msg =
      process record { alu_msg = msg; rs1 = a; rs2 = b; rs2_val = true; imm = imm; hdr_pc = pc }

  shamt : p.slice b 0 6 ≡ bit_and b 0x3F
  shamt = omega (arith, p.slice_law b 0 6, bit_and-low 6 b)

  pub stage-add : some (stage (alu_msg add false false)) ≡ rr_value Alu.add a b
  unfolding process rr_value
  stage-add = refl

  pub stage-sub : some (stage (alu_msg sub false false)) ≡ rr_value Alu.sub a b
  unfolding process rr_value
  stage-sub = refl

  pub stage-xor : some (stage (alu_msg xor false false)) ≡ rr_value Alu.xor a b
  unfolding process rr_value
  stage-xor = refl

  pub stage-or : some (stage (alu_msg or false false)) ≡ rr_value Alu.or a b
  unfolding process rr_value
  stage-or = refl

  pub stage-and : some (stage (alu_msg and false false)) ≡ rr_value Alu.and a b
  unfolding process rr_value
  stage-and = refl

  pub stage-sll : some (stage (alu_msg sll false false)) ≡ rr_value Alu.sll a b
  unfolding process rr_value
  stage-sll = ap (λ k. some (p.shl 64 a k)) shamt

  pub stage-srl : some (stage (alu_msg srl false false)) ≡ rr_value Alu.srl a b
  unfolding process rr_value
  stage-srl = ap (λ k. some (p.shr a k)) shamt

  pub stage-sltu : some (stage (alu_msg slt true false)) ≡ rr_value Alu.sltu a b
  unfolding process rr_value
  stage-sltu = ap (λ t. some (to_bit t)) (ltb-biased_unsigned a b ha hb)

  pub stage-slt : some (stage (alu_msg slt false false)) ≡ rr_value Alu.slt a b
  unfolding process rr_value
  stage-slt = ap (λ t. some (to_bit t)) (ltb-biased_signed a b ha hb)

  pub stage-sra : some (stage (alu_msg sra false false)) ≡ rr_value Alu.sra a b
  unfolding process rr_value
  stage-sra =
      let small : bit_and b 0x3F < 64 = omega (arith, bit_and-low 6 b) in
      ap some
        (rw (shamt, p.trunc_law 64 _, p.to_int_law 64 a) (sra_value a (bit_and b 0x3F) ha small))

  pub stage-addw : some (stage (alu_msg add false true)) ≡ rr_value Alu.addw a b
  unfolding process exec rr_value
  stage-addw =
      ap (λ x. some (p.sext 32 64 x))
        (rw (put_same (wide b)) (
          omega (
            arith,
            p.slice_law (p.add 64 (wide a) (wide b)) 0 32,
            p.add_law 64 (wide a) (wide b),
            p.add_law 32 (Alu.low32 a) (Alu.low32 b),
            wide_low a,
            wide_low b,
          )))

  pub stage-subw : some (stage (alu_msg sub false true)) ≡ rr_value Alu.subw a b
  unfolding process exec rr_value
  stage-subw =
      ap (λ x. some (p.sext 32 64 x))
        (rw (put_same (wide b)) (
          omega (
            arith,
            p.slice_law (p.sub 64 (wide a) (wide b)) 0 32,
            p.sub_law 64 (wide a) (wide b),
            p.sub_law 32 (Alu.low32 a) (Alu.low32 b),
            wide_low a,
            wide_low b,
            wide-lt b,
            low32-lt b,
          )))

  pub stage-sllw : some (stage (alu_msg sll false true)) ≡ rr_value Alu.sllw a b
  unfolding process exec rr_value
  stage-sllw =
      let k = bit_and (Alu.low32 b) 31 in
      ap (λ x. some (p.sext 32 64 x))
        (rw
          (
            shamt32 (wide b),
            low_shamt (wide b) (Alu.low32 b) (wide_low b),
            p.slice_law (p.shl 64 (wide a) k) 0 32,
            p.shl_law 64 (wide a) k,
            p.shl_law 32 (Alu.low32 a) k,
          )
          (omega (arith, shift_low (wide a) (Alu.low32 a) (2 ^ k) (wide_low a))))

  pub stage-srlw : some (stage (alu_msg srl false true)) ≡ rr_value Alu.srlw a b
  unfolding process exec rr_value
  stage-srlw =
      let k = bit_and (Alu.low32 b) 31 in
      ap (λ x. some (p.sext 32 64 x))
        (rw
          (
            shamt32 (Alu.low32 b),
            low_shamt (Alu.low32 b) (Alu.low32 b) (omega (arith, low32-lt b)),
            p.slice_law (p.shr (Alu.low32 a) k) 0 32,
            p.shr_law (Alu.low32 a) k,
          )
          (omega (arith, div-le_self (Alu.low32 a) (2 ^ k), low32-lt a)))

  pub stage-sraw : some (stage (alu_msg sra false true)) ≡ rr_value Alu.sraw a b
  unfolding process exec rr_value
  stage-sraw =
      let k = bit_and (Alu.low32 b) 31 in
      let small : k < 64 = omega (arith, bit_and-low 5 (Alu.low32 b)) in
      let same : signed 64 (wide a) ≡ signed 32 (Alu.low32 a) =
        ap (signed 64) (p.sext_law 32 64 (Alu.low32 a)) ∙ signed-sext (Alu.low32 a) (low32-lt a) in
      ap (λ x. some (p.sext 32 64 x))
        (rw
          (
            shamt32 (wide b),
            low_shamt (wide b) (Alu.low32 b) (wide_low b),
            sra_value (wide a) k (wide-lt a) small,
            same,
            p.to_int_law 32 (Alu.low32 a),
            p.trunc_law 32 (shift_right (signed 32 (Alu.low32 a)) k),
            p.slice_law (wrap 64 (shift_right (signed 32 (Alu.low32 a)) k)) 0 32,
          )
          (omega (arith, wrap_low (shift_right (signed 32 (Alu.low32 a)) k))))
