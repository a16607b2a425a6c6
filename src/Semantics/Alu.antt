-- ===== src/Semantics/Alu.antt =====
-- What the register-register and register-immediate instructions compute.
pub mod Range
pub mod Product
use lizard.Prelude.{
  ℕ, zero, suc, ◌+◌, ◌-◌, ◌*◌, ◌%◌, ◌^◌, ◌==◌, Bool, true, false, ltb, leb, to_bit,
}
use lizard.Prelude.{if◌then◌else◌, Option, none, some, ◌>>=◌, bit_and}
use mathlib.Core.Option
use lizard.Prelude.Int.{ℤ, pos, negsuc, ltb_ℤ, ◌*ℤ◌, shift_right}
use lizard.Pymtl.{Pymtl}
use lizard.Semantics.Divide.{sane_divide, sane_rem}

-- `XLEN` of lizard/config/general.py
abbrev pub xlen : ℕ
xlen = 64

-- The instructions with operands `rd, rs1, rs2`
pub data RrOp : Type 0 where
  add addw sub subw sll sllw slt sltu xor srl srlw sra sraw or and : RrOp
  mul mulh mulhsu mulhu mulw div divu divw divuw rem remu remw remuw : RrOp

module _ ⦃p : Pymtl⦄ where
  -- `sext` of semantics.py, from `w` bits
  abbrev pub sext_xlen : ℕ → ℕ → ℕ
  sext_xlen w a = p.sext w xlen a

  -- `a[:32]`
  abbrev pub low32 : ℕ → ℕ
  low32 a = p.slice a 0 32

  -- What is written to `rd`, from the values of `rs1` and `rs2`; `none` is an exception,
  -- of the package or of a division by zero. A write to a register is cut to `XLEN` bits.
  unfoldable pub rr_value : RrOp → ℕ → ℕ → Option ℕ
  rr_value add a b = some (p.add xlen a b)
  rr_value addw a b = some (sext_xlen 32 (p.add 32 (low32 a) (low32 b)))
  rr_value sub a b = some (p.sub xlen a b)
  rr_value subw a b = some (sext_xlen 32 (p.sub 32 (low32 a) (low32 b)))
  rr_value sll a b = some (p.shl xlen a (bit_and b 0x3F))
  rr_value sllw a b = some (sext_xlen 32 (p.shl 32 (low32 a) (bit_and (low32 b) 0x1F)))
  rr_value slt a b = some (to_bit (ltb_ℤ (p.to_int xlen a) (p.to_int xlen b)))
  rr_value sltu a b = some (to_bit (ltb a b))
  rr_value xor a b = some (p.bxor a b)
  rr_value srl a b = some (p.shr a (bit_and b 0x3F))
  rr_value srlw a b = some (sext_xlen 32 (p.shr (low32 a) (bit_and (low32 b) 0x1F)))
  rr_value sra a b = some (p.trunc xlen (shift_right (p.to_int xlen a) (bit_and b 0x3F)))
  rr_value sraw a b =
      some
        (sext_xlen 32 (p.trunc 32 (shift_right (p.to_int 32 (low32 a)) (bit_and (low32 b) 0x1F))))
  rr_value or a b = some (p.bor a b)
  rr_value and a b = some (p.band a b)
  rr_value mul a b = some (p.trunc xlen (pos (p.mul xlen a b)))
  rr_value mulh a b =
      Option.map (λ wide. p.slice wide xlen (2 * xlen))
        (p.construct (xlen * 2) (p.to_int xlen a *ℤ p.to_int xlen b))
  rr_value mulhsu a b =
      Option.map (λ wide. p.slice wide xlen (2 * xlen))
        (p.construct (xlen * 2) (p.to_int xlen a *ℤ pos b))
  rr_value mulhu a b =
      Option.map (λ wide. p.slice wide xlen (2 * xlen)) (p.construct (xlen * 2) (pos a *ℤ pos b))
  rr_value mulw a b =
      some (sext_xlen 32 (p.trunc 32 (p.to_int 32 (low32 a) *ℤ p.to_int 32 (low32 b))))
  rr_value div a b = sane_divide (p.to_int xlen a) (p.to_int xlen b) xlen >>= p.construct xlen
  rr_value divu a b = sane_divide (pos a) (pos b) xlen >>= p.construct xlen
  rr_value divw a b =
      Option.map (sext_xlen 32)
        (sane_divide (p.to_int 32 (low32 a)) (p.to_int 32 (low32 b)) 32 >>= p.construct 32)
  rr_value divuw a b =
      Option.map (sext_xlen 32) (sane_divide (pos (low32 a)) (pos (low32 b)) 32 >>= p.construct 32)
  rr_value rem a b = sane_rem (p.to_int xlen a) (p.to_int xlen b) xlen >>= p.construct xlen
  rr_value remu a b = sane_rem (pos a) (pos b) xlen >>= p.construct xlen
  rr_value remw a b =
      Option.map (sext_xlen 32)
        (sane_rem (p.to_int 32 (low32 a)) (p.to_int 32 (low32 b)) 32 >>= p.construct 32)
  rr_value remuw a b =
      Option.map (sext_xlen 32) (sane_rem (pos (low32 a)) (pos (low32 b)) 32 >>= p.construct 32)
