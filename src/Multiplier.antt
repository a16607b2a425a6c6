-- ===== src/Multiplier.antt =====
-- The pipelined multiplier of lizard/util/rtl/multiply.py: `MulCombinational` with the multiplication
-- of the language, and `MulPipelined` on it. The data have `m` bits, a stage takes `k` bits of the
-- second operand, and the product has `n` bits.
pub mod Stages
pub mod Fifo
pub mod Product
mod Tests
use lizard.Prelude.{ℕ, suc, ◌+◌, ◌-◌, ◌*◌, ◌%◌, ◌^◌, ltb, Bool, true, false, not, ◌&&◌, ◌||◌}
use lizard.Prelude.{if◌then◌else◌, Option, none, some, List, [], ◌∷◌}
use lizard.Pymtl.{Pymtl}
use lizard.Divider.{differ, complement}

-- The arguments of `mult`.
pub record MulArgs : Type 0 where
  pub src1 : ℕ
  pub src2 : ℕ
  pub src1_signed : Bool
  pub src2_signed : Bool

-- The registers of a stage but the last: `vals_`, `src1_`, `src2_` and `signs_`
pub record Work : Type 0 where
  pub val : ℕ
  pub src1 : ℕ
  pub src2 : ℕ
  pub sign : Bool

-- with its `valids_`.
pub record Stage : Type 0 where
  pub valid : Bool
  pub work : Work

-- All registers; the last stage has only `valids_` and `vals_`.
pub record MulState : Type 0 where
  pub stages : List Stage
  pub last_valid : Bool
  pub last_val : ℕ

-- Where a stage takes its input: from the call of `mult`, or from the registers of the stage before.
pub data Source : Type 0 where
  called : MulArgs → Source
  before : Work → Source

-- What moves in a cycle: whether the first of some stages is ready, and the registers after it.
pub record Moved : Type 0 where
  pub rdy : Bool
  pub next : MulState

-- The calls of a cycle.
pub record MulCalls : Type 0 where
  pub mult : Option MulArgs
  pub take : Bool

module _ ⦃p : Pymtl⦄ (m k n : ℕ) where
  open p use {add, shl, shr, index, slice, mul}

  -- `MulCombinational` with `use_mul`, on operands of `m` and `k` bits
  unfoldable pub mult_res : ℕ → ℕ → ℕ
  mult_res src1 src2 =
      let tmp_res = mul m src1 src2 % 2 ^ (m + k) in
      if ltb (m + k) n then tmp_res else slice tmp_res 0 n

  -- `unsign_srcs_in`
  unfoldable pub src_usign : Bool → ℕ → ℕ
  unfolding complement
  src_usign is_signed src = if index src (m - 1) && is_signed then complement m src else src

  unfoldable pub sign_in : MulArgs → Bool
  sign_in a = differ (a.src1_signed && index a.src1 (m - 1)) (a.src2_signed && index a.src2 (m - 1))

  -- `connect_first_stage` and `connect_stage`: what stage `i` writes, if it is not the last
  unfoldable pub stage_write : ℕ → Source → Work
  unfolding mult_res src_usign sign_in
  stage_write i (called a) =
      let src1 = src_usign a.src1_signed a.src1 in
      let src2 = src_usign a.src2_signed a.src2 in
      record {
        val = mult_res src1 (slice src2 0 k);
        src1 = src1;
        src2 = shr src2 k;
        sign = sign_in a;
      }
  stage_write i (before w) = record {
    val = add n w.val (shl n (mult_res w.src1 (slice w.src2 0 k)) (k * i));
    src1 = w.src1;
    src2 = shr w.src2 k;
    sign = w.sign;
  }

  -- `connect_stage` of a single stage and `connect_last_stage`: what the last stage writes
  unfoldable pub last_write : ℕ → Source → ℕ
  unfolding mult_res src_usign sign_in complement
  last_write last (called a) =
      let res =
        mult_res (src_usign a.src1_signed a.src1) (slice (src_usign a.src2_signed a.src2) 0 k) in
      if sign_in a then complement n res else res
  last_write last (before w) =
      let sum = add n w.val (shl n (mult_res w.src1 (slice w.src2 0 k)) (k * last)) in
      if w.sign then complement n sum else sum

  -- `set_rdy`, `set_exec` and `set_valids` with the writes, from stage `i` on
  unfoldable pub move : ℕ → Option Source → List Stage → Bool → ℕ → Bool → Moved
  unfolding stage_write last_write
  move i input [] valid val take_call =
      let rdy = take_call || not valid in
      let exec : Option Source = if rdy then input else none in
      let kept = not take_call && valid in
      record {
        rdy = rdy;
        next = record {
          stages = [];
          last_valid = elim exec [ some source ↦ true | none ↦ kept ];
          last_val = elim exec [ some source ↦ last_write i source | none ↦ val ];
        };
      }
  move i input (s ∷ rest) valid val take_call =
      let later =
        move (suc i) (if s.valid then some (before s.work) else none) rest valid val take_call in
      let rdy = not s.valid || later.rdy in
      let exec : Option Source = if rdy then input else none in
      let kept = not later.rdy && s.valid in
      record {
        rdy = rdy;
        next = record later.next {
          stages =
              record {
                valid = elim exec [ some source ↦ true | none ↦ kept ];
                work = elim exec [ some source ↦ stage_write i source | none ↦ s.work ];
              }
              ∷ later.next.stages;
        };
      }

  -- A clock edge without reset, and `mult_rdy` in the cycle.
  unfoldable pub mul_cycle : MulState → MulCalls → Moved
  unfolding move
  mul_cycle s c =
      move 0 (elim c.mult [ some a ↦ some (called a) | none ↦ none ]) s.stages s.last_valid
        s.last_val c.take

  unfoldable pub mul_step : MulState → MulCalls → MulState
  unfolding mul_cycle
  mul_step s c = (mul_cycle s c).next
