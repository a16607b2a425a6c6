-- ===== src/Divider.antt =====
-- The non-restoring divider, lizard/util/rtl/divide.py: one iteration, and the registers that the
-- clock moves. A data length of `dlen` bits is divided in `ncycles` cycles of `nsteps` iterations.
pub mod Iterate
pub mod Split
pub mod Rounds
pub mod Finish
pub mod Clock
pub mod Signs
pub mod Refine
mod Tests
use lizard.Prelude.{ℕ, zero, suc, ◌+◌, ◌-◌, ◌==◌, ltb, Bool, true, false, not, ◌&&◌, ◌||◌}
use lizard.Prelude.{if◌then◌else◌, to_bit, Option, none, some}
use lizard.Pymtl.{Pymtl}

-- The arguments of `div`.
pub record DivArgs : Type 0 where
  pub dividend : ℕ
  pub divisor : ℕ
  pub is_signed : Bool

-- The registers.
pub record DivState : Type 0 where
  pub acc : ℕ
  pub divisor : ℕ
  pub dividend : ℕ
  pub negate : Bool
  pub negate_rem : Bool
  pub counter : ℕ
  pub busy : Bool

-- The calls of a cycle.
pub record DivCalls : Type 0 where
  pub div : Option DivArgs
  pub result : Bool
  pub preempt : Bool

-- `^` on single bits
abbrev pub differ : Bool → Bool → Bool
differ a b = if a then not b else b

-- `~x + 1` at width `w`
unfoldable pub complement : ⦃p : Pymtl⦄ → ℕ → ℕ → ℕ
complement ⦃p⦄ w x = p.add w (p.inv w x) 1

module _ ⦃p : Pymtl⦄ (dlen : ℕ) where
  open p use {add, sub, bor, shl, index, slice}

  -- An iteration of the loop of `NonRestoringDividerStep.eval`, on `div_acc_next` and
  -- `div_dividend_next`
  unfoldable pub iterate : ℕ → ℕ × ℕ → ℕ × ℕ
  iterate divisor (acc, dividend) =
      let acc_shift = bor (shl (dlen + 1) acc 1) (to_bit (index dividend (dlen - 1))) in
      let acc_next =
        if index acc dlen
        then add (dlen + 1) acc_shift divisor
        else sub (dlen + 1) acc_shift divisor in
      (acc_next, bor (shl dlen dividend 1) (to_bit (not (index acc_next dlen))))

  -- The loop.
  unfoldable pub eval : ℕ → ℕ → ℕ × ℕ → ℕ × ℕ
  unfolding iterate
  eval zero divisor r = r
  eval (suc nsteps) divisor r = eval nsteps divisor (iterate divisor r)

  -- `divisor.write_data` and `dividend.write_data` of a call
  unfoldable pub magnitude : Bool → ℕ → ℕ
  unfolding complement
  magnitude is_signed x = if is_signed && index x (dlen - 1) then complement dlen x else x

  -- The results of `handle_calls`
  unfoldable pub result_quotient : DivState → ℕ
  result_quotient s = s.dividend

  unfoldable pub result_rem : DivState → ℕ
  result_rem s = slice s.acc 0 dlen

  -- `set_div_regs` for `acc` in a cycle without a call of `div`
  unfoldable pub acc_next : ℕ → DivState → ℕ
  unfolding eval complement
  acc_next nsteps s =
      let next = (eval nsteps s.divisor (s.acc, s.dividend)).0 in
      let corrected = if index next dlen then add (dlen + 1) next s.divisor else next in
      if s.counter == 1
      then (if s.negate_rem then complement (dlen + 1) corrected else corrected)
      else next

  -- and for `dividend`
  unfoldable pub dividend_next : ℕ → DivState → ℕ
  unfolding eval complement
  dividend_next nsteps s =
      let next = (eval nsteps s.divisor (s.acc, s.dividend)).1 in
      if s.counter == 1 && s.negate && not (s.divisor == 0) then complement dlen next else next

  -- A clock edge without reset; `nbits` is the width of `counter`.
  unfoldable pub step : ℕ → ℕ → ℕ → DivState → DivCalls → DivState
  unfolding acc_next dividend_next magnitude
  step nbits ncycles nsteps s c = elim c.div [
    | some args ↦ record {
      acc = 0;
      divisor = magnitude args.is_signed args.divisor;
      dividend = magnitude args.is_signed args.dividend;
      negate =
          args.is_signed && differ (index args.divisor (dlen - 1)) (index args.dividend (dlen - 1));
      negate_rem = args.is_signed && index args.dividend (dlen - 1);
      counter = ncycles;
      busy = true;
    }
    | none ↦ record s {
      acc = if ltb 0 s.counter then acc_next nsteps s else s.acc;
      dividend = if ltb 0 s.counter then dividend_next nsteps s else s.dividend;
      counter = if s.counter == 0 then s.counter else sub nbits s.counter 1;
      busy = if c.result || c.preempt then false else s.busy;
    }
  ]

-- `div_rdy` and `result_rdy` of `handle_calls`
unfoldable pub div_rdy : DivState → DivCalls → Bool
div_rdy s c = not s.busy || c.result

unfoldable pub result_rdy : DivState → Bool
result_rdy s = s.busy && s.counter == 0
