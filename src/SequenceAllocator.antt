-- ===== src/SequenceAllocator.antt =====
-- The allocator of reorder buffer slots, lizard/util/rtl/sequence_allocator.py.
pub mod Queue
pub mod Window
pub mod Refine
pub mod Reach
mod Tests
use lizard.Prelude.{ℕ, ◌+◌, ◌^◌, ◌==◌, Bool, true, false, not, ◌&&◌, ◌||◌, if◌then◌else◌}
use lizard.Prelude.{Option, none, some}
use lizard.Pymtl.{Pymtl}

-- The registers.
pub record State : Type 0 where
  pub tail : ℕ
  pub head : ℕ
  pub num : ℕ

-- The calls of one clock cycle; `rollback` is `rollback_idx` under `rollback_call`.
pub record Calls : Type 0 where
  pub allocate : Bool
  pub free : Bool
  pub rollback : Option ℕ

unfoldable pub reset : State
reset = record { tail = 0; head = 0; num = 0 }

-- `set_flags` and `set_method_rdy`
unfoldable pub allocate_rdy : ℕ → State → Bool
allocate_rdy nbits s = not (s.num == 2 ^ nbits)

unfoldable pub free_rdy : State → Bool
free_rdy s = not (s.num == 0)

module _ ⦃p : Pymtl⦄ (nbits : ℕ) where
  -- `tail_next` of `update_tail`
  abbrev pub tail_next : State → Calls → ℕ
  tail_next s c = elim c.rollback [ some idx ↦ p.add nbits idx 1 | none ↦ p.add nbits s.tail 1 ]

  -- `head_next` of `update_head`
  abbrev pub head_next : State → Calls → ℕ
  head_next s c = if c.free then p.add nbits s.head 1 else s.head

  -- `update_num`, without its write enable
  abbrev pub num_next : State → Calls → ℕ
  num_next s c =
      let head_tail_delta = p.sub nbits (tail_next s c) (head_next s c) in
      elim c.rollback [
        | some idx ↦
            if head_tail_delta == 0 && not (idx == s.head) then 2 ^ nbits else head_tail_delta
        | none ↦
            if c.allocate
            then (if c.free then s.num else p.add (nbits + 1) s.num 1)
            else (if c.free then p.sub (nbits + 1) s.num 1 else s.num)
      ]

  -- A clock edge: each register is written where its `write_call` is set.
  unfoldable pub step : State → Calls → State
  step s c =
      let rollback_call : Bool = elim c.rollback [ some idx ↦ true | none ↦ false ] in
      let write_tail = c.allocate || rollback_call in
      record {
        tail = if write_tail then tail_next s c else s.tail;
        head = if c.free then head_next s c else s.head;
        num = if write_tail || c.free then num_next s c else s.num;
      }
