-- ===== src/Semantics/Tests.antt =====
-- The semantics at concrete operands and states, with the standard functions for the package pymtl.
use lizard.Prelude.{
  ℕ, zero, suc, ◌+◌, ◌/◌, ◌-◌, bit_or, ◌*◌, ◌%◌, ◌^◌, ◌<◌, ◌≡◌, ◌≢◌, refl, arith, false, true,
  replicate,
}
use lizard.Prelude.{none, some, [], ◌∷◌, get_or, get_or-replicate}
use lizard.Prelude.Int.{ℤ, pos, negsuc, abs, ltb_ℤ, ◌*ℤ◌, ◌+ℤ◌}
use lizard.Pymtl.Standard.{standard}
use lizard.Semantics.Divide.{sane_divide, sane_rem}
use lizard.Semantics.Divide.Laws.{divide-rem, rem_bounds}
use lizard.Semantics.Alu
use lizard.Semantics.Alu.{rr_value}
use lizard.Semantics.Alu.Range.{Returns, rr_value-Returns}
use lizard.Semantics.Machine.{Machine, MemPort, csr_contains, set_reg, get_reg, initial, reset}
use lizard.Semantics.Machine.Valid.{Fits, IsValid}
use lizard.Semantics.Execute
use lizard.Semantics.Execute.{execute, done, raised}
use lizard.Semantics.Execute.Valid.{state_of, execute-IsValid}
use lizard.Semantics.Execute.Outcomes.{Completes, execute-Completes, Reports, execute-raises}
use lizard.Semantics.Execute.Csrs.{
  execute_csr-Updates, execute_csr-writes_read_only, execute_csr-loses,
}
use lizard.Semantics.Execute.CsrRules.{Updates, IsStored, isa_write}
use lizard.Semantics.Execute.Runs.{Ran, from_reset, after}
use lizard.Semantics.Execute.Jumps.{execute-jalr, jump_sum}
use lizard.Prelude.{All}

no_zero : negsuc 1 ≢ pos 0
no_zero e = ground arith

-- The quotient of 7 by -2 is -3, and the remainder 1.
divide-rem_example :
    (q : ℤ) × (r : ℤ) × (sane_divide (pos 7) (negsuc 1) 64 ≡ some q)
    × (sane_rem (pos 7) (negsuc 1) 64 ≡ some r)
    × (q *ℤ negsuc 1 +ℤ r ≡ pos 7)
divide-rem_example = divide-rem (pos 7) (negsuc 1) 64 no_zero refl

rem_bounds_example :
    (r : ℤ) × (sane_rem (negsuc 6) (negsuc 1) 64 ≡ some r)
    × (abs r < abs (negsuc 1))
    × (r ≢ pos 0 → ltb_ℤ r (pos 0) ≡ ltb_ℤ (negsuc 6) (pos 0))
rem_bounds_example = rem_bounds (negsuc 6) (negsuc 1) 64 no_zero

rr_value-Returns_example : Returns (rr_value Alu.div (2 ^ 63) (2 ^ 64 - 1))
rr_value-Returns_example =
    rr_value-Returns Alu.div (2 ^ 63) (2 ^ 64 - 1) (omega arith) (omega arith)

-- A memory of bytes that reads as 0.
abbrev zeros : MemPort (Unit {0})
zeros = record { load = λ m addr n. some 0; store = λ m addr n v. some m }

-- Register 1 holds 5, register 2 holds 2^32 + 9, and every CSR holds 12.
abbrev start : Machine (Unit {0})
start = record {
  pc = 0x200;
  regs = 0 ∷ 5 ∷ 4294967305 ∷ replicate 29 0;
  csr = λ k. 12;
  mngr2proc = 7 ∷ [];
  proc2mngr = [];
  mem = tt;
}

start_below : (i : ℕ) → Fits (get_or start.regs i 0)
start_below zero = omega arith
start_below (suc zero) = omega arith
start_below (suc (suc zero)) = omega arith
start_below (suc (suc (suc i))) = omega (arith, get_or-replicate {A = ℕ} 29 i 0)

start-IsValid : IsValid start
start-IsValid = record {
  pc-Fits = omega arith;
  length-regs = refl;
  regs-Fits = start_below;
  x0 = refl;
  csr-Fits = λ k. omega arith;
  mngr2proc-Fits = (omega arith, tt);
  proc2mngr-Fits = tt;
}

-- `csrrw` from the queue to the test manager's other queue, and a division by zero
execute-IsValid_example :
    IsValid (state_of (execute zeros 0x7C031073 (Execute.csr Execute.csrrw 0 0x7C0 1) start))
execute-IsValid_example =
    execute-IsValid zeros 0x7C031073 (Execute.csr Execute.csrrw 0 0x7C0 1) start start-IsValid

-- A division by zero, of 12 by register 0
execute-Completes_example :
    All (λ r. r < 32) (3 ∷ 1 ∷ 0 ∷ [])
    × Completes false start (execute zeros 0 (Execute.rr Alu.div 3 1 0) start)
execute-Completes_example =
    execute-Completes zeros 0 (Execute.rr Alu.div 3 1 0) start tt
      (omega arith, (omega arith, (omega arith, tt))) tt start-IsValid

-- A memory that raises on every access.
abbrev refuses : MemPort (Unit {0})
refuses = record { load = λ m addr n. none; store = λ m addr n v. none }

load_test : execute refuses 0 (Execute.load Execute.lw 3 1 0) start ≡ raised start
unfolding execute Execute.execute_method Execute.finish
load_test = refl

execute-raises_example : Reports 0x73 8 start (execute zeros 0x73 Execute.ecall start)
execute-raises_example =
    execute-raises zeros 0x73 Execute.ecall 8 start refl (omega arith) start-IsValid

abbrev mtvec : ℕ
mtvec = 0x305

mtvec_is_known : csr_contains mtvec ≡ true
unfolding csr_contains
mtvec_is_known = refl

mtvec-IsStored : IsStored mtvec
mtvec-IsStored = record {
  known = mtvec_is_known;
  not_mngr2proc = λ e. omega arith;
  not_proc2mngr = λ e. omega arith;
}

legal_write :
    isa_write Execute.csrrs mtvec 1 12 (get_reg start 1) ≡ some (bit_or 12 (get_reg start 1))
unfolding isa_write
legal_write = refl

execute_csr-Updates_example :
    Updates start 3 mtvec
      (bit_or 12 (get_reg start 1))
      (execute zeros 0 (Execute.csr Execute.csrrs 3 mtvec 1) start)
execute_csr-Updates_example =
    execute_csr-Updates zeros 0 Execute.csrrs 3 mtvec 1 (bit_or 12 (get_reg start 1)) start tt
      mtvec-IsStored start-IsValid (omega arith) legal_write

-- The counter `cycle`, which is read-only
abbrev cycle : ℕ
cycle = 0xC00

cycle_is_known : csr_contains cycle ≡ true
unfolding csr_contains
cycle_is_known = refl

cycle-IsStored : IsStored cycle
cycle-IsStored = record {
  known = cycle_is_known;
  not_mngr2proc = λ e. omega arith;
  not_proc2mngr = λ e. omega arith;
}

execute_csr-writes_read_only_example :
    (isa_write Execute.csrrw cycle 1 12 (get_reg start 1) ≡ none)
    × Updates start 3 cycle
        (get_reg start 1)
        (execute zeros 0 (Execute.csr Execute.csrrw 3 cycle 1) start)
execute_csr-writes_read_only_example =
    execute_csr-writes_read_only zeros 0 Execute.csrrw 3 cycle 1 start tt cycle-IsStored
      start-IsValid (omega arith) refl refl

execute_csr-loses_example :
    Updates start 3 mtvec 1 (execute zeros 0 (Execute.csr Execute.csrrsi 3 mtvec 1) start)
execute_csr-loses_example =
    execute_csr-loses zeros 0 Execute.csrrsi 3 mtvec 1 start (λ e. e) mtvec-IsStored start-IsValid
      (λ e. omega arith) (omega arith)

execute-jalr_example :
    (t : Machine (Unit {0})) × (execute zeros 0 (Execute.jalr 1 2 0) start ≡ done t tt)
    × (t.pc ≡ jump_sum start 2 0 % 2 ^ 32 / 2 * 2)
    × (t.pc < 2 ^ 32)
    × (jump_sum start 2 0 < 2 ^ 32 → t.pc ≡ jump_sum start 2 0 / 2 * 2)
    × (t.regs ≡ (set_reg start 1 ((start.pc + 4) % 2 ^ 64)).regs)
execute-jalr_example = execute-jalr zeros 0 1 2 0 start

abbrev two_steps : Machine (Unit {0})
two_steps = state_of (
    execute zeros 0x73 Execute.ecall
      (state_of (execute zeros 0 (Execute.jal 1 0x100) (reset (initial tt (7 ∷ []) [])))))

Ran-two_steps : Ran zeros two_steps
Ran-two_steps =
    after (after (from_reset tt (7 ∷ []) [] (omega arith, tt) tt) 0 (Execute.jal 1 0x100)) 0x73
      Execute.ecall
