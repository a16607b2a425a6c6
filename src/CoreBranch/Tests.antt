-- ===== src/CoreBranch/Tests.antt =====
-- Branches and jumps at a concrete state, with the standard functions for the package pymtl.
use lizard.Prelude.{
  ℕ, zero, suc, ◌^◌, ◌<◌, ◌≡◌, refl, arith, false, some, [], ◌∷◌, replicate, get_or,
  get_or-replicate,
}
use lizard.Pymtl.Standard.{standard}
use lizard.Semantics.Machine.{Machine, MemPort, get_reg, set_reg}
use lizard.Semantics.Machine.Valid.{Fits, IsValid}
use lizard.Semantics.Execute
use lizard.Semantics.Execute.{execute, done, blt}
use lizard.Semantics.Execute.Jumps.{jump_sum}
use lizard.CoreBranch.{BranchMsg, branch_decoder, branch_msg, branch_target, branch_type_eq, link}
use lizard.CoreBranch.Compare.{funct3_of}
use lizard.CoreBranch.Refine.{branch_input, branch_refines, jal_input, jalr_input, jump_refines}

abbrev no_memory : MemPort (Unit {0})
no_memory = record { load = λ m addr n. some 0; store = λ m addr n v. some m }

-- Register 1 holds -1 and register 2 holds 5.
abbrev start : Machine (Unit {0})
start = record {
  pc = 0x200;
  regs = 0 ∷ 0xFFFFFFFFFFFFFFFF ∷ 5 ∷ replicate 29 0;
  csr = λ k. 0;
  mngr2proc = [];
  proc2mngr = [];
  mem = tt;
}

start_below : (i : ℕ) → Fits (get_or start.regs i 0)
start_below zero = omega arith
start_below (suc zero) = omega arith
start_below (suc (suc zero)) = omega arith
start_below (suc (suc (suc i))) = omega (arith, get_or-replicate {A = ℕ} 29 i 0)

start-IsValid : IsValid start
start-IsValid = record {
  pc-Fits = omega arith;
  length-regs = refl;
  regs-Fits = start_below;
  x0 = refl;
  csr-Fits = λ k. omega arith;
  mngr2proc-Fits = tt;
  proc2mngr-Fits = tt;
}

-- blt x1, x2, -8: -1 is below 5.
branch_refines_example :
    (m : BranchMsg) × (branch_decoder (funct3_of blt) ≡ some m)
    × (execute no_memory 0xFE20CCE3 (Execute.branch blt 1 2 0x1FF8) start
        ≡ done
            (record start {
              pc =
                  branch_target
                    (branch_input m (get_reg start 1) (get_reg start 2) 0x1FF8 start.pc);
            })
            tt)
branch_refines_example =
    branch_refines no_memory 0xFE20CCE3 start blt 1 2 0x1FF8 start-IsValid (omega arith)

abbrev any_msg : BranchMsg
any_msg = branch_msg branch_type_eq false

sum_is_low : jump_sum start 2 0x7 < 2 ^ 32
unfolding get_reg
sum_is_low = omega arith

jump_refines_example :
    (execute no_memory 0 (Execute.jal 3 0x100) start
      ≡ done
          (record (set_reg start 3 (link (jal_input any_msg 0 0 0x100 start.pc))) {
            pc = branch_target (jal_input any_msg 0 0 0x100 start.pc);
          })
          tt)
    × (execute no_memory 0 (Execute.jalr 3 2 0x7) start
        ≡ done
            (record (set_reg start 3 (link (jalr_input any_msg (get_reg start 2) 0 0x7 start.pc))) {
              pc = branch_target (jalr_input any_msg (get_reg start 2) 0 0x7 start.pc);
            })
            tt)
jump_refines_example =
    jump_refines no_memory 0 start any_msg 0 3 2 0x100 0x7 (omega arith) sum_is_low
