-- ===== src/Semantics/Execute/Runs.antt =====
-- The states that sequences of instructions reach from reset.
use lizard.Prelude.{ℕ, refl, arith, List, All, get_or-replicate, length-replicate}
use lizard.Pymtl.{Pymtl}
use lizard.Semantics.Machine.{Machine, MemPort, initial, reset}
use lizard.Semantics.Machine.Valid.{Fits, IsValid}
use lizard.Semantics.Execute.{Instr, execute}
use lizard.Semantics.Execute.Valid.{state_of, execute-IsValid}

module _ {Mem : Type 0} where
  reset-IsValid :
      (memory : Mem) (mngr2proc proc2mngr : List ℕ)
      → All Fits mngr2proc
      → All Fits proc2mngr
      → IsValid (reset (initial memory mngr2proc proc2mngr))
  unfolding initial reset
  reset-IsValid memory mngr2proc proc2mngr h h' = record {
    pc-Fits = omega arith;
    length-regs = length-replicate {A = ℕ} 32 0;
    regs-Fits = λ i. omega (arith, get_or-replicate {A = ℕ} 32 i 0);
    x0 = refl;
    csr-Fits = λ k. omega arith;
    mngr2proc-Fits = h;
    proc2mngr-Fits = h';
  }

  module _ ⦃p : Pymtl⦄ (port : MemPort Mem) where
    -- Any sequence of instructions from reset, the ones that raise included
    pub data Ran : Machine Mem → Type 0 where
      from_reset :
          (memory : Mem) (mngr2proc proc2mngr : List ℕ)
          → All Fits mngr2proc
          → All Fits proc2mngr
          → Ran (reset (initial memory mngr2proc proc2mngr))
      after :
          {s : Machine Mem}
          → Ran s
          → (inst : ℕ) (i : Instr) → Ran (state_of (execute port inst i s))

    -- Every state that a sequence of instructions reaches from reset is well formed, when the values that
    -- are queued at reset have 64 bits.
    Ran-IsValid : {s : Machine Mem} → Ran s → IsValid s
    Ran-IsValid (from_reset memory mngr2proc proc2mngr h h') =
        reset-IsValid memory mngr2proc proc2mngr h h'
    Ran-IsValid (after {s} r inst i) = execute-IsValid port inst i s (Ran-IsValid r)
