-- ===== src/Semantics/Machine.antt =====
-- The state of `RV64GSemantics`: the program counter, `RegisterFile`, `CsrRegisterFile`, the two queues
-- to the test manager, and the memory, which is a port of the package pclib.
pub mod Valid
use lizard.Prelude.{replicate}
use lizard.Prelude.{ℕ, zero, ◌==◌, Bool, true, false, ◌||◌, if◌then◌else◌, List, [], ◌∷◌, ◌++◌}
use lizard.Prelude.{Option, none, some, get_or, set}
use lizard.Prelude.Int.{pos}
use lizard.Pymtl.{Pymtl}
use lizard.Semantics.Alu.{xlen}

-- `m[addr:addr + n]`, read and written, as an argument: `BytesMemPortAdapter` is not in the sources.
-- `none` is an exception that it raises.
pub record MemPort (Mem : Type 0) : Type 0 where
  pub load : Mem → ℕ → ℕ → Option ℕ
  pub store : Mem → ℕ → ℕ → ℕ → Option Mem

-- `csr` is the dictionary `CsrRegisterFile.regs`, which is read with the default 0.
pub record Machine (Mem : Type 0) : Type 0 where
  pub pc : ℕ
  pub regs : List ℕ
  pub csr : ℕ → ℕ
  pub mngr2proc : List ℕ
  pub proc2mngr : List ℕ
  pub mem : Mem

-- The numbers in `CsrRegisters` of lizard/msg/codes.py
abbrev pub csr_numbers : List ℕ
csr_numbers =
    0x000 ∷ 0x004 ∷ 0x005 ∷ 0x040 ∷ 0x041 ∷ 0x042 ∷ 0x042 ∷ 0x044 ∷ 0x001 ∷ 0x002 ∷ 0x003 ∷ 0xC00
    ∷ 0xC01 ∷ 0xC02 ∷ 0xC03 ∷ 0xC04 ∷ 0xC05 ∷ 0xC06 ∷ 0xC07 ∷ 0xC08 ∷ 0xC09 ∷ 0xC0A ∷ 0xC0B ∷ 0xC0C
    ∷ 0xC0D ∷ 0xC0E ∷ 0xC0F ∷ 0xC10 ∷ 0xC11 ∷ 0xC12 ∷ 0xC13 ∷ 0xC14 ∷ 0xC15 ∷ 0xC16 ∷ 0xC17 ∷ 0xC18
    ∷ 0xC19 ∷ 0xC1A ∷ 0xC1B ∷ 0xC1C ∷ 0xC1D ∷ 0xC1E ∷ 0xC1F ∷ 0x100 ∷ 0x102 ∷ 0x103 ∷ 0x104 ∷ 0x105
    ∷ 0x106 ∷ 0x140 ∷ 0x141 ∷ 0x142 ∷ 0x143 ∷ 0x144 ∷ 0x180 ∷ 0xF11 ∷ 0xF12 ∷ 0xF13 ∷ 0xF14 ∷ 0x300
    ∷ 0x301 ∷ 0x302 ∷ 0x303 ∷ 0x304 ∷ 0x305 ∷ 0x306 ∷ 0x340 ∷ 0x341 ∷ 0x342 ∷ 0x343 ∷ 0x344 ∷ 0x3A0
    ∷ 0x3A2 ∷ 0x3B0 ∷ 0x3B1 ∷ 0x3B2 ∷ 0x3B3 ∷ 0x3B4 ∷ 0x3B5 ∷ 0x3B6 ∷ 0x3B7 ∷ 0x3B8 ∷ 0x3B9 ∷ 0x3BA
    ∷ 0x3BB ∷ 0x3BC ∷ 0x3BD ∷ 0x3BE ∷ 0x3BF ∷ 0xB00 ∷ 0xB02 ∷ 0xB03 ∷ 0xB04 ∷ 0xB05 ∷ 0xB06 ∷ 0xB07
    ∷ 0xB08 ∷ 0xB09 ∷ 0xB0A ∷ 0xB0B ∷ 0xB0C ∷ 0xB0D ∷ 0xB0E ∷ 0xB0F ∷ 0xB10 ∷ 0xB11 ∷ 0xB12 ∷ 0xB13
    ∷ 0xB14 ∷ 0xB15 ∷ 0xB16 ∷ 0xB17 ∷ 0xB18 ∷ 0xB19 ∷ 0xB1A ∷ 0xB1B ∷ 0xB1C ∷ 0xB1D ∷ 0xB1E ∷ 0xB1F
    ∷ 0x323 ∷ 0x324 ∷ 0x325 ∷ 0x326 ∷ 0x327 ∷ 0x328 ∷ 0x329 ∷ 0x32A ∷ 0x32B ∷ 0x32C ∷ 0x32D ∷ 0x32E
    ∷ 0x32F ∷ 0x330 ∷ 0x331 ∷ 0x332 ∷ 0x333 ∷ 0x334 ∷ 0x335 ∷ 0x336 ∷ 0x337 ∷ 0x338 ∷ 0x339 ∷ 0x33A
    ∷ 0x33B ∷ 0x33C ∷ 0x33D ∷ 0x33E ∷ 0x33F ∷ 0x7A0 ∷ 0x7A1 ∷ 0x7A2 ∷ 0x7A3 ∷ 0x7B0 ∷ 0x7B1 ∷ 0x7B2
    ∷ 0x7C0 ∷ 0xFC0 ∷ []

abbrev contains_in : List ℕ → ℕ → Bool
contains_in [] k = false
contains_in (n ∷ ns) k = n == k || contains_in ns k

-- `CsrRegisters.contains`
unfoldable pub csr_contains : ℕ → Bool
csr_contains k = contains_in csr_numbers k

abbrev pub mngr2proc_number : ℕ
mngr2proc_number = 0xFC0

abbrev pub proc2mngr_number : ℕ
proc2mngr_number = 0x7C0

abbrev pub mepc : ℕ
mepc = 0x341

abbrev pub mcause : ℕ
mcause = 0x342

abbrev pub mtval : ℕ
mtval = 0x343

module _ {Mem : Type 0} where
  -- `RV64GSemantics.__init__`, with the two queues as they are given
  unfoldable pub initial : Mem → List ℕ → List ℕ → Machine Mem
  initial memory mngr2proc_queue proc2mngr_queue = record {
    pc = 0;
    regs = replicate 32 0;
    csr = λ k. 0;
    mngr2proc = mngr2proc_queue;
    proc2mngr = proc2mngr_queue;
    mem = memory;
  }

  -- `RV64GSemantics.reset`, to `RESET_VECTOR`
  unfoldable pub reset : Machine Mem → Machine Mem
  reset s = record s { pc = 0x200 }

  -- `RegisterFile.__getitem__`
  unfoldable pub get_reg : Machine Mem → ℕ → ℕ
  get_reg s idx = if idx == 0 then 0 else get_or s.regs idx 0

module _ ⦃p : Pymtl⦄ {Mem : Type 0} where
  -- `RegisterFile.__setitem__`
  unfoldable pub set_reg : Machine Mem → ℕ → ℕ → Machine Mem
  set_reg s idx value =
      if idx == 0 then s else record s { regs = set s.regs idx (p.trunc xlen (pos value)) }

  -- `CsrRegisterFile.__getitem__`; `none` is the exception of `popleft` on an empty queue
  unfoldable pub get_csr : Machine Mem → ℕ → Option (ℕ × Machine Mem)
  get_csr s idx =
      if idx == mngr2proc_number
      then elim s.mngr2proc [ [] ↦ none | v ∷ vs ↦ some (v, record s { mngr2proc = vs }) ]
      else some (s.csr idx, s)

  -- `CsrRegisterFile.__setitem__`
  unfoldable pub set_csr : Machine Mem → ℕ → ℕ → Machine Mem
  set_csr s idx value =
      let cut = p.trunc xlen (pos value) in
      if idx == proc2mngr_number
      then record s { proc2mngr = s.proc2mngr ++ cut ∷ [] }
      else record s { csr = λ k. if k == idx then cut else s.csr k }
