-- ===== src/Semantics/Execute/Kinds.antt =====
-- Kinds of instructions: which only compute, which jump, and which report an exception.
use lizard.Prelude.{ℕ, ◌≡◌, Bool, true, false, List, [], ◌∷◌}
use lizard.Semantics.Machine.{csr_contains}
use lizard.Semantics.Execute
use lizard.Semantics.Execute.{Instr}

-- The instructions that neither reach a CSR nor cause an exception.
abbrev pub IsOrdinary : Instr → Type 0
IsOrdinary (Execute.csr _ _ _ _) = ⊥
IsOrdinary Execute.invld = ⊥
IsOrdinary Execute.ecall = ⊥
IsOrdinary Execute.ebreak = ⊥
IsOrdinary _ = Unit

-- The instructions that only fall through.
abbrev pub is_jump : Instr → Bool
is_jump (Execute.jal _ _) = true
is_jump (Execute.jalr _ _ _) = true
is_jump (Execute.branch _ _ _ _) = true
is_jump _ = false

-- The causes of the exceptions that the instructions report.
abbrev pub Causes : Instr → ℕ → Type 0
Causes Execute.invld c = c ≡ 2
Causes Execute.ebreak c = c ≡ 3
Causes Execute.ecall c = c ≡ 8
Causes (Execute.csr _ _ num _) c = (csr_contains num ≡ false) × (c ≡ 2)
Causes _ c = ⊥

-- The fields of an instruction that index the registers.
abbrev pub reg_fields : Instr → List ℕ
reg_fields (Execute.rr op rd rs1 rs2) = rd ∷ rs1 ∷ rs2 ∷ []
reg_fields (Execute.imm op rd rs1 i_imm) = rd ∷ rs1 ∷ []
reg_fields (Execute.shift op rd rs1 shamt) = rd ∷ rs1 ∷ []
reg_fields (Execute.lui rd u_imm) = rd ∷ []
reg_fields (Execute.auipc rd u_imm) = rd ∷ []
reg_fields (Execute.load op rd rs1 i_imm) = rd ∷ rs1 ∷ []
reg_fields (Execute.store op rs1 rs2 s_imm) = rs1 ∷ rs2 ∷ []
reg_fields Execute.fence = []
reg_fields Execute.fence_i = []
reg_fields (Execute.jal rd j_imm) = rd ∷ []
reg_fields (Execute.jalr rd rs1 i_imm) = rd ∷ rs1 ∷ []
reg_fields (Execute.branch op rs1 rs2 b_imm) = rs1 ∷ rs2 ∷ []
reg_fields (Execute.csr op rd csrnum rs1) = rd ∷ rs1 ∷ []
reg_fields Execute.invld = []
reg_fields Execute.ecall = []
reg_fields Execute.ebreak = []
