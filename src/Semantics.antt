-- ===== src/Semantics.antt =====
-- The functional model of the instruction set, lizard/util/arch/semantics.py: the component that the
-- processor is tested against.
pub mod Divide
pub mod Alu
pub mod Machine
pub mod Execute
mod Tests
