-- ===== src/Lib.antt =====
-- Lizard, a RISC-V RV64 out-of-order core written in Python on the package pymtl.
--
-- The program has three layers. lizard/util/arch describes the instruction set: the tables of fields
-- and encodings (isa.py, rv64g.py) and the meaning of each instruction on registers, CSRs and memory
-- (semantics.py), which the tests of the core compare it with. lizard/util/rtl is a library of hardware
-- components, each a class with combinational blocks and registers, and lizard/util/fl holds the
-- functional models of the same interfaces. lizard/core/rtl builds the pipeline from them.
--
-- The modules and the code they are about:
--   Prelude            lists, options, tests and integers over the native numbers
--   BitLaws            `&`, `|` and `^` as arithmetic, and bit by bit
--   Pymtl              the operations of the package pymtl, which is not among the sources, as a record
--                      of functions with their documented laws; Pymtl.Standard satisfies them
--   Bitutil            lizard/bitutil/__init__.py: clog2, clog2nz, byte_count
--   Arbiters           lizard/util/rtl/arbiters.py, lizard/util/rtl/thermometer_mask.py and
--                      lizard/util/fl/arbiters.py
--   WrapInc            lizard/util/rtl/wrap_inc.py
--   Overlap            lizard/util/rtl/overlap_checker.py and lizard/util/fl/overlap_checker.py
--   SequenceAllocator  lizard/util/rtl/sequence_allocator.py
--   Semantics          lizard/util/arch/semantics.py: Divide is sane_divide and sane_rem, Alu the
--                      register-register instructions, Machine the state and the register files, Execute
--                      the other execute_ methods, handle_exception and execute
--   Isa                lizard/util/arch/isa.py and lizard/util/arch/rv64g.py: FieldSpec, the fields, the
--                      encoding table with its AMO variants, and decode_inst_name
--   CoreAlu            lizard/util/rtl/alu.py, the stage of lizard/core/rtl/backend/alu.py, and the
--                      decoders of lizard/core/rtl/frontend/alu_decoder.py over those of
--                      lizard/core/rtl/frontend/sub_decoder.py
--   CoreBranch         lizard/util/rtl/comparator.py, the stage of lizard/core/rtl/backend/branch.py, and
--                      the table of lizard/core/rtl/frontend/branch_decoder.py
--   CoreImm            lizard/core/rtl/frontend/imm_decoder.py
--   CoreM              what the stages of lizard/core/rtl/backend/multiply.py and
--                      lizard/core/rtl/backend/divide.py hand to Multiplier and Divider and make of the
--                      results
--   RegisterFile       lizard/util/rtl/registerfile.py with lizard/util/fl/registerfile.py; Snapshot is
--                      lizard/util/rtl/snapshotting_registerfile.py over lizard/util/rtl/mux.py, with
--                      lizard/util/fl/snapshotting_registerfile.py
--   RenameTable        lizard/core/rtl/renametable.py over RegisterFile.Snapshot, and
--                      lizard/core/fl/renametable.py
--   FreeList           lizard/util/rtl/freelist.py over lizard/util/rtl/onehot.py and
--                      lizard/util/rtl/coders.py, and lizard/util/fl/freelist.py
--   Cam                lizard/util/rtl/cam.py and lizard/util/fl/cam.py
--   Divider            lizard/util/rtl/divide.py: the step unit, and the divider with its registers
--   Multiplier         lizard/util/rtl/multiply.py: MulPipelined, over MulCombinational with use_mul
--   Pipeline           lizard/util/rtl/pipeline_stage.py, the drop controllers of
--                      lizard/core/rtl/kill_unit.py, and lizard/util/rtl/drop_unit.py
--
-- State and operations. A `Bits(w)` value is the natural number that it holds; each definition cuts it
-- as the code does. The registers of a component are a record, and a clock cycle is a function from
-- the registers and the calls of the cycle to the registers after it; combinational blocks are
-- functions of the values that they read. A method that is called in a cycle is `some` of its
-- arguments, and the methods of a functional model are run in the order that the interface gives them;
-- an address that a list does not have is `none`. RV64GSemantics is a record with its registers, CSRs,
-- queues and memory; an instruction gives the next state, or the state that a Python exception leaves.
--
-- Loops. clog2 runs on fuel, x + 1 rounds, which are enough as each round doubles its power of two; all
-- other loops are over lists or up to a given number, such as the iterations of a cycle of the divider.
--
-- Not modelled: the memory of the package pclib is an argument of the semantics, which may
-- raise on an access, with no law assumed; privilege levels are not in the code;
-- text formats, the assembler and the ELF reader work on strings and files; the framework in
-- lizard/model generates code by reflection. Of lizard/core the arithmetic of the ALU, branch,
-- multiplication and division stages and the decoders of the first two is here, with the rename table
-- and the kill of messages, without the control flow, data flow and memory flow around them; of
-- lizard/util/rtl only the components above, without the dead tracking of pipeline_stage.py and the
-- retimed and the adding multipliers of multiply.py.
pub mod Prelude
pub mod BitLaws
pub mod Pymtl
pub mod Bitutil
pub mod Arbiters
pub mod WrapInc
pub mod Overlap
pub mod SequenceAllocator
pub mod Semantics
pub mod Isa
pub mod CoreAlu
pub mod CoreBranch
pub mod CoreImm
pub mod CoreM
pub mod RegisterFile
pub mod RenameTable
pub mod Divider
pub mod Multiplier
pub mod FreeList
pub mod Cam
pub mod Pipeline
