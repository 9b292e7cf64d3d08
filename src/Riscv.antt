-- ===== src/Riscv.antt =====
-- The code generator for RISC-V programs, and what the code it generates does.
pub mod Instr
pub mod Register
pub mod Asm
pub mod Blocks
pub mod Access
pub mod CodeGen
pub mod Sequence
pub mod Spec
pub mod Runs
pub mod Alu
pub mod LoadSpec
pub mod Load
pub mod Branch
