-- ===== src/Executor.antt =====
-- riscv-executor/src/lib.rs: the executor of the RISC-V assembly machine.
pub mod Names
pub mod Elem
pub mod State
pub mod Proc
pub mod Instr
pub mod Dispatch
pub mod Run
pub mod Memory
pub mod Laws
