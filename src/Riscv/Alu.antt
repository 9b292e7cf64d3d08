-- ===== src/Riscv/Alu.antt =====
-- What the code generated for the computing instructions does.
pub mod Single
pub mod Shift
pub mod ShiftRight
pub mod Compare
pub mod Immediate
pub mod Correct
