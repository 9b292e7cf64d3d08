-- ===== src/Tests.antt =====
-- Runs at concrete inputs: each property at one of them, and a few results of the model.
mod Machine
mod Goldilocks
mod Executor
mod Riscv
mod Witgen
mod Continuations
