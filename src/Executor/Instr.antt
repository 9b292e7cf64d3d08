-- ===== src/Executor/Instr.antt =====
-- riscv-executor/src/lib.rs, `Executor::exec_instruction`: what its arms share.
pub mod Words
pub mod Arith
pub mod Extend
pub mod Bitwise
pub mod Memory
pub mod Compare
pub mod Jump
pub mod Field
use powdr.Prelude.{
  ℕ, ◌+◌, Bool, true, false, not, List, [], ◌∷◌, Option, none, some, get_elem?, ◌^◌,
}
use powdr.Prelude.Int.{ℤ, pos, checked}
use powdr.Executor.Elem.{
  Elem, binary, field, into_fe, is_zero, u, bin, Bytes, decompose_lower32, from_u32_as_fe,
  from_bool_as_fe,
}
use powdr.Executor.Elem
use powdr.Goldilocks
use powdr.Executor.Names.{Instruction, KnownWitnessCol, MachineInstance}
use powdr.Executor.State.{M, pure, ◌>>=◌, ◌>>◌, unwrap, when}
use powdr.Executor.Proc.{set_col, reg_read, reg_write, instr_link_id}

-- `args[i]` and `args[i].u()`, `args[i].bin()`
unfoldable pub arg : List Elem → ℕ → M Elem
arg args i = unwrap (get_elem? args i)

unfoldable pub arg_u : List Elem → ℕ → M ℕ
unfolding arg
arg_u args i = do a ← arg args i; unwrap (u a)

unfoldable pub arg_bin : List Elem → ℕ → M ℤ
unfolding arg
arg_bin args i = do a ← arg args i; unwrap (bin a)

-- `let lid = self.instr_link_id(instr, regs, idx); self.reg_read(offset, reg, lid)`
unfoldable pub read_linked : Instruction → ℕ → ℕ → ℕ → M Elem
unfolding reg_read instr_link_id
read_linked instr idx offset reg = do
  lid ← instr_link_id instr MachineInstance.regs idx
  reg_read offset reg lid

unfoldable pub write_linked : Instruction → ℕ → ℕ → ℕ → Elem → M (Unit {0})
unfolding reg_write instr_link_id
write_linked instr idx offset reg val = do
  lid ← instr_link_id instr MachineInstance.regs idx
  reg_write offset reg val lid

-- The columns X_b1 to X_b4.
unfoldable pub set_x_bytes : Bytes → M (Unit {0})
unfolding set_col
set_x_bytes b = do
  set_col KnownWitnessCol.x_b1 (from_u32_as_fe b.b1)
  set_col KnownWitnessCol.x_b2 (from_u32_as_fe b.b2)
  set_col KnownWitnessCol.x_b3 (from_u32_as_fe b.b3)
  set_col KnownWitnessCol.x_b4 (from_u32_as_fe b.b4)

-- The columns of the zero test on `val`: XX, XXIsZero and, unless it is zero, its inverse.
unfoldable pub set_zero_test : Elem → M (Unit {0})
unfolding set_col
set_zero_test val = do
  set_col KnownWitnessCol.xx val
  set_col KnownWitnessCol.xx_is_zero (from_bool_as_fe (is_zero val))
  when (not (is_zero val))
      do inv ← unwrap (Goldilocks.div 1 (into_fe val)); set_col KnownWitnessCol.xx_inv (field inv)

-- A sum, difference or product of i64 or u32 values: the plain operators panic when the result does not fit.
abbrev pub i64 : ℤ → M ℤ
i64 x = unwrap (checked x)

abbrev pub u32 : ℕ → M ℕ
u32 n = unwrap (Elem.try_u32 (pos n))
