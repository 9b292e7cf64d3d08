-- ===== src/Executor/Instr/Jump.antt =====
-- riscv-executor/src/lib.rs, `exec_instruction`: jumps, branches and the conditional skip.
use powdr.Prelude.{◌+◌, not, List, Option, none, some}
use powdr.Prelude.Int.{ℤ, pos, ltb_ℤ, ◌+ℤ◌}
use powdr.Executor.Elem.{
  Elem, binary, field, bin, u, s, into_fe, is_zero, as_i64_from_lower_bytes, decompose_lower32,
  from_u32_as_fe, from_i32_as_fe, from_bool_as_fe,
}
use powdr.Executor.Elem
use powdr.Executor.Names.{Instruction, KnownWitnessCol}
use powdr.Executor.State.{M, pure, ◌>>=◌, ◌>>◌, unwrap, when}
use powdr.Executor.Proc.{set_col, get_pc, set_pc}
use powdr.Executor.Instr.{
  arg, arg_u, arg_bin, read_linked, write_linked, set_x_bytes, set_zero_test, u32,
}
use powdr.Executor.Instr.Compare.{set_range_bytes}
use powdr.Executor.Instr.Memory.{bootloader_input}

unfoldable pub exec_jump : List Elem → M (Option Elem)
unfolding arg arg_u arg_bin read_linked write_linked set_col set_x_bytes
exec_jump args = do
  label ← arg args 0
  pc ← get_pc
  line ← unwrap (u pc)
  next_pc ← u32 (line + 1)
  write_reg ← arg_u args 1
  write_linked Instruction.jump 0 0 write_reg (binary (pos next_pc))
  set_pc label
  set_col KnownWitnessCol.instr_jump_param_l label
  pure none

unfoldable pub exec_jump_dyn : List Elem → M (Option Elem)
unfolding arg arg_u arg_bin read_linked write_linked set_col set_x_bytes
exec_jump_dyn args = do
  read_reg ← arg_u args 0
  addr ← read_linked Instruction.jump_dyn 0 0 read_reg
  pc ← get_pc
  line ← unwrap (u pc)
  next_pc ← u32 (line + 1)
  write_reg ← arg_u args 1
  write_linked Instruction.jump_dyn 1 0 write_reg (binary (pos next_pc))
  set_pc addr
  set_col KnownWitnessCol.tmp1_col addr
  pure none

unfoldable pub exec_jump_to_bootloader_input : List Elem → M (Option Elem)
unfolding arg arg_u arg_bin read_linked write_linked set_col set_x_bytes
exec_jump_to_bootloader_input args = do
  index ← arg_bin args 0
  addr ← bootloader_input index
  set_pc addr
  pure none

unfoldable pub exec_branch_if_diff_nonzero : List Elem → M (Option Elem)
unfolding arg arg_u arg_bin read_linked write_linked set_col set_x_bytes
exec_branch_if_diff_nonzero args = do
  read_reg1 ← arg_u args 0
  read_reg2 ← arg_u args 1
  val1 ← read_linked Instruction.branch_if_diff_nonzero 0 0 read_reg1
  val2 ← read_linked Instruction.branch_if_diff_nonzero 1 1 read_reg2
  val ← unwrap (Elem.sub val1 val2)
  label ← arg args 2
  when (not (is_zero val)) (set_pc label)
  set_col KnownWitnessCol.tmp1_col val1
  set_col KnownWitnessCol.tmp2_col val2
  set_zero_test val
  set_col KnownWitnessCol.instr_branch_if_diff_nonzero_param_l label
  pure none

unfoldable pub exec_branch_if_diff_equal : List Elem → M (Option Elem)
unfolding arg arg_u arg_bin read_linked write_linked set_col set_x_bytes
exec_branch_if_diff_equal args = do
  read_reg1 ← arg_u args 0
  read_reg2 ← arg_u args 1
  val1 ← read_linked Instruction.branch_if_diff_equal 0 0 read_reg1
  val2 ← read_linked Instruction.branch_if_diff_equal 1 1 read_reg2
  offset ← arg args 2
  diff ← unwrap (Elem.sub val1 val2)
  val ← unwrap (Elem.sub diff offset)
  label ← arg args 3
  when (is_zero val) (set_pc label)
  set_col KnownWitnessCol.tmp1_col val1
  set_col KnownWitnessCol.tmp2_col val2
  set_zero_test val
  set_col KnownWitnessCol.instr_branch_if_diff_equal_param_l label
  pure none

-- `pc + cond.s() + 1`, on i32 values.
unfoldable pub skip_target : Elem → Elem → Option ℤ
skip_target pc cond = elim (s pc) [
  | none ↦ none
  | some p ↦ elim (s cond) [
    | none ↦ none
    | some c ↦ elim (Elem.try_i32 (p +ℤ c)) [ none ↦ none | some t ↦ Elem.try_i32 (t +ℤ pos 1) ]
  ]
]

unfoldable pub exec_skip_if_equal : List Elem → M (Option Elem)
unfolding arg arg_u arg_bin read_linked write_linked set_col set_x_bytes
exec_skip_if_equal args = do
  read_reg1 ← arg_u args 0
  read_reg2 ← arg_u args 1
  val1 ← read_linked Instruction.skip_if_equal 0 0 read_reg1
  val2 ← read_linked Instruction.skip_if_equal 1 1 read_reg2
  offset ← arg args 2
  cond ← arg args 3
  diff ← unwrap (Elem.sub val1 val2)
  val ← unwrap (Elem.add diff offset)
  when (is_zero val) do pc ← get_pc; target ← unwrap (skip_target pc cond); set_pc (binary target)
  set_col KnownWitnessCol.tmp1_col val1
  set_col KnownWitnessCol.tmp2_col val2
  set_zero_test val
  pure none

unfoldable pub exec_branch_if_diff_greater_than : List Elem → M (Option Elem)
unfolding arg arg_u arg_bin read_linked write_linked set_col set_x_bytes
exec_branch_if_diff_greater_than args = do
  read_reg1 ← arg_u args 0
  read_reg2 ← arg_u args 1
  val1 ← read_linked Instruction.branch_if_diff_greater_than 0 0 read_reg1
  val2 ← read_linked Instruction.branch_if_diff_greater_than 1 1 read_reg2
  offset ← arg args 2
  diff ← unwrap (Elem.sub val1 val2)
  val ← unwrap (Elem.sub diff offset)
  label ← arg args 3
  b ← unwrap (bin val)
  when (ltb_ℤ (pos 0) b) (set_pc label)
  set_col KnownWitnessCol.tmp1_col val1
  set_col KnownWitnessCol.tmp2_col val2
  set_col KnownWitnessCol.instr_branch_if_diff_greater_than_param_l label
  set_range_bytes val
  set_col KnownWitnessCol.wrap_bit (from_bool_as_fe (ltb_ℤ (pos 0) b))
  pure none
