-- ===== src/Executor/Instr/Compare.antt =====
-- riscv-executor/src/lib.rs, `exec_instruction`: the comparisons that write a flag.
use powdr.Prelude.{ℕ, Bool, true, false, not, List, Option, none}
use powdr.Prelude.Int.{pos, ltb_ℤ, ◌-ℤ◌}
use powdr.Executor.Elem.{
  Elem, binary, field, bin, u, s, into_fe, is_zero, as_i64_from_lower_bytes, decompose_lower32,
  from_u32_as_fe, from_i32_as_fe, from_bool_as_fe,
}
use powdr.Executor.Elem
use powdr.Executor.Names.{Instruction, KnownWitnessCol}
use powdr.Executor.State.{M, pure, ◌>>=◌, ◌>>◌, unwrap}
use powdr.Executor.Proc.{set_col}
use powdr.Executor.Instr.{
  arg, arg_u, arg_bin, read_linked, write_linked, set_x_bytes, set_zero_test, i64,
}

abbrev pub flag : Bool → ℕ
flag true = 1
flag false = 0

-- The columns of the range check of `val` > 0: the bytes of val + 2^32 - 1, added in the field.
unfoldable pub set_range_bytes : Elem → M (Unit {0})
unfolding set_x_bytes
set_range_bytes val = do
  val_p ← unwrap (Elem.add val (from_u32_as_fe 0xffffffff))
  set_x_bytes (decompose_lower32 (as_i64_from_lower_bytes val_p))

unfoldable pub exec_is_diff_greater_than : List Elem → M (Option Elem)
unfolding arg arg_u arg_bin read_linked write_linked set_col set_x_bytes
exec_is_diff_greater_than args = do
  read_reg1 ← arg_u args 0
  read_reg2 ← arg_u args 1
  val1 ← read_linked Instruction.is_diff_greater_than 0 0 read_reg1
  val2 ← read_linked Instruction.is_diff_greater_than 1 1 read_reg2
  offset ← arg args 2
  write_reg ← arg_u args 3
  diff ← unwrap (Elem.sub val1 val2)
  val ← unwrap (Elem.sub diff offset)
  b ← unwrap (bin val)
  let r = flag (ltb_ℤ (pos 0) b)
  write_linked Instruction.is_diff_greater_than 2 2 write_reg (binary (pos r))
  set_col KnownWitnessCol.tmp1_col val1
  set_col KnownWitnessCol.tmp2_col val2
  set_range_bytes val
  set_col KnownWitnessCol.wrap_bit (from_u32_as_fe r)
  pure none

unfoldable pub exec_is_equal_zero : List Elem → M (Option Elem)
unfolding arg arg_u arg_bin read_linked write_linked set_col set_x_bytes
exec_is_equal_zero args = do
  read_reg ← arg_u args 0
  val ← read_linked Instruction.is_equal_zero 0 0 read_reg
  write_reg ← arg_u args 1
  let r = flag (is_zero val)
  write_linked Instruction.is_equal_zero 1 2 write_reg (binary (pos r))
  set_col KnownWitnessCol.tmp1_col val
  set_zero_test val
  pure none

unfoldable pub exec_is_not_equal : List Elem → M (Option Elem)
unfolding arg arg_u arg_bin read_linked write_linked set_col set_x_bytes
exec_is_not_equal args = do
  read_reg1 ← arg_u args 0
  read_reg2 ← arg_u args 1
  val1 ← read_linked Instruction.is_not_equal 0 0 read_reg1
  val2 ← read_linked Instruction.is_not_equal 1 1 read_reg2
  write_reg ← arg_u args 2
  b1 ← unwrap (bin val1)
  b2 ← unwrap (bin val2)
  diff ← i64 (b1 -ℤ b2)
  let val = binary diff
  let r = flag (not (is_zero val))
  write_linked Instruction.is_not_equal 2 2 write_reg (binary (pos r))
  set_col KnownWitnessCol.tmp1_col val1
  set_col KnownWitnessCol.tmp2_col val2
  set_col KnownWitnessCol.tmp3_col (from_u32_as_fe r)
  set_zero_test val
  pure none
