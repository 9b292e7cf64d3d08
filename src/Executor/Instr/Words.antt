-- ===== src/Executor/Instr/Words.antt =====
-- riscv-executor/src/lib.rs, `exec_instruction`: addition and subtraction with wrap-around, and the
-- multiplication by a power of two.
use powdr.Prelude.{◌*◌, ◌^◌, not, List, Option, none}
use powdr.Prelude.Int.{pos, ltb_ℤ, as_u32, asr, ◌+ℤ◌, ◌*ℤ◌}
use powdr.Executor.Elem.{
  Elem, binary, field, bin, u, s, into_fe, is_zero, as_i64_from_lower_bytes, decompose_lower32,
  from_u32_as_fe, from_i32_as_fe, from_bool_as_fe,
}
use powdr.Executor.Elem
use powdr.Executor.Names.{Instruction, KnownWitnessCol}
use powdr.Executor.State.{M, pure, ◌>>=◌, ◌>>◌, unwrap, assert}
use powdr.Executor.Proc.{set_col}
use powdr.Executor.Instr.{arg, arg_u, arg_bin, read_linked, write_linked, set_x_bytes, i64}

unfoldable pub exec_add_wrap : List Elem → M (Option Elem)
unfolding arg arg_u arg_bin read_linked write_linked set_col set_x_bytes
exec_add_wrap args = do
  read_reg1 ← arg_u args 0
  read_reg2 ← arg_u args 1
  val1 ← read_linked Instruction.add_wrap 0 0 read_reg1
  val2 ← read_linked Instruction.add_wrap 1 1 read_reg2
  set_col KnownWitnessCol.tmp1_col val1
  set_col KnownWitnessCol.tmp2_col val2
  offset ← arg args 2
  write_reg ← arg_u args 3
  sum ← unwrap (Elem.add val1 val2)
  val ← unwrap (Elem.add sum offset)
  b ← unwrap (bin val)
  assert (ltb_ℤ b (pos (2 * 2 ^ 33)))
  assert (not (ltb_ℤ b (pos 0)))
  let r = as_u32 b
  write_linked Instruction.add_wrap 2 2 write_reg (binary (pos r))
  set_col KnownWitnessCol.tmp3_col (from_u32_as_fe r)
  let v = as_i64_from_lower_bytes val
  set_x_bytes (decompose_lower32 v)
  set_col KnownWitnessCol.wrap_bit (from_bool_as_fe (ltb_ℤ (pos 0xffffffff) v))
  pure none

unfoldable pub exec_wrap16 : List Elem → M (Option Elem)
unfolding arg arg_u arg_bin read_linked write_linked set_col set_x_bytes
exec_wrap16 args = do
  read_reg ← arg_u args 0
  val ← read_linked Instruction.wrap16 0 0 read_reg
  factor ← arg_bin args 1
  write_reg ← arg_u args 2
  b ← unwrap (bin val)
  val_offset ← i64 (b *ℤ factor)
  let r = as_u32 val_offset
  write_linked Instruction.wrap16 1 3 write_reg (binary (pos r))
  set_col KnownWitnessCol.tmp1_col val
  let tmp3_val = from_u32_as_fe r
  set_col KnownWitnessCol.tmp3_col tmp3_val
  set_x_bytes (decompose_lower32 (as_i64_from_lower_bytes tmp3_val))
  let high = decompose_lower32 (asr val_offset 32)
  set_col KnownWitnessCol.y_b5 (from_u32_as_fe high.b1)
  set_col KnownWitnessCol.y_b6 (from_u32_as_fe high.b2)
  pure none

unfoldable pub exec_sub_wrap_with_offset : List Elem → M (Option Elem)
unfolding arg arg_u arg_bin read_linked write_linked set_col set_x_bytes
exec_sub_wrap_with_offset args = do
  read_reg1 ← arg_u args 0
  read_reg2 ← arg_u args 1
  val1 ← read_linked Instruction.sub_wrap_with_offset 0 0 read_reg1
  val2 ← read_linked Instruction.sub_wrap_with_offset 1 1 read_reg2
  offset ← arg args 2
  write_reg ← arg_u args 3
  diff ← unwrap (Elem.sub val1 val2)
  val ← unwrap (Elem.add diff offset)
  b ← unwrap (bin val)
  r_i64 ← i64 (b +ℤ pos 0x100000000)
  let r = as_u32 r_i64
  write_linked Instruction.sub_wrap_with_offset 2 2 write_reg (binary (pos r))
  set_col KnownWitnessCol.tmp1_col val1
  set_col KnownWitnessCol.tmp2_col val2
  set_col KnownWitnessCol.tmp3_col (from_u32_as_fe r)
  set_x_bytes (decompose_lower32 r_i64)
  set_col KnownWitnessCol.wrap_bit (from_bool_as_fe (ltb_ℤ (pos 0xffffffff) r_i64))
  pure none
