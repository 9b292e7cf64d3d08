-- ===== src/Executor/Instr/Extend.antt =====
-- riscv-executor/src/lib.rs, `exec_instruction`: sign extension and the signed reading of a word.
use powdr.Prelude.{ℕ, ◌^◌, ◌%◌, bit_and, bit_or, Bool, not, ◌==◌, List, Option, none, if◌then◌else◌}
use powdr.Prelude.Int.{pos, ltb_ℤ, as_u32, as_i32, as_i8}
use powdr.Executor.Elem.{
  Elem, binary, u, as_i64_from_lower_bytes, decompose_lower32, from_u32_as_fe, from_i32_as_fe,
  from_bool_as_fe,
}
use powdr.Executor.Names.{Instruction, KnownWitnessCol}
use powdr.Executor.State.{M, pure, ◌>>=◌, ◌>>◌, unwrap}
use powdr.Executor.Proc.{set_col}
use powdr.Executor.Instr.{arg, arg_u, arg_bin, read_linked, write_linked, set_x_bytes}

-- `(val.u() as u8) as i8 as i32 as u32`
unfoldable pub extend_byte : ℕ → ℕ
extend_byte n = as_u32 (as_i8 (n % 2 ^ 8))

unfoldable pub exec_sign_extend_byte : List Elem → M (Option Elem)
unfolding arg arg_u arg_bin read_linked write_linked set_col set_x_bytes
exec_sign_extend_byte args = do
  read_reg ← arg_u args 0
  val ← read_linked Instruction.sign_extend_byte 0 0 read_reg
  write_reg ← arg_u args 1
  n ← unwrap (u val)
  let extended_val = extend_byte n
  write_linked Instruction.sign_extend_byte 1 3 write_reg (binary (pos extended_val))
  set_col KnownWitnessCol.tmp1_col val
  set_col KnownWitnessCol.tmp3_col (from_u32_as_fe extended_val)
  let b = decompose_lower32 (as_i64_from_lower_bytes val)
  set_col KnownWitnessCol.y_7bit (from_u32_as_fe (bit_and b.b1 0x7f))
  set_col KnownWitnessCol.x_b2 (from_u32_as_fe b.b2)
  set_col KnownWitnessCol.x_b3 (from_u32_as_fe b.b3)
  set_col KnownWitnessCol.x_b4 (from_u32_as_fe b.b4)
  set_col KnownWitnessCol.wrap_bit (from_bool_as_fe (ltb_ℤ (as_i8 (n % 2 ^ 8)) (pos 0)))
  pure none

unfoldable pub sign_bit_16 : ℕ → Bool
sign_bit_16 n = not (bit_and n 0x8000 == 0)

unfoldable pub extend_16 : ℕ → ℕ
unfolding sign_bit_16
extend_16 n = if sign_bit_16 n then bit_or n 0xffff0000 else bit_and n 0x0000ffff

unfoldable pub exec_sign_extend_16_bits : List Elem → M (Option Elem)
unfolding arg arg_u arg_bin read_linked write_linked set_col set_x_bytes
exec_sign_extend_16_bits args = do
  read_reg ← arg_u args 0
  val ← read_linked Instruction.sign_extend_16_bits 0 0 read_reg
  write_reg ← arg_u args 1
  n ← unwrap (u val)
  let extended_val = extend_16 n
  write_linked Instruction.sign_extend_16_bits 1 3 write_reg (binary (pos extended_val))
  set_col KnownWitnessCol.tmp1_col val
  set_col KnownWitnessCol.tmp3_col (from_u32_as_fe extended_val)
  let b = decompose_lower32 (as_i64_from_lower_bytes val)
  set_col KnownWitnessCol.x_b1 (from_u32_as_fe b.b1)
  set_col KnownWitnessCol.x_b3 (from_u32_as_fe b.b3)
  set_col KnownWitnessCol.x_b4 (from_u32_as_fe b.b4)
  set_col KnownWitnessCol.y_7bit (from_u32_as_fe (bit_and b.b2 0x7f))
  set_col KnownWitnessCol.y_15bit (from_u32_as_fe (bit_and n 0x7fff))
  set_col KnownWitnessCol.wrap_bit (from_bool_as_fe (sign_bit_16 n))
  pure none

unfoldable pub exec_to_signed : List Elem → M (Option Elem)
unfolding arg arg_u arg_bin read_linked write_linked set_col set_x_bytes
exec_to_signed args = do
  read_reg ← arg_u args 0
  val ← read_linked Instruction.to_signed 0 0 read_reg
  write_reg ← arg_u args 1
  n ← unwrap (u val)
  let r = as_i32 n
  write_linked Instruction.to_signed 1 1 write_reg (binary r)
  set_col KnownWitnessCol.tmp1_col val
  set_col KnownWitnessCol.tmp3_col (from_i32_as_fe r)
  let b = decompose_lower32 (pos n)
  set_col KnownWitnessCol.x_b1 (from_u32_as_fe b.b1)
  set_col KnownWitnessCol.x_b2 (from_u32_as_fe b.b2)
  set_col KnownWitnessCol.x_b3 (from_u32_as_fe b.b3)
  set_col KnownWitnessCol.wrap_bit (from_bool_as_fe (not (bit_and b.b4 0x80 == 0)))
  set_col KnownWitnessCol.y_7bit (from_u32_as_fe (bit_and b.b4 0x7f))
  pure none
