-- ===== src/Executor/Instr/Arith.antt =====
-- riscv-executor/src/lib.rs, `exec_instruction`: register moves, the affine map, division and the
-- 64-bit product.
use powdr.Goldilocks
use powdr.Prelude.{
  ℕ, ◌-◌, ◌*◌, ◌^◌, ◌%◌, ◌/◌, not, ◌==◌, List, [], ◌∷◌, Option, none, some, ltb, if◌then◌else◌,
}
use powdr.Prelude.Int.{pos}
use powdr.Executor.Elem.{
  Elem, binary, field, bin, u, s, into_fe, is_zero, as_i64_from_lower_bytes, decompose_lower32,
  from_u32_as_fe, from_i32_as_fe, from_bool_as_fe,
}
use powdr.Executor.Elem
use powdr.Executor.Names.{Instruction, KnownWitnessCol, MachineInstance, KnownFixedCol}
use powdr.Executor.State.{M, pure, ◌>>=◌, ◌>>◌, unwrap, when}
use powdr.Executor.Proc.{set_col, submachine_op, instr_link_id, get_fixed}
use powdr.Executor.Instr.{
  arg, arg_u, arg_bin, read_linked, write_linked, set_x_bytes, set_zero_test,
}

unfoldable pub exec_set_reg : List Elem → M (Option Elem)
unfolding arg arg_u arg_bin read_linked write_linked set_col set_x_bytes
exec_set_reg args = do
  addr ← arg_u args 0
  val ← arg args 1
  write_linked Instruction.set_reg 0 0 addr val
  set_col KnownWitnessCol.y val
  read_free ← get_fixed KnownFixedCol.y_read_free
  when (not (is_zero read_free)) (set_col KnownWitnessCol.y_free_value val)
  pure none

unfoldable pub exec_get_reg : List Elem → M (Option Elem)
unfolding arg arg_u arg_bin read_linked write_linked set_col set_x_bytes
exec_get_reg args = do
  set_col KnownWitnessCol.instr_get_reg (binary (pos 1))
  addr ← arg_u args 0
  val ← read_linked Instruction.get_reg 0 0 addr
  pure (some val)

unfoldable pub exec_affine : List Elem → M (Option Elem)
unfolding arg arg_u arg_bin read_linked write_linked set_col set_x_bytes
exec_affine args = do
  read_reg ← arg_u args 0
  val1 ← read_linked Instruction.affine 0 0 read_reg
  write_reg ← arg_u args 1
  factor ← arg args 2
  offset ← arg args 3
  res ← unwrap (Elem.add (Elem.mul val1 factor) offset)
  write_linked Instruction.affine 1 1 write_reg res
  set_col KnownWitnessCol.tmp1_col val1
  pure none

-- The quotient and the remainder of unsigned words, with RISC-V's results for a zero divisor.
unfoldable pub div_word : ℕ → ℕ → ℕ
div_word y x = if not (x == 0) then y / x else 0xffffffff

unfoldable pub rem_word : ℕ → ℕ → ℕ
rem_word y x = if not (x == 0) then y % x else y

unfoldable pub exec_divremu : List Elem → M (Option Elem)
unfolding arg arg_u arg_bin read_linked write_linked set_col set_x_bytes
exec_divremu args = do
  read_reg1 ← arg_u args 0
  read_reg2 ← arg_u args 1
  val1 ← read_linked Instruction.divremu 0 0 read_reg1
  val2 ← read_linked Instruction.divremu 1 1 read_reg2
  write_reg1 ← arg_u args 2
  write_reg2 ← arg_u args 3
  y ← unwrap (u val1)
  x ← unwrap (u val2)
  let div = div_word y x
  let rem = rem_word y x
  write_linked Instruction.divremu 2 2 write_reg1 (binary (pos div))
  write_linked Instruction.divremu 3 3 write_reg2 (binary (pos rem))
  set_col KnownWitnessCol.tmp1_col val1
  set_col KnownWitnessCol.tmp2_col val2
  set_col KnownWitnessCol.tmp3_col (from_u32_as_fe div)
  set_col KnownWitnessCol.tmp4_col (from_u32_as_fe rem)
  set_zero_test val2
  set_x_bytes (decompose_lower32 (as_i64_from_lower_bytes (from_u32_as_fe div)))
  let rem_bytes = decompose_lower32 (pos rem)
  set_col KnownWitnessCol.rem_b1 (from_u32_as_fe rem_bytes.b1)
  set_col KnownWitnessCol.rem_b2 (from_u32_as_fe rem_bytes.b2)
  set_col KnownWitnessCol.rem_b3 (from_u32_as_fe rem_bytes.b3)
  set_col KnownWitnessCol.rem_b4 (from_u32_as_fe rem_bytes.b4)
  when (ltb 0 x) do
    let diff = decompose_lower32 (pos (x - rem - 1))
    set_col KnownWitnessCol.y_b5 (from_u32_as_fe diff.b1)
    set_col KnownWitnessCol.y_b6 (from_u32_as_fe diff.b2)
    set_col KnownWitnessCol.y_b7 (from_u32_as_fe diff.b3)
    set_col KnownWitnessCol.y_b8 (from_u32_as_fe diff.b4)
  pure none

unfoldable pub exec_mul : List Elem → M (Option Elem)
unfolding arg arg_u arg_bin read_linked write_linked set_col set_x_bytes
exec_mul args = do
  read_reg1 ← arg_u args 0
  read_reg2 ← arg_u args 1
  val1 ← read_linked Instruction.mul 0 0 read_reg1
  val2 ← read_linked Instruction.mul 1 1 read_reg2
  write_reg1 ← arg_u args 2
  write_reg2 ← arg_u args 3
  x ← unwrap (u val1)
  y ← unwrap (u val2)
  let r = x * y
  let lo = r % 2 ^ 32
  let hi = r / 2 ^ 32 % 2 ^ 32
  write_linked Instruction.mul 2 2 write_reg1 (binary (pos lo))
  write_linked Instruction.mul 3 3 write_reg2 (binary (pos hi))
  set_col KnownWitnessCol.tmp1_col val1
  set_col KnownWitnessCol.tmp2_col val2
  set_col KnownWitnessCol.tmp3_col (from_u32_as_fe lo)
  set_col KnownWitnessCol.tmp4_col (from_u32_as_fe hi)
  lid ← instr_link_id Instruction.mul MachineInstance.split_gl 0
  submachine_op MachineInstance.split_gl lid (Goldilocks.from_u64 r ∷ lo ∷ hi ∷ 0 ∷ []) []
  pure none
