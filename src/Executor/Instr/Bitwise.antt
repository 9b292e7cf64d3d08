-- ===== src/Executor/Instr/Bitwise.antt =====
-- riscv-executor/src/lib.rs, `exec_instruction`: the binary and the shift machine.
use powdr.Prelude.{
  ℕ, ◌*◌, ◌^◌, ◌%◌, ◌/◌, bit_and, bit_or, bit_xor, List, [], ◌∷◌, Option, none, some, ltb,
  if◌then◌else◌,
}
use powdr.Prelude.Int.{pos, ◌+ℤ◌}
use powdr.Executor.Elem.{Elem, binary, bin, u, into_fe, from_u32_as_fe}
use powdr.Executor.Names.{Instruction, KnownWitnessCol, MachineInstance}
use powdr.Executor.State.{M, pure, ◌>>=◌, ◌>>◌, unwrap}
use powdr.Executor.Proc.{set_col, submachine_op, instr_link_id}
use powdr.Executor.Instr.{arg, arg_u, arg_bin, read_linked, write_linked, set_x_bytes, i64}

pub data BinaryOp : Type 0 where
  and_op or_op xor_op : BinaryOp

unfoldable pub binary_result : BinaryOp → ℕ → ℕ → ℕ
binary_result and_op x y = bit_and x y
binary_result or_op x y = bit_or x y
binary_result xor_op x y = bit_xor x y

abbrev binary_id : BinaryOp → ℕ
binary_id and_op = 0
binary_id or_op = 1
binary_id xor_op = 2

abbrev binary_instr : BinaryOp → Instruction
binary_instr and_op = Instruction.and_
binary_instr or_op = Instruction.or_
binary_instr xor_op = Instruction.xor

unfoldable pub exec_binary : BinaryOp → List Elem → M (Option Elem)
unfolding arg arg_u arg_bin read_linked write_linked set_col set_x_bytes
exec_binary op args = do
  let instr = binary_instr op
  read_reg1 ← arg_u args 0
  read_reg2 ← arg_u args 1
  val1 ← read_linked instr 0 0 read_reg1
  val2 ← read_linked instr 1 1 read_reg2
  offset ← arg_bin args 2
  write_reg ← arg_u args 3
  b2 ← unwrap (bin val2)
  sum ← i64 (b2 +ℤ offset)
  let val2_offset = binary sum
  set_col KnownWitnessCol.tmp1_col val1
  set_col KnownWitnessCol.tmp2_col val2
  x ← unwrap (u val1)
  y ← unwrap (u val2_offset)
  let r = binary_result op x y
  lid ← instr_link_id instr MachineInstance.binary 0
  submachine_op MachineInstance.binary lid
      (binary_id op ∷ into_fe val1 ∷ into_fe val2_offset ∷ r ∷ []) []
  write_linked instr 2 3 write_reg (binary (pos r))
  set_col KnownWitnessCol.tmp3_col (from_u32_as_fe r)
  pure none

pub data ShiftOp : Type 0 where
  shl_op shr_op : ShiftOp

-- A shift by 32 bits or more panics; `<<` drops the bits above the word.
unfoldable pub shift_result : ShiftOp → ℕ → ℕ → Option ℕ
shift_result shl_op x k = if ltb k 32 then some (x * 2 ^ k % 2 ^ 32) else none
shift_result shr_op x k = if ltb k 32 then some (x / 2 ^ k) else none

abbrev shift_id : ShiftOp → ℕ
shift_id shl_op = 0
shift_id shr_op = 1

abbrev shift_instr : ShiftOp → Instruction
shift_instr shl_op = Instruction.shl
shift_instr shr_op = Instruction.shr

unfoldable pub exec_shift : ShiftOp → List Elem → M (Option Elem)
unfolding arg arg_u arg_bin read_linked write_linked set_col set_x_bytes
exec_shift op args = do
  let instr = shift_instr op
  read_reg1 ← arg_u args 0
  read_reg2 ← arg_u args 1
  val1 ← read_linked instr 0 0 read_reg1
  val2 ← read_linked instr 1 1 read_reg2
  offset ← arg_bin args 2
  write_reg ← arg_u args 3
  b2 ← unwrap (bin val2)
  sum ← i64 (b2 +ℤ offset)
  let val2_offset = binary sum
  x ← unwrap (u val1)
  y ← unwrap (u val2_offset)
  r ← unwrap (shift_result op x y)
  lid ← instr_link_id instr MachineInstance.shift 0
  submachine_op MachineInstance.shift lid
      (shift_id op ∷ into_fe val1 ∷ into_fe val2_offset ∷ r ∷ []) []
  write_linked instr 2 3 write_reg (binary (pos r))
  set_col KnownWitnessCol.tmp1_col val1
  set_col KnownWitnessCol.tmp2_col val2
  set_col KnownWitnessCol.tmp3_col (from_u32_as_fe r)
  pure none
