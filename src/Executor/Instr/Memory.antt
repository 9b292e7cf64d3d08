-- ===== src/Executor/Instr/Memory.antt =====
-- riscv-executor/src/lib.rs, `exec_instruction`: memory, bootloader inputs and labels.
use powdr.Prelude.{◌+◌, ◌^◌, ◌%◌, ◌/◌, bit_and, not, ◌==◌, List, Option, none, get_elem?}
use powdr.Prelude.Int.{ℤ, pos, ltb_ℤ, as_u32, as_u64, rem_ℤ, ◌+ℤ◌, ◌-ℤ◌, ◌*ℤ◌}
use powdr.Executor.Elem.{
  Elem, binary, field, bin, u, s, into_fe, is_zero, as_i64_from_lower_bytes, decompose_lower32,
  from_u32_as_fe, from_i32_as_fe, from_bool_as_fe, same_elem,
}
use powdr.Executor.Elem
use powdr.Executor.Names.{Instruction, KnownWitnessCol, MachineInstance}
use powdr.Executor.State.{M, pure, ◌>>=◌, ◌>>◌, unwrap, assert, get_state}
use powdr.Executor.Proc.{set_col, instr_link_id, set_mem, get_mem}
use powdr.Executor.Instr.{arg, arg_u, arg_bin, read_linked, write_linked, set_x_bytes, i64}

unfoldable pub exec_mstore : Instruction → List Elem → M (Option Elem)
unfolding arg arg_u arg_bin read_linked write_linked set_col set_x_bytes
exec_mstore instr args = do
  read_reg1 ← arg_u args 0
  read_reg2 ← arg_u args 1
  addr1 ← read_linked instr 0 0 read_reg1
  addr2 ← read_linked instr 1 1 read_reg2
  offset ← arg_bin args 2
  read_reg3 ← arg_u args 3
  value ← read_linked instr 2 2 read_reg3
  a1 ← unwrap (bin addr1)
  a2 ← unwrap (bin addr2)
  diff ← i64 (a1 -ℤ a2)
  addr ← i64 (diff +ℤ offset)
  assert (not (ltb_ℤ addr (pos 0)))
  assert (as_u32 (rem_ℤ addr 4) == 0)
  set_col KnownWitnessCol.wrap_bit (from_bool_as_fe (ltb_ℤ (pos 0xffffffff) addr))
  let addr_word = as_u32 addr
  lid ← instr_link_id instr MachineInstance.memory_machine 0
  val ← unwrap (u value)
  st ← get_state
  set_mem addr_word val (st.step + 3) lid
  set_col KnownWitnessCol.tmp1_col addr1
  set_col KnownWitnessCol.tmp2_col addr2
  set_col KnownWitnessCol.tmp3_col value
  set_x_bytes (decompose_lower32 (pos addr_word))
  pure none

unfoldable pub exec_mload : List Elem → M (Option Elem)
unfolding arg arg_u arg_bin read_linked write_linked set_col set_x_bytes
exec_mload args = do
  read_reg ← arg_u args 0
  addr1 ← read_linked Instruction.mload 0 0 read_reg
  offset ← arg_bin args 1
  write_addr1 ← arg_u args 2
  write_addr2 ← arg_u args 3
  a1 ← unwrap (bin addr1)
  addr ← i64 (a1 +ℤ offset)
  lid ← instr_link_id Instruction.mload MachineInstance.memory_machine 0
  st ← get_state
  val ← get_mem (bit_and (as_u32 addr) 0xfffffffc) (st.step + 1) lid
  let rem = rem_ℤ addr 4
  write_linked Instruction.mload 1 2 write_addr1 (binary (pos val))
  write_linked Instruction.mload 2 3 write_addr2 (binary rem)
  set_col KnownWitnessCol.tmp1_col addr1
  set_col KnownWitnessCol.tmp3_col (from_u32_as_fe val)
  set_col KnownWitnessCol.tmp4_col (from_u32_as_fe (as_u32 rem))
  offset_elem ← arg args 1
  sum ← unwrap (Elem.add addr1 offset_elem)
  let v = as_i64_from_lower_bytes sum
  let b = decompose_lower32 v
  set_col KnownWitnessCol.x_b1 (from_u32_as_fe (b.b1 / 4))
  set_col KnownWitnessCol.x_b2 (from_u32_as_fe b.b2)
  set_col KnownWitnessCol.x_b3 (from_u32_as_fe b.b3)
  set_col KnownWitnessCol.x_b4 (from_u32_as_fe b.b4)
  set_col KnownWitnessCol.wrap_bit (from_u32_as_fe (as_u64 v / 2 ^ 32 % 2))
  pure none

-- `self.bootloader_inputs[x as usize]`: a negative index is past the end of any vector.
unfoldable pub bootloader_input : ℤ → M Elem
bootloader_input x = do st ← get_state; unwrap (get_elem? st.core.env.bootloader_inputs (as_u64 x))

unfoldable pub exec_load_bootloader_input : List Elem → M (Option Elem)
unfolding arg arg_u arg_bin read_linked write_linked set_col set_x_bytes
exec_load_bootloader_input args = do
  reg ← arg_u args 0
  addr ← read_linked Instruction.load_bootloader_input 0 0 reg
  write_addr ← arg_u args 1
  factor ← arg_bin args 2
  offset ← arg_bin args 3
  a ← unwrap (bin addr)
  scaled ← i64 (a *ℤ factor)
  index ← i64 (scaled +ℤ offset)
  val ← bootloader_input index
  write_linked Instruction.load_bootloader_input 1 2 write_addr val
  pure none

unfoldable pub exec_assert_bootloader_input : List Elem → M (Option Elem)
unfolding arg arg_u arg_bin read_linked write_linked set_col set_x_bytes
exec_assert_bootloader_input args = do
  reg1 ← arg_u args 0
  addr ← read_linked Instruction.assert_bootloader_input 0 0 reg1
  reg2 ← arg_u args 1
  val ← read_linked Instruction.assert_bootloader_input 1 1 reg2
  factor ← arg_bin args 2
  offset ← arg_bin args 3
  a ← unwrap (bin addr)
  scaled ← i64 (a *ℤ factor)
  index ← i64 (scaled +ℤ offset)
  actual_val ← bootloader_input index
  assert (same_elem val actual_val)
  pure none

unfoldable pub exec_load_label : List Elem → M (Option Elem)
unfolding arg arg_u arg_bin read_linked write_linked set_col set_x_bytes
exec_load_label args = do
  write_reg ← arg_u args 0
  label ← arg args 1
  write_linked Instruction.load_label 0 0 write_reg label
  set_col KnownWitnessCol.tmp1_col label
  set_col KnownWitnessCol.instr_load_label_param_l label
  pure none
