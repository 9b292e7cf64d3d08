-- ===== src/Executor/Instr/Field.antt =====
-- riscv-executor/src/lib.rs, `exec_instruction`: Goldilocks elements in register pairs, and the
-- public values.
use powdr.Goldilocks
use powdr.Prelude.{◌*◌, ◌^◌, ◌%◌, ◌/◌, bit_and, bit_or, List, [], ◌∷◌, Option, none}
use powdr.Prelude.Int.{pos}
use powdr.Executor.Elem.{Elem, binary, field, u, into_fe, from_u32_as_fe}
use powdr.Executor.Names.{Instruction, KnownWitnessCol, MachineInstance}
use powdr.Executor.State.{M, pure, ◌>>=◌, ◌>>◌, unwrap}
use powdr.Executor.Proc.{set_col, submachine_op, instr_link_id}
use powdr.Executor.Instr.{arg, arg_u, arg_bin, read_linked, write_linked, set_x_bytes}

unfoldable pub exec_invert_gl : List Elem → M (Option Elem)
unfolding arg arg_u arg_bin read_linked write_linked set_col set_x_bytes
exec_invert_gl args = do
  low_addr ← arg_u args 0
  high_addr ← arg_u args 1
  low ← read_linked Instruction.invert_gl 0 0 low_addr
  high ← read_linked Instruction.invert_gl 1 1 high_addr
  h ← unwrap (u high)
  l ← unwrap (u low)
  inv ← unwrap (Goldilocks.div 1 (Goldilocks.from_u64 (bit_or (h * 2 ^ 32) l)))
  let low_inv = inv % 2 ^ 32
  let high_inv = inv / 2 ^ 32
  write_linked Instruction.invert_gl 2 2 low_addr (binary (pos low_inv))
  write_linked Instruction.invert_gl 3 3 high_addr (binary (pos high_inv))
  set_col KnownWitnessCol.tmp1_col low
  set_col KnownWitnessCol.tmp2_col high
  set_col KnownWitnessCol.tmp3_col (from_u32_as_fe low_inv)
  set_col KnownWitnessCol.tmp4_col (from_u32_as_fe high_inv)
  set_col KnownWitnessCol.xx_inv (field inv)
  lid ← instr_link_id Instruction.invert_gl MachineInstance.split_gl 0
  submachine_op MachineInstance.split_gl lid (inv ∷ low_inv ∷ high_inv ∷ 0 ∷ []) []
  pure none

unfoldable pub exec_split_gl : List Elem → M (Option Elem)
unfolding arg arg_u arg_bin read_linked write_linked set_col set_x_bytes
exec_split_gl args = do
  read_reg ← arg_u args 0
  val1 ← read_linked Instruction.split_gl 0 0 read_reg
  write_reg1 ← arg_u args 1
  write_reg2 ← arg_u args 2
  let value = into_fe val1
  let lo = bit_and value 0xffffffff
  let hi = value / 2 ^ 32
  write_linked Instruction.split_gl 1 2 write_reg1 (binary (pos lo))
  write_linked Instruction.split_gl 2 3 write_reg2 (binary (pos hi))
  set_col KnownWitnessCol.tmp1_col val1
  set_col KnownWitnessCol.tmp3_col (from_u32_as_fe lo)
  set_col KnownWitnessCol.tmp4_col (from_u32_as_fe hi)
  lid ← instr_link_id Instruction.split_gl MachineInstance.split_gl 0
  submachine_op MachineInstance.split_gl lid (Goldilocks.from_u64 value ∷ lo ∷ hi ∷ 0 ∷ []) []
  pure none

unfoldable pub exec_commit_public : List Elem → M (Option Elem)
unfolding arg arg_u arg_bin read_linked write_linked set_col set_x_bytes
exec_commit_public args = do
  reg1 ← arg_u args 0
  idx ← read_linked Instruction.commit_public 0 0 reg1
  reg2 ← arg_u args 1
  limb ← read_linked Instruction.commit_public 1 0 reg2
  set_col KnownWitnessCol.tmp1_col idx
  set_col KnownWitnessCol.tmp2_col limb
  lid ← instr_link_id Instruction.commit_public MachineInstance.publics 0
  submachine_op MachineInstance.publics lid (into_fe idx ∷ into_fe limb ∷ 0 ∷ 0 ∷ []) []
  pure none
