-- ===== src/Executor/Dispatch.antt =====
-- riscv-executor/src/lib.rs, `Executor::exec_instruction`.
--
-- The arguments are the values of the instruction's argument expressions. The arms that run a hash
-- permutation or 256-bit arithmetic are the parameter `precompile`.
use powdr.Prelude.{List, Option, none}
use powdr.Executor.Elem.{Elem}
use powdr.Executor.Names.{Instruction, KnownWitnessCol, KnownFixedCol}
use powdr.Executor.State.{M, ◌>>=◌, ◌>>◌, when, get_state}
use powdr.Executor.Proc.{set_col, get_fixed, backup_reg_mem, col_is_defined}
use powdr.Executor.Instr.Words.{exec_add_wrap, exec_wrap16, exec_sub_wrap_with_offset}
use powdr.Executor.Instr.Arith.{exec_set_reg, exec_get_reg, exec_affine, exec_divremu, exec_mul}
use powdr.Executor.Instr.Extend.{exec_sign_extend_byte, exec_sign_extend_16_bits, exec_to_signed}
use powdr.Executor.Instr.Bitwise.{exec_binary, exec_shift, and_op, or_op, xor_op, shl_op, shr_op}
use powdr.Executor.Instr.Memory.{
  exec_mstore, exec_mload, exec_load_bootloader_input, exec_assert_bootloader_input,
  exec_load_label,
}
use powdr.Executor.Instr.Compare.{exec_is_diff_greater_than, exec_is_equal_zero, exec_is_not_equal}
use powdr.Executor.Instr.Jump.{
  exec_jump, exec_jump_dyn, exec_jump_to_bootloader_input, exec_branch_if_diff_nonzero,
  exec_branch_if_diff_equal, exec_skip_if_equal, exec_branch_if_diff_greater_than,
}
use powdr.Executor.Instr.Field.{exec_invert_gl, exec_split_gl, exec_commit_public}

-- `if self.proc.col_is_defined("main::X_const") { set_col!(X, get_fixed!(X_const)); }`
unfoldable pub copy_const : KnownFixedCol → KnownWitnessCol → M (Unit {0})
unfolding set_col get_fixed col_is_defined
copy_const fixed col = do
  st ← get_state
  when (col_is_defined st.core.env fixed) do v ← get_fixed fixed; set_col col v

unfoldable pub prepare : M (Unit {0})
prepare = do
  backup_reg_mem
  copy_const KnownFixedCol.x_const KnownWitnessCol.x
  copy_const KnownFixedCol.y_const KnownWitnessCol.y
  copy_const KnownFixedCol.z_const KnownWitnessCol.z
  copy_const KnownFixedCol.w_const KnownWitnessCol.w

abbrev pub Arm : Type 0
Arm = List Elem → M (Option Elem)

-- `panic!("reached a fail instruction")`
abbrev panic : Arm
panic args st = none

unfoldable pub arm_of : (Instruction → Arm) → Instruction → Arm
arm_of precompile Instruction.set_reg = exec_set_reg
arm_of precompile Instruction.get_reg = exec_get_reg
arm_of precompile Instruction.affine = exec_affine
arm_of precompile Instruction.mstore = exec_mstore Instruction.mstore
arm_of precompile Instruction.mstore_bootloader = exec_mstore Instruction.mstore_bootloader
arm_of precompile Instruction.mload = exec_mload
arm_of precompile Instruction.load_bootloader_input = exec_load_bootloader_input
arm_of precompile Instruction.assert_bootloader_input = exec_assert_bootloader_input
arm_of precompile Instruction.load_label = exec_load_label
arm_of precompile Instruction.jump = exec_jump
arm_of precompile Instruction.jump_dyn = exec_jump_dyn
arm_of precompile Instruction.jump_to_bootloader_input = exec_jump_to_bootloader_input
arm_of precompile Instruction.branch_if_diff_nonzero = exec_branch_if_diff_nonzero
arm_of precompile Instruction.branch_if_diff_equal = exec_branch_if_diff_equal
arm_of precompile Instruction.skip_if_equal = exec_skip_if_equal
arm_of precompile Instruction.branch_if_diff_greater_than = exec_branch_if_diff_greater_than
arm_of precompile Instruction.is_diff_greater_than = exec_is_diff_greater_than
arm_of precompile Instruction.is_equal_zero = exec_is_equal_zero
arm_of precompile Instruction.is_not_equal = exec_is_not_equal
arm_of precompile Instruction.add_wrap = exec_add_wrap
arm_of precompile Instruction.wrap16 = exec_wrap16
arm_of precompile Instruction.sub_wrap_with_offset = exec_sub_wrap_with_offset
arm_of precompile Instruction.sign_extend_byte = exec_sign_extend_byte
arm_of precompile Instruction.sign_extend_16_bits = exec_sign_extend_16_bits
arm_of precompile Instruction.to_signed = exec_to_signed
arm_of precompile Instruction.fail = panic
arm_of precompile Instruction.divremu = exec_divremu
arm_of precompile Instruction.mul = exec_mul
arm_of precompile Instruction.and_ = exec_binary and_op
arm_of precompile Instruction.or_ = exec_binary or_op
arm_of precompile Instruction.xor = exec_binary xor_op
arm_of precompile Instruction.shl = exec_shift shl_op
arm_of precompile Instruction.shr = exec_shift shr_op
arm_of precompile Instruction.invert_gl = exec_invert_gl
arm_of precompile Instruction.split_gl = exec_split_gl
arm_of precompile Instruction.commit_public = exec_commit_public
arm_of precompile instr = precompile instr

unfoldable pub exec_instruction : (Instruction → Arm) → Instruction → Arm
exec_instruction precompile instr args = prepare >> arm_of precompile instr args
