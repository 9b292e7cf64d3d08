-- ===== src/Executor/Names.antt =====
-- riscv-executor/src/lib.rs: the enumerations that its macros generate, with the index `as usize`
-- of each witness column.
use powdr.Prelude.{ℕ}

-- The instructions of the assembly machine.
pub data Instruction : Type 0 where
  set_reg get_reg affine mstore mstore_bootloader mload load_bootloader_input : Instruction
  assert_bootloader_input load_label jump jump_dyn jump_to_bootloader_input : Instruction
  branch_if_diff_nonzero branch_if_diff_equal skip_if_equal : Instruction
  branch_if_diff_greater_than is_diff_greater_than is_equal_zero is_not_equal : Instruction
  add_wrap wrap16 sub_wrap_with_offset sign_extend_byte sign_extend_16_bits : Instruction
  to_signed divremu mul and_ or_ xor shl shr invert_gl split_gl poseidon_gl : Instruction
  poseidon2_gl affine_256 mod_256 ec_add ec_double commit_public fail keccakf : Instruction

-- The witness columns that the executor writes.
pub data KnownWitnessCol : Type 0 where
  operation_id pc_update x y z w y_free_value x_free_value tmp1_col tmp2_col : KnownWitnessCol
  tmp3_col tmp4_col x_b1 x_b2 x_b3 x_b4 xx xx_is_zero xx_inv y_b5 y_b6 y_b7 : KnownWitnessCol
  y_b8 y_7bit y_15bit rem_b1 rem_b2 rem_b3 rem_b4 wrap_bit : KnownWitnessCol
  instr_load_label_param_l instr_jump_param_l : KnownWitnessCol
  instr_branch_if_diff_nonzero_param_l instr_branch_if_diff_equal_param_l : KnownWitnessCol
  instr_branch_if_diff_greater_than_param_l jump_to_shutdown_routine : KnownWitnessCol
  instr_set_reg instr_get_reg instr_affine instr_mstore instr_mstore_bootloader : KnownWitnessCol
  instr_mload instr_load_bootloader_input instr_assert_bootloader_input : KnownWitnessCol
  instr_load_label instr_jump instr_jump_dyn instr_jump_to_bootloader_input : KnownWitnessCol
  instr_branch_if_diff_nonzero instr_branch_if_diff_equal instr_skip_if_equal : KnownWitnessCol
  instr_branch_if_diff_greater_than instr_is_diff_greater_than : KnownWitnessCol
  instr_is_equal_zero instr_is_not_equal instr_add_wrap instr_wrap16 : KnownWitnessCol
  instr_sub_wrap_with_offset instr_sign_extend_byte instr_sign_extend_16_bits : KnownWitnessCol
  instr_to_signed instr_divremu instr_mul instr_and instr_or instr_xor : KnownWitnessCol
  instr_shl instr_shr instr_invert_gl instr_split_gl instr_poseidon_gl : KnownWitnessCol
  instr_poseidon2_gl instr_affine_256 instr_mod_256 instr_ec_add : KnownWitnessCol
  instr_ec_double instr_commit_public instr_fail : KnownWitnessCol

-- The position of a column in a row of `known_cols`.
unfoldable pub col_index : KnownWitnessCol → ℕ
col_index KnownWitnessCol.operation_id = 0
col_index KnownWitnessCol.pc_update = 1
col_index KnownWitnessCol.x = 2
col_index KnownWitnessCol.y = 3
col_index KnownWitnessCol.z = 4
col_index KnownWitnessCol.w = 5
col_index KnownWitnessCol.y_free_value = 6
col_index KnownWitnessCol.x_free_value = 7
col_index KnownWitnessCol.tmp1_col = 8
col_index KnownWitnessCol.tmp2_col = 9
col_index KnownWitnessCol.tmp3_col = 10
col_index KnownWitnessCol.tmp4_col = 11
col_index KnownWitnessCol.x_b1 = 12
col_index KnownWitnessCol.x_b2 = 13
col_index KnownWitnessCol.x_b3 = 14
col_index KnownWitnessCol.x_b4 = 15
col_index KnownWitnessCol.xx = 16
col_index KnownWitnessCol.xx_is_zero = 17
col_index KnownWitnessCol.xx_inv = 18
col_index KnownWitnessCol.y_b5 = 19
col_index KnownWitnessCol.y_b6 = 20
col_index KnownWitnessCol.y_b7 = 21
col_index KnownWitnessCol.y_b8 = 22
col_index KnownWitnessCol.y_7bit = 23
col_index KnownWitnessCol.y_15bit = 24
col_index KnownWitnessCol.rem_b1 = 25
col_index KnownWitnessCol.rem_b2 = 26
col_index KnownWitnessCol.rem_b3 = 27
col_index KnownWitnessCol.rem_b4 = 28
col_index KnownWitnessCol.wrap_bit = 29
col_index KnownWitnessCol.instr_load_label_param_l = 30
col_index KnownWitnessCol.instr_jump_param_l = 31
col_index KnownWitnessCol.instr_branch_if_diff_nonzero_param_l = 32
col_index KnownWitnessCol.instr_branch_if_diff_equal_param_l = 33
col_index KnownWitnessCol.instr_branch_if_diff_greater_than_param_l = 34
col_index KnownWitnessCol.jump_to_shutdown_routine = 35
col_index KnownWitnessCol.instr_set_reg = 36
col_index KnownWitnessCol.instr_get_reg = 37
col_index KnownWitnessCol.instr_affine = 38
col_index KnownWitnessCol.instr_mstore = 39
col_index KnownWitnessCol.instr_mstore_bootloader = 40
col_index KnownWitnessCol.instr_mload = 41
col_index KnownWitnessCol.instr_load_bootloader_input = 42
col_index KnownWitnessCol.instr_assert_bootloader_input = 43
col_index KnownWitnessCol.instr_load_label = 44
col_index KnownWitnessCol.instr_jump = 45
col_index KnownWitnessCol.instr_jump_dyn = 46
col_index KnownWitnessCol.instr_jump_to_bootloader_input = 47
col_index KnownWitnessCol.instr_branch_if_diff_nonzero = 48
col_index KnownWitnessCol.instr_branch_if_diff_equal = 49
col_index KnownWitnessCol.instr_skip_if_equal = 50
col_index KnownWitnessCol.instr_branch_if_diff_greater_than = 51
col_index KnownWitnessCol.instr_is_diff_greater_than = 52
col_index KnownWitnessCol.instr_is_equal_zero = 53
col_index KnownWitnessCol.instr_is_not_equal = 54
col_index KnownWitnessCol.instr_add_wrap = 55
col_index KnownWitnessCol.instr_wrap16 = 56
col_index KnownWitnessCol.instr_sub_wrap_with_offset = 57
col_index KnownWitnessCol.instr_sign_extend_byte = 58
col_index KnownWitnessCol.instr_sign_extend_16_bits = 59
col_index KnownWitnessCol.instr_to_signed = 60
col_index KnownWitnessCol.instr_divremu = 61
col_index KnownWitnessCol.instr_mul = 62
col_index KnownWitnessCol.instr_and = 63
col_index KnownWitnessCol.instr_or = 64
col_index KnownWitnessCol.instr_xor = 65
col_index KnownWitnessCol.instr_shl = 66
col_index KnownWitnessCol.instr_shr = 67
col_index KnownWitnessCol.instr_invert_gl = 68
col_index KnownWitnessCol.instr_split_gl = 69
col_index KnownWitnessCol.instr_poseidon_gl = 70
col_index KnownWitnessCol.instr_poseidon2_gl = 71
col_index KnownWitnessCol.instr_affine_256 = 72
col_index KnownWitnessCol.instr_mod_256 = 73
col_index KnownWitnessCol.instr_ec_add = 74
col_index KnownWitnessCol.instr_ec_double = 75
col_index KnownWitnessCol.instr_commit_public = 76
col_index KnownWitnessCol.instr_fail = 77

-- The submachines that the executor calls.
pub data MachineInstance : Type 0 where
  memory_machine regs publics binary shift split_gl poseidon_gl : MachineInstance

-- The fixed columns that it reads.
pub data KnownFixedCol : Type 0 where
  x_const y_const z_const w_const y_read_free x_read_free : KnownFixedCol
