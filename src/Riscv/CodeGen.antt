-- ===== src/Riscv/CodeGen.antt =====
-- riscv/src/large_field/code_gen.rs: `process_instruction`, which translates one RISC-V instruction
-- into statements of the assembly machine.
--
-- An inlined system call, the last arm, is not in `RiscvInstr`.
use powdr.Prelude.{
  ℕ, ◌*◌, ◌^◌, ◌%◌, ◌==◌, leb, List, [], ◌∷◌, ◌++◌, Option, none, some, if◌then◌else◌,
}
use powdr.Executor.Names.{Instruction}
use powdr.Executor.Run.{Expression, Statement, number, minus, label, binary_operation, pow}
use powdr.Executor.Run
use powdr.Riscv.Instr.{RiscvInstr, is_zero_register, tmp1, tmp2, lr_sc_reservation}
use powdr.Riscv.Asm.{
  statement, only_if_no_write_to_zero_vec, only_if_no_write_to_zero, stm, push_register,
  pop_register,
}
use powdr.Riscv.Blocks.{
  bge_code, bgez_code, bgtz_code, blez_code, blt_code, mulh_code, mulhsu_code, sgtz_code, sll_code,
  slli_code, slt_code, slti_code, sra_code, srai_code, srl_code,
}
use powdr.Riscv.Access.{lb_code, lbu_code, lh_code, lhu_code, sb_code, sh_code}

-- The label of the system call handler.
module _ (ecall_handler : ℕ) where
  unfoldable pub process_instruction : RiscvInstr → Option (List Statement)
  unfolding only_if_no_write_to_zero_vec only_if_no_write_to_zero push_register pop_register
  process_instruction (RiscvInstr.li_label rd l) =
      some
        (only_if_no_write_to_zero rd (statement Instruction.load_label (number rd ∷ label l ∷ [])))
  process_instruction (RiscvInstr.li rd imm) =
      some (only_if_no_write_to_zero rd (stm Instruction.set_reg (rd ∷ imm ∷ [])))
  process_instruction (RiscvInstr.lui rd imm) =
      some
        (only_if_no_write_to_zero rd (stm Instruction.set_reg (rd ∷ (imm * 2 ^ 12 % 2 ^ 32) ∷ [])))
  process_instruction (RiscvInstr.mv rd rs) =
      some (only_if_no_write_to_zero rd (stm Instruction.affine (rs ∷ rd ∷ 1 ∷ 0 ∷ [])))
  process_instruction (RiscvInstr.add rd r1 r2) =
      some (only_if_no_write_to_zero rd (stm Instruction.add_wrap (r1 ∷ r2 ∷ 0 ∷ rd ∷ [])))
  process_instruction (RiscvInstr.addi rd rs imm) =
      some (only_if_no_write_to_zero rd (stm Instruction.add_wrap (rs ∷ 0 ∷ imm ∷ rd ∷ [])))
  process_instruction (RiscvInstr.sub rd r1 r2) =
      some
        (only_if_no_write_to_zero rd (stm Instruction.sub_wrap_with_offset (r1 ∷ r2 ∷ 0 ∷ rd ∷ [])))
  process_instruction (RiscvInstr.neg rd r1) =
      some
        (only_if_no_write_to_zero rd (stm Instruction.sub_wrap_with_offset (0 ∷ r1 ∷ 0 ∷ rd ∷ [])))
  process_instruction (RiscvInstr.mul rd r1 r2) =
      some (only_if_no_write_to_zero rd (stm Instruction.mul (r1 ∷ r2 ∷ rd ∷ tmp1 ∷ [])))
  process_instruction (RiscvInstr.mulhu rd r1 r2) =
      some (only_if_no_write_to_zero rd (stm Instruction.mul (r1 ∷ r2 ∷ tmp1 ∷ rd ∷ [])))
  process_instruction (RiscvInstr.mulh rd r1 r2) =
      some (only_if_no_write_to_zero_vec rd (mulh_code rd r1 r2))
  process_instruction (RiscvInstr.mulhsu rd r1 r2) =
      some (only_if_no_write_to_zero_vec rd (mulhsu_code rd r1 r2))
  process_instruction (RiscvInstr.divu rd r1 r2) =
      some (only_if_no_write_to_zero rd (stm Instruction.divremu (r1 ∷ r2 ∷ rd ∷ tmp1 ∷ [])))
  process_instruction (RiscvInstr.remu rd r1 r2) =
      some (only_if_no_write_to_zero rd (stm Instruction.divremu (r1 ∷ r2 ∷ tmp1 ∷ rd ∷ [])))
  process_instruction (RiscvInstr.xor rd r1 r2) =
      some (only_if_no_write_to_zero rd (stm Instruction.xor (r1 ∷ r2 ∷ 0 ∷ rd ∷ [])))
  process_instruction (RiscvInstr.xori rd r1 imm) =
      some (only_if_no_write_to_zero rd (stm Instruction.xor (r1 ∷ 0 ∷ imm ∷ rd ∷ [])))
  process_instruction (RiscvInstr.and_ rd r1 r2) =
      some (only_if_no_write_to_zero rd (stm Instruction.and_ (r1 ∷ r2 ∷ 0 ∷ rd ∷ [])))
  process_instruction (RiscvInstr.andi rd r1 imm) =
      some (only_if_no_write_to_zero rd (stm Instruction.and_ (r1 ∷ 0 ∷ imm ∷ rd ∷ [])))
  process_instruction (RiscvInstr.or_ rd r1 r2) =
      some (only_if_no_write_to_zero rd (stm Instruction.or_ (r1 ∷ r2 ∷ 0 ∷ rd ∷ [])))
  process_instruction (RiscvInstr.ori rd r1 imm) =
      some (only_if_no_write_to_zero rd (stm Instruction.or_ (r1 ∷ 0 ∷ imm ∷ rd ∷ [])))
  process_instruction (RiscvInstr.not_ rd rs) = some (
      only_if_no_write_to_zero rd (
        statement Instruction.sub_wrap_with_offset
          (number 0 ∷ number rs ∷ minus (number 1) ∷ number rd ∷ [])))
  process_instruction (RiscvInstr.slli rd rs amount) =
      if leb amount 31
      then some (only_if_no_write_to_zero_vec rd (slli_code rd rs amount))
      else none
  process_instruction (RiscvInstr.sll rd r1 r2) =
      some (only_if_no_write_to_zero_vec rd (sll_code rd r1 r2))
  process_instruction (RiscvInstr.srli rd rs amount) =
      if leb amount 31
      then some (only_if_no_write_to_zero rd (stm Instruction.shr (rs ∷ 0 ∷ amount ∷ rd ∷ [])))
      else none
  process_instruction (RiscvInstr.srl rd r1 r2) =
      some (only_if_no_write_to_zero_vec rd (srl_code rd r1 r2))
  process_instruction (RiscvInstr.srai rd rs amount) =
      if leb amount 31
      then some (only_if_no_write_to_zero_vec rd (srai_code rd rs amount))
      else none
  process_instruction (RiscvInstr.sra rd rs1 rs2) =
      some (only_if_no_write_to_zero_vec rd (sra_code rd rs1 rs2))
  process_instruction (RiscvInstr.seqz rd rs) =
      some (only_if_no_write_to_zero rd (stm Instruction.is_equal_zero (rs ∷ rd ∷ [])))
  process_instruction (RiscvInstr.snez rd rs) =
      some (only_if_no_write_to_zero rd (stm Instruction.is_not_equal (rs ∷ 0 ∷ rd ∷ [])))
  process_instruction (RiscvInstr.slti rd rs imm) =
      some (only_if_no_write_to_zero_vec rd (slti_code rd rs imm))
  process_instruction (RiscvInstr.slt rd r1 r2) =
      some (only_if_no_write_to_zero_vec rd (slt_code rd r1 r2))
  process_instruction (RiscvInstr.sltiu rd rs imm) = some (
      only_if_no_write_to_zero rd (
        statement Instruction.is_diff_greater_than
          (number 0 ∷ number rs ∷ minus (number imm) ∷ number rd ∷ [])))
  process_instruction (RiscvInstr.sltu rd r1 r2) =
      some
        (only_if_no_write_to_zero rd (stm Instruction.is_diff_greater_than (r2 ∷ r1 ∷ 0 ∷ rd ∷ [])))
  process_instruction (RiscvInstr.sgtz rd rs) =
      some (only_if_no_write_to_zero_vec rd (sgtz_code rd rs))
  process_instruction (RiscvInstr.beq r1 r2 l) = some (
      statement Instruction.branch_if_diff_equal (number r1 ∷ number r2 ∷ number 0 ∷ label l ∷ [])
      ∷ [])
  process_instruction (RiscvInstr.beqz r1 l) = some (
      statement Instruction.branch_if_diff_equal (number r1 ∷ number 0 ∷ number 0 ∷ label l ∷ [])
      ∷ [])
  process_instruction (RiscvInstr.bgeu r1 r2 l) = some (
      statement Instruction.branch_if_diff_greater_than
        (number r1 ∷ number r2 ∷ minus (number 1) ∷ label l ∷ [])
      ∷ [])
  process_instruction (RiscvInstr.bgez r1 l) = some (bgez_code r1 l)
  process_instruction (RiscvInstr.bltu r1 r2 l) = some (
      statement Instruction.branch_if_diff_greater_than
        (number r2 ∷ number r1 ∷ number 0 ∷ label l ∷ [])
      ∷ [])
  process_instruction (RiscvInstr.blt r1 r2 l) = some (blt_code r1 r2 l)
  process_instruction (RiscvInstr.bge r1 r2 l) = some (bge_code r1 r2 l)
  process_instruction (RiscvInstr.bltz r1 l) = some (
      statement Instruction.branch_if_diff_greater_than (
        number r1
        ∷ number 0
        ∷ binary_operation (binary_operation (number 2) pow (number 31)) Run.sub (number 1)
        ∷ label l
        ∷ [])
      ∷ [])
  process_instruction (RiscvInstr.blez r1 l) = some (blez_code r1 l)
  process_instruction (RiscvInstr.bgtz r1 l) = some (bgtz_code r1 l)
  process_instruction (RiscvInstr.bne r1 r2 l) =
      some
        (statement Instruction.branch_if_diff_nonzero (number r1 ∷ number r2 ∷ label l ∷ []) ∷ [])
  process_instruction (RiscvInstr.bnez r1 l) =
      some (statement Instruction.branch_if_diff_nonzero (number r1 ∷ number 0 ∷ label l ∷ []) ∷ [])
  process_instruction (RiscvInstr.j l) =
      some (statement Instruction.jump (label l ∷ number tmp1 ∷ []) ∷ [])
  process_instruction (RiscvInstr.jr rs) = some (stm Instruction.jump_dyn (rs ∷ tmp1 ∷ []) ∷ [])
  process_instruction (RiscvInstr.jal_label l) =
      some (statement Instruction.jump (label l ∷ number 1 ∷ []) ∷ [])
  process_instruction (RiscvInstr.jal rd l) = some (
      statement Instruction.jump (label l ∷ number (if is_zero_register rd then tmp1 else rd) ∷ [])
      ∷ [])
  process_instruction (RiscvInstr.jalr_register rs) =
      some (stm Instruction.jump_dyn (rs ∷ 1 ∷ []) ∷ [])
  process_instruction (RiscvInstr.jalr rd rs off) =
      if off == 0
      then some
          (stm Instruction.jump_dyn (rs ∷ (if is_zero_register rd then tmp1 else rd) ∷ []) ∷ [])
      else none
  process_instruction (RiscvInstr.call l) =
      some (statement Instruction.jump (label l ∷ number 1 ∷ []) ∷ [])
  process_instruction RiscvInstr.ecall = some (
      push_register 1
      ++ (statement Instruction.jump (label ecall_handler ∷ number 1 ∷ []) ∷ pop_register 1))
  process_instruction RiscvInstr.ret = some (stm Instruction.jump_dyn (1 ∷ tmp1 ∷ []) ∷ [])
  process_instruction (RiscvInstr.lw rd rs off) =
      some (only_if_no_write_to_zero rd (stm Instruction.mload (rs ∷ off ∷ rd ∷ tmp1 ∷ [])))
  process_instruction (RiscvInstr.lb rd rs off) =
      some (only_if_no_write_to_zero_vec rd (lb_code rd rs off))
  process_instruction (RiscvInstr.lbu rd rs off) =
      some (only_if_no_write_to_zero_vec rd (lbu_code rd rs off))
  process_instruction (RiscvInstr.lh rd rs off) =
      some (only_if_no_write_to_zero_vec rd (lh_code rd rs off))
  process_instruction (RiscvInstr.lhu rd rs off) =
      some (only_if_no_write_to_zero_vec rd (lhu_code rd rs off))
  process_instruction (RiscvInstr.sw r2 r1 off) =
      some (stm Instruction.mstore (r1 ∷ 0 ∷ off ∷ r2 ∷ []) ∷ [])
  process_instruction (RiscvInstr.sh r2 r1 off) = some (sh_code r2 r1 off)
  process_instruction (RiscvInstr.sb r2 r1 off) = some (sb_code r2 r1 off)
  process_instruction RiscvInstr.ebreak = some []
  process_instruction RiscvInstr.fence = some []
  process_instruction RiscvInstr.nop = some []
  process_instruction RiscvInstr.unimp = some (stm Instruction.fail [] ∷ [])
  process_instruction (RiscvInstr.amoadd rd rs2 rs1) = some (
      (stm Instruction.mload (rs1 ∷ 0 ∷ tmp1 ∷ tmp2 ∷ [])
        ∷ stm Instruction.add_wrap (tmp1 ∷ rs2 ∷ 0 ∷ tmp2 ∷ [])
        ∷ stm Instruction.mstore (rs1 ∷ 0 ∷ 0 ∷ tmp2 ∷ [])
        ∷ [])
      ++ only_if_no_write_to_zero rd (stm Instruction.affine (tmp1 ∷ rd ∷ 1 ∷ 0 ∷ [])))
  process_instruction (RiscvInstr.lr rd rs) = some (
      only_if_no_write_to_zero_vec rd (stm Instruction.mload (rs ∷ 0 ∷ rd ∷ tmp1 ∷ []) ∷ [])
      ++ stm Instruction.set_reg (lr_sc_reservation ∷ 1 ∷ []) ∷ [])
  process_instruction (RiscvInstr.sc rd rs2 rs1) = some (
      (stm Instruction.skip_if_equal (lr_sc_reservation ∷ 0 ∷ 0 ∷ 1 ∷ [])
        ∷ stm Instruction.mstore (rs1 ∷ 0 ∷ 0 ∷ rs2 ∷ [])
        ∷ [])
      ++ (only_if_no_write_to_zero_vec rd (
            statement Instruction.affine
              (number lr_sc_reservation ∷ number rd ∷ minus (number 1) ∷ number 1 ∷ [])
            ∷ [])
          ++ stm Instruction.set_reg (lr_sc_reservation ∷ 0 ∷ []) ∷ []))
