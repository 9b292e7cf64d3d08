-- ===== src/Riscv/Blocks.antt =====
-- riscv/src/large_field/code_gen.rs: the arms of `process_instruction` for arithmetic, shifts, comparisons and branches that
-- need several statements.
use powdr.Prelude.{ℕ, ◌-◌, ◌^◌, leb, List, [], ◌∷◌, if◌then◌else◌}
use powdr.Prelude.Int.{as_i32}
use powdr.Executor.Names.{Instruction}
use powdr.Executor.Run.{Statement, number, minus, label}
use powdr.Riscv.Instr.{Register, tmp1, tmp2, tmp3, tmp4}
use powdr.Riscv.Asm.{statement, signed, stm}

abbrev pub mulh_code : Register → Register → Register → List Statement
mulh_code rd r1 r2 =
    stm Instruction.to_signed (r1 ∷ tmp1 ∷ [])
    ∷ stm Instruction.to_signed (r2 ∷ tmp2 ∷ [])
    ∷ statement Instruction.is_diff_greater_than
        (number tmp1 ∷ number 0 ∷ minus (number 1) ∷ number tmp3 ∷ [])
    ∷ statement Instruction.is_diff_greater_than
        (number tmp2 ∷ number 0 ∷ minus (number 1) ∷ number tmp4 ∷ [])
    ∷ stm Instruction.skip_if_equal (0 ∷ tmp3 ∷ 1 ∷ 1 ∷ [])
    ∷ statement Instruction.affine (number tmp1 ∷ number tmp1 ∷ minus (number 1) ∷ number 0 ∷ [])
    ∷ stm Instruction.skip_if_equal (0 ∷ tmp4 ∷ 1 ∷ 1 ∷ [])
    ∷ statement Instruction.affine (number tmp2 ∷ number tmp2 ∷ minus (number 1) ∷ number 0 ∷ [])
    ∷ stm Instruction.mul (tmp1 ∷ tmp2 ∷ tmp1 ∷ rd ∷ [])
    ∷ stm Instruction.is_not_equal (tmp3 ∷ tmp4 ∷ tmp3 ∷ [])
    ∷ stm Instruction.skip_if_equal (tmp3 ∷ 0 ∷ 0 ∷ 2 ∷ [])
    ∷ stm Instruction.is_equal_zero (tmp1 ∷ tmp1 ∷ [])
    ∷ statement Instruction.sub_wrap_with_offset
        (number tmp1 ∷ number rd ∷ minus (number 1) ∷ number rd ∷ [])
    ∷ []

abbrev pub mulhsu_code : Register → Register → Register → List Statement
mulhsu_code rd r1 r2 =
    stm Instruction.to_signed (r1 ∷ tmp1 ∷ [])
    ∷ statement Instruction.is_diff_greater_than
        (number tmp1 ∷ number 0 ∷ minus (number 1) ∷ number tmp2 ∷ [])
    ∷ stm Instruction.skip_if_equal (0 ∷ tmp2 ∷ 1 ∷ 1 ∷ [])
    ∷ statement Instruction.affine (number tmp1 ∷ number tmp1 ∷ minus (number 1) ∷ number 0 ∷ [])
    ∷ stm Instruction.mul (tmp1 ∷ r2 ∷ tmp1 ∷ rd ∷ [])
    ∷ stm Instruction.skip_if_equal (0 ∷ tmp2 ∷ 1 ∷ 2 ∷ [])
    ∷ stm Instruction.is_equal_zero (tmp1 ∷ tmp1 ∷ [])
    ∷ statement Instruction.sub_wrap_with_offset
        (number tmp1 ∷ number rd ∷ minus (number 1) ∷ number rd ∷ [])
    ∷ []

abbrev pub sll_code : Register → Register → Register → List Statement
sll_code rd r1 r2 =
    stm Instruction.and_ (r2 ∷ 0 ∷ 0x1f ∷ tmp1 ∷ [])
    ∷ stm Instruction.shl (r1 ∷ tmp1 ∷ 0 ∷ rd ∷ [])
    ∷ []

abbrev pub srl_code : Register → Register → Register → List Statement
srl_code rd r1 r2 =
    stm Instruction.and_ (r2 ∷ 0 ∷ 0x1f ∷ tmp1 ∷ [])
    ∷ stm Instruction.shr (r1 ∷ tmp1 ∷ 0 ∷ rd ∷ [])
    ∷ []

abbrev pub sra_code : Register → Register → Register → List Statement
sra_code rd rs1 rs2 =
    stm Instruction.to_signed (rs1 ∷ tmp1 ∷ [])
    ∷ stm Instruction.is_diff_greater_than (0 ∷ tmp1 ∷ 0 ∷ tmp1 ∷ [])
    ∷ stm Instruction.affine (tmp1 ∷ tmp1 ∷ 0xffffffff ∷ 0 ∷ [])
    ∷ stm Instruction.xor (tmp1 ∷ rs1 ∷ 0 ∷ tmp2 ∷ [])
    ∷ stm Instruction.and_ (rs2 ∷ 0 ∷ 0x1f ∷ tmp3 ∷ [])
    ∷ stm Instruction.shr (tmp2 ∷ tmp3 ∷ 0 ∷ rd ∷ [])
    ∷ stm Instruction.xor (tmp1 ∷ rd ∷ 0 ∷ rd ∷ [])
    ∷ []

abbrev pub slti_code : Register → Register → ℕ → List Statement
slti_code rd rs imm =
    stm Instruction.to_signed (rs ∷ tmp1 ∷ [])
    ∷ statement Instruction.is_diff_greater_than
        (number 0 ∷ number tmp1 ∷ minus (signed (as_i32 imm)) ∷ number rd ∷ [])
    ∷ []

abbrev pub slt_code : Register → Register → Register → List Statement
slt_code rd r1 r2 =
    stm Instruction.to_signed (r1 ∷ tmp1 ∷ [])
    ∷ stm Instruction.to_signed (r2 ∷ tmp2 ∷ [])
    ∷ stm Instruction.is_diff_greater_than (tmp2 ∷ tmp1 ∷ 0 ∷ rd ∷ [])
    ∷ []

abbrev pub sgtz_code : Register → Register → List Statement
sgtz_code rd rs =
    stm Instruction.to_signed (rs ∷ tmp1 ∷ [])
    ∷ stm Instruction.is_diff_greater_than (tmp1 ∷ 0 ∷ 0 ∷ rd ∷ [])
    ∷ []

abbrev pub bgez_code : Register → ℕ → List Statement
bgez_code r1 l =
    stm Instruction.to_signed (r1 ∷ tmp1 ∷ [])
    ∷ statement Instruction.branch_if_diff_greater_than
        (number tmp1 ∷ number 0 ∷ minus (number 1) ∷ label l ∷ [])
    ∷ []

abbrev pub blt_code : Register → Register → ℕ → List Statement
blt_code r1 r2 l =
    stm Instruction.to_signed (r1 ∷ tmp1 ∷ [])
    ∷ stm Instruction.to_signed (r2 ∷ tmp2 ∷ [])
    ∷ statement Instruction.branch_if_diff_greater_than
        (number tmp2 ∷ number tmp1 ∷ number 0 ∷ label l ∷ [])
    ∷ []

abbrev pub bge_code : Register → Register → ℕ → List Statement
bge_code r1 r2 l =
    stm Instruction.to_signed (r1 ∷ tmp1 ∷ [])
    ∷ stm Instruction.to_signed (r2 ∷ tmp2 ∷ [])
    ∷ statement Instruction.branch_if_diff_greater_than
        (number tmp1 ∷ number tmp2 ∷ minus (number 1) ∷ label l ∷ [])
    ∷ []

abbrev pub blez_code : Register → ℕ → List Statement
blez_code r1 l =
    stm Instruction.to_signed (r1 ∷ tmp1 ∷ [])
    ∷ statement Instruction.branch_if_diff_greater_than
        (number 0 ∷ number tmp1 ∷ minus (number 1) ∷ label l ∷ [])
    ∷ []

abbrev pub bgtz_code : Register → ℕ → List Statement
bgtz_code r1 l =
    stm Instruction.to_signed (r1 ∷ tmp1 ∷ [])
    ∷ statement Instruction.branch_if_diff_greater_than
        (number tmp1 ∷ number 0 ∷ number 0 ∷ label l ∷ [])
    ∷ []

abbrev pub srai_code : Register → Register → ℕ → List Statement
srai_code rd rs amount =
    stm Instruction.to_signed (rs ∷ tmp1 ∷ [])
    ∷ stm Instruction.is_diff_greater_than (0 ∷ tmp1 ∷ 0 ∷ tmp1 ∷ [])
    ∷ stm Instruction.affine (tmp1 ∷ tmp1 ∷ 0xffffffff ∷ 0 ∷ [])
    ∷ stm Instruction.xor (tmp1 ∷ rs ∷ 0 ∷ rd ∷ [])
    ∷ stm Instruction.shr (rd ∷ 0 ∷ amount ∷ rd ∷ [])
    ∷ stm Instruction.xor (tmp1 ∷ rd ∷ 0 ∷ rd ∷ [])
    ∷ []

abbrev pub slli_code : Register → Register → ℕ → List Statement
slli_code rd rs amount =
    if leb amount 16
    then stm Instruction.wrap16 (rs ∷ 2 ^ amount ∷ rd ∷ []) ∷ []
    else stm Instruction.wrap16 (rs ∷ 2 ^ 16 ∷ tmp1 ∷ [])
      ∷ stm Instruction.wrap16 (tmp1 ∷ 2 ^ (amount - 16) ∷ rd ∷ [])
      ∷ []
