-- ===== src/Riscv/Access.antt =====
-- riscv/src/large_field/code_gen.rs: the arms of `process_instruction` for accesses of bytes and half words.
use powdr.Prelude.{ℕ, List, [], ◌∷◌}
use powdr.Executor.Names.{Instruction}
use powdr.Executor.Run.{Statement}
use powdr.Riscv.Instr.{Register, tmp1, tmp2, tmp3, tmp4}
use powdr.Riscv.Asm.{stm}

abbrev pub lb_code : Register → Register → ℕ → List Statement
lb_code rd rs off =
    stm Instruction.mload (rs ∷ off ∷ tmp1 ∷ tmp2 ∷ [])
    ∷ stm Instruction.affine (tmp2 ∷ tmp2 ∷ 8 ∷ 0 ∷ [])
    ∷ stm Instruction.shr (tmp1 ∷ tmp2 ∷ 0 ∷ tmp1 ∷ [])
    ∷ stm Instruction.sign_extend_byte (tmp1 ∷ rd ∷ [])
    ∷ []

abbrev pub lbu_code : Register → Register → ℕ → List Statement
lbu_code rd rs off =
    stm Instruction.mload (rs ∷ off ∷ tmp1 ∷ tmp2 ∷ [])
    ∷ stm Instruction.affine (tmp2 ∷ tmp2 ∷ 8 ∷ 0 ∷ [])
    ∷ stm Instruction.shr (tmp1 ∷ tmp2 ∷ 0 ∷ tmp1 ∷ [])
    ∷ stm Instruction.and_ (tmp1 ∷ 0 ∷ 0xff ∷ rd ∷ [])
    ∷ []

abbrev pub lh_code : Register → Register → ℕ → List Statement
lh_code rd rs off =
    stm Instruction.mload (rs ∷ off ∷ tmp1 ∷ tmp2 ∷ [])
    ∷ stm Instruction.affine (tmp2 ∷ tmp2 ∷ 8 ∷ 0 ∷ [])
    ∷ stm Instruction.shr (tmp1 ∷ tmp2 ∷ 0 ∷ tmp1 ∷ [])
    ∷ stm Instruction.sign_extend_16_bits (tmp1 ∷ rd ∷ [])
    ∷ []

abbrev pub lhu_code : Register → Register → ℕ → List Statement
lhu_code rd rs off =
    stm Instruction.mload (rs ∷ off ∷ tmp1 ∷ tmp2 ∷ [])
    ∷ stm Instruction.affine (tmp2 ∷ tmp2 ∷ 8 ∷ 0 ∷ [])
    ∷ stm Instruction.shr (tmp1 ∷ tmp2 ∷ 0 ∷ tmp1 ∷ [])
    ∷ stm Instruction.and_ (tmp1 ∷ 0 ∷ 0x0000ffff ∷ rd ∷ [])
    ∷ []

abbrev pub sh_code : Register → Register → ℕ → List Statement
sh_code r2 r1 off =
    stm Instruction.mload (r1 ∷ off ∷ tmp1 ∷ tmp2 ∷ [])
    ∷ stm Instruction.set_reg (tmp3 ∷ 0xffff ∷ [])
    ∷ stm Instruction.affine (tmp2 ∷ tmp4 ∷ 8 ∷ 0 ∷ [])
    ∷ stm Instruction.shl (tmp3 ∷ tmp4 ∷ 0 ∷ tmp3 ∷ [])
    ∷ stm Instruction.xor (tmp3 ∷ 0 ∷ 0xffffffff ∷ tmp3 ∷ [])
    ∷ stm Instruction.and_ (tmp1 ∷ tmp3 ∷ 0 ∷ tmp1 ∷ [])
    ∷ stm Instruction.and_ (r2 ∷ 0 ∷ 0xffff ∷ tmp3 ∷ [])
    ∷ stm Instruction.shl (tmp3 ∷ tmp4 ∷ 0 ∷ tmp3 ∷ [])
    ∷ stm Instruction.or_ (tmp1 ∷ tmp3 ∷ 0 ∷ tmp1 ∷ [])
    ∷ stm Instruction.mstore (r1 ∷ tmp2 ∷ off ∷ tmp1 ∷ [])
    ∷ []

abbrev pub sb_code : Register → Register → ℕ → List Statement
sb_code r2 r1 off =
    stm Instruction.mload (r1 ∷ off ∷ tmp1 ∷ tmp2 ∷ [])
    ∷ stm Instruction.set_reg (tmp3 ∷ 0xff ∷ [])
    ∷ stm Instruction.affine (tmp2 ∷ tmp4 ∷ 8 ∷ 0 ∷ [])
    ∷ stm Instruction.shl (tmp3 ∷ tmp4 ∷ 0 ∷ tmp3 ∷ [])
    ∷ stm Instruction.xor (tmp3 ∷ 0 ∷ 0xffffffff ∷ tmp3 ∷ [])
    ∷ stm Instruction.and_ (tmp1 ∷ tmp3 ∷ 0 ∷ tmp1 ∷ [])
    ∷ stm Instruction.and_ (r2 ∷ 0 ∷ 0xff ∷ tmp3 ∷ [])
    ∷ stm Instruction.shl (tmp3 ∷ tmp4 ∷ 0 ∷ tmp3 ∷ [])
    ∷ stm Instruction.or_ (tmp1 ∷ tmp3 ∷ 0 ∷ tmp1 ∷ [])
    ∷ stm Instruction.mstore (r1 ∷ tmp2 ∷ off ∷ tmp1 ∷ [])
    ∷ []
