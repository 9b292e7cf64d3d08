-- ===== src/Riscv/Alu/ShiftRight.antt =====
-- Arithmetic shifts to the right, with a mask of the sign.
use powdr.Prelude.{
  ℕ, ◌+◌, ◌-◌, ◌^◌, ◌%◌, ◌/◌, ◌<◌, ◌≤◌, ◌≡◌, refl, sym, ltb, bit_xor, List, [], ◌∷◌, none, arith,
  if◌then◌else◌, inl, inr, Bool-cases,
}
use native.Mathlib.Nat.{div-le_self}
use powdr.Prelude.Bits.{bit_xor-lt, bit_and_mask, bit_xor_ones, zero-bit_xor}
use powdr.Prelude.Int.{ℤ, pos, as_i32, as_u32, asr, ltb_ℤ, ◌-ℤ◌, ◌*ℤ◌, ◌+ℤ◌}
use powdr.Executor.Elem.{binary}
use powdr.Executor.State.{Core}
use powdr.Executor.Names.{Instruction}
use powdr.Executor.Instr.Bitwise.{binary_result, shift_result}
use powdr.Executor.Instr.Compare.{flag}
use powdr.Executor.Run.{Program, Statement, run_statement, eval_expression, number}
use powdr.Executor.Laws.{word, with_reg}
use powdr.Riscv.Instr.{Register, tmp1, tmp2, tmp3}
use powdr.Riscv.Asm.{only_if_no_write_to_zero_vec, stm}
use powdr.Riscv.Sequence.{Does, IsReady}
use powdr.Riscv.Sequence.Statements.{
  At, At-zero, At-write_ne, At-write_self, and-Does, xor-Does, shr-Does, is_diff_greater_than-Does,
}
use powdr.Riscv.Sequence.Unary.{to_signed-Does, affine-Does}
use powdr.Riscv.Spec.{AluOp, ImmOp, imm, alu}
use powdr.Riscv.Runs.{Runs, guarded, last_statement, statement_then}

-- All ones for a negative word, else zero.
abbrev sign_mask : ℕ → ℕ
sign_mask x = if ltb x (2 ^ 31) then 0 else 2 ^ 32 - 1

mask-eq :
    (x : ℕ)
    → x < 2 ^ 32
    → pos (flag (ltb_ℤ (pos 0) (pos 0 -ℤ as_i32 x -ℤ pos 0))) *ℤ pos 0xffffffff +ℤ pos 0
      ≡ pos (sign_mask x)
mask-eq x h = ground arith

mask-lt : (x : ℕ) → sign_mask x < 2 ^ 32
mask-lt x = ground arith

-- Shifting the word under the mask shifts the signed number.
asr_lem :
    (x k : ℕ)
    → x < 2 ^ 32
    → bit_xor (sign_mask x) (bit_xor (sign_mask x) x / 2 ^ k) ≡ as_u32 (asr (as_i32 x) k)
asr_lem x k h = elim (Bool-cases (ltb x (2 ^ 31))) [
  | inl e ↦
      let l : x / 2 ^ k ≤ x = div-le_self x (2 ^ k) in
      rw (e, zero-bit_xor x, zero-bit_xor (x / 2 ^ k)) (ground arith)
  | inr e ↦
      let l : (2 ^ 32 - 1 - x) / 2 ^ k ≤ 2 ^ 32 - 1 - x = div-le_self (2 ^ 32 - 1 - x) (2 ^ k) in
      rw (e, bit_xor_ones 32 x h, bit_xor_ones 32 ((2 ^ 32 - 1 - x) / 2 ^ k) (omega arith))
        (ground arith)
]

-- Exclusive or of two registers.
xor_zero-Does :
    (prog : Program) (c : Core)
    → IsReady c
    → (r1 r2 w : Register) → r1 < 256
    → r2 < 256
    → w < 256
    → (x y : ℕ) → At c r1 (pos x)
    → At c r2 (pos y)
    → x < 2 ^ 32
    → y < 2 ^ 32
    → Does
        (run_statement prog (stm Instruction.xor (r1 ∷ r2 ∷ 0 ∷ w ∷ [])))
        c
        none
        (with_reg w (word (bit_xor x y)) c)
unfolding binary_result
xor_zero-Does prog c ready r1 r2 w h1 h2 hw x y hx hy lx ly =
    let e : y + 0 ≡ y = omega arith in
    simp e at (xor-Does prog c ready r1 r2 w h1 h2 hw x y 0 hx hy lx (omega arith))

-- The first three statements put the mask into `tmp1`.
abbrev mask_statements : Register → List Statement → List Statement
mask_statements r ss =
    stm Instruction.to_signed (r ∷ tmp1 ∷ [])
    ∷ stm Instruction.is_diff_greater_than (0 ∷ tmp1 ∷ 0 ∷ tmp1 ∷ [])
    ∷ stm Instruction.affine (tmp1 ∷ tmp1 ∷ 0xffffffff ∷ 0 ∷ [])
    ∷ ss

module _ (prog : Program) (rd r1 r2 : Register) (ld : rd < 32) (l1 : r1 < 32) (l2 : r2 < 32) where
  module _ (c : Core) (ready : IsReady c) (x : ℕ) (hx : At c r1 (pos x)) (lx : x < 2 ^ 32) where
    abbrev is_negative : ℕ
    is_negative = flag (ltb_ℤ (pos 0) (pos 0 -ℤ as_i32 x -ℤ pos 0))

    abbrev extended : Core
    extended = with_reg tmp1 (binary (as_i32 x)) c

    abbrev tested : Core
    tested = with_reg tmp1 (word is_negative) extended

    abbrev masked : Core
    masked = with_reg tmp1 (word (sign_mask x)) tested

    masked-keeps : (r : Register) (z : ℤ) → r < 32 → At c r z → At masked r z
    masked-keeps r z l h =
        At-write_ne tested tmp1 r _ _ (omega arith)
          (At-write_ne extended tmp1 r _ _ (omega arith) (At-write_ne c tmp1 r _ _ (omega arith) h))

    masked-then :
        (ss : List Statement) (v : ℕ)
        → Runs prog ss masked rd v
        → Runs prog (mask_statements r1 ss) c rd v
    unfolding eval_expression
    masked-then ss v h =
        statement_then prog _ _ c tmp1 rd _ v (inr (omega arith))
          (to_signed-Does prog c ready r1 tmp1 (omega arith) (omega arith) x hx lx)
          (statement_then prog _ _ extended tmp1 rd _ v (inr (omega arith))
            (is_diff_greater_than-Does prog extended ready 0 tmp1 tmp1 (omega arith) (omega arith)
              (omega arith) (pos 0) (as_i32 x) (pos 0) (number 0) (λ regs. refl) (At-zero extended)
              (At-write_self c tmp1 _ (omega arith)) (ground arith) (ground arith))
            (statement_then prog _ _ tested tmp1 rd _ v (inr (omega arith))
              (rw (sym (mask-eq x lx)) (
                affine-Does prog tested ready tmp1 tmp1 (omega arith) (omega arith)
                  (pos is_negative) 0xffffffff 0 (At-write_self extended tmp1 _ (omega arith))
                  (omega arith) (omega arith) (ground arith) (ground arith)))
              h))

    pub srai-Runs :
        (n : ℕ)
        → n < 32
        → Runs prog
            (only_if_no_write_to_zero_vec rd (
              mask_statements r1 (
                stm Instruction.xor (tmp1 ∷ r1 ∷ 0 ∷ rd ∷ [])
                ∷ stm Instruction.shr (rd ∷ 0 ∷ n ∷ rd ∷ [])
                ∷ stm Instruction.xor (tmp1 ∷ rd ∷ 0 ∷ rd ∷ [])
                ∷ [])))
            c
            rd
            (imm ImmOp.srai x n)
    unfolding imm shift_result
    srai-Runs n ln =
        let m = sign_mask x in
        let lm = mask-lt x in
        let a = bit_xor m x in
        let la : a < 2 ^ 32 = bit_xor-lt 32 m x lm lx in
        let c4 = with_reg rd (word a) masked in
        let b = a / 2 ^ n in
        let lb : b ≤ a = div-le_self a (2 ^ n) in
        let c5 = with_reg rd (word b) c4 in
        guarded prog _ c rd _ (λ nz. masked-then _ _ (
          statement_then prog _ _ masked rd rd _ _ (inl refl)
            (xor_zero-Does prog masked ready tmp1 r1 rd (omega arith) (omega arith) (omega arith) m
              x (At-write_self tested tmp1 _ (omega arith)) (masked-keeps r1 _ l1 hx) lm lx)
            (statement_then prog _ _ c4 rd rd _ _ (inl refl)
              (shr-Does prog c4 ready rd 0 rd (omega arith) (omega arith) (omega arith) a 0 n b
                (At-write_self masked rd _ nz) (At-zero c4) la (omega arith) (ground arith))
              (last_statement prog _ c5 rd _ (
                rw (sym (asr_lem x n lx)) (
                  xor_zero-Does prog c5 ready tmp1 rd rd (omega arith) (omega arith) (omega arith) m
                    b
                    (At-write_ne c4 rd tmp1 _ _ (omega arith) (
                      At-write_ne masked rd tmp1 _ _ (omega arith)
                        (At-write_self tested tmp1 _ (omega arith))))
                    (At-write_self c4 rd _ nz) lm (omega arith)))))))

    pub sra-Runs :
        (y : ℕ)
        → At c r2 (pos y)
        → y < 2 ^ 32
        → Runs prog
            (only_if_no_write_to_zero_vec rd (
              mask_statements r1 (
                stm Instruction.xor (tmp1 ∷ r1 ∷ 0 ∷ tmp2 ∷ [])
                ∷ stm Instruction.and_ (r2 ∷ 0 ∷ 0x1f ∷ tmp3 ∷ [])
                ∷ stm Instruction.shr (tmp2 ∷ tmp3 ∷ 0 ∷ rd ∷ [])
                ∷ stm Instruction.xor (tmp1 ∷ rd ∷ 0 ∷ rd ∷ [])
                ∷ [])))
            c
            rd
            (alu AluOp.sra x y)
    unfolding alu shift_result binary_result
    sra-Runs y hy ly =
        let m = sign_mask x in
        let lm = mask-lt x in
        let a = bit_xor m x in
        let la : a < 2 ^ 32 = bit_xor-lt 32 m x lm lx in
        let k = y % 32 in
        let c4 = with_reg tmp2 (word a) masked in
        let c5 = with_reg tmp3 (word k) c4 in
        let b = a / 2 ^ k in
        let lb : b ≤ a = div-le_self a (2 ^ k) in
        let c6 = with_reg rd (word b) c5 in
        guarded prog _ c rd _ (λ nz. masked-then _ _ (
          statement_then prog _ _ masked tmp2 rd _ _ (inr (omega arith))
            (xor_zero-Does prog masked ready tmp1 r1 tmp2 (omega arith) (omega arith) (omega arith)
              m x (At-write_self tested tmp1 _ (omega arith)) (masked-keeps r1 _ l1 hx) lm lx)
            (statement_then prog _ _ c4 tmp3 rd _ _ (inr (omega arith))
              (rw (sym (bit_and_mask 5 y)) (
                and-Does prog c4 ready r2 0 tmp3 (omega arith) (omega arith) (omega arith) y 0 0x1f
                  (At-write_ne masked tmp2 r2 _ _ (omega arith) (masked-keeps r2 _ l2 hy))
                  (At-zero c4) ly (omega arith)))
              (statement_then prog _ _ c5 rd rd _ _ (inl refl)
                (shr-Does prog c5 ready tmp2 tmp3 rd (omega arith) (omega arith) (omega arith) a k 0
                  b
                  (At-write_ne c4 tmp3 tmp2 _ _ (omega arith)
                    (At-write_self masked tmp2 _ (omega arith)))
                  (At-write_self c4 tmp3 _ (omega arith)) la (omega arith) (ground arith))
                (last_statement prog _ c6 rd _ (
                  rw (sym (asr_lem x k lx)) (
                    xor_zero-Does prog c6 ready tmp1 rd rd (omega arith) (omega arith) (omega arith)
                      m b
                      (At-write_ne c5 rd tmp1 _ _ (omega arith) (
                        At-write_ne c4 tmp3 tmp1 _ _ (omega arith) (
                          At-write_ne masked tmp2 tmp1 _ _ (omega arith)
                            (At-write_self tested tmp1 _ (omega arith)))))
                      (At-write_self c5 rd _ nz) lm (omega arith))))))))
