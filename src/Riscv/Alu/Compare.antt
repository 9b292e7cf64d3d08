-- ===== src/Riscv/Alu/Compare.antt =====
-- Comparisons.
use powdr.Prelude.{ℕ, ◌^◌, ◌<◌, ◌≡◌, refl, sym, ltb, [], ◌∷◌, arith, inr}
use powdr.Prelude.Int.{pos, as_i32, ltb_ℤ, ◌-ℤ◌}
use powdr.Executor.Elem.{binary}
use powdr.Executor.State.{Core}
use powdr.Executor.Names.{Instruction}
use powdr.Executor.Instr.Compare.{flag}
use powdr.Executor.Run.{Program, eval_expression, number}
use powdr.Executor.Laws.{with_reg}
use powdr.Riscv.Instr.{Register, tmp1, tmp2}
use powdr.Riscv.Asm.{only_if_no_write_to_zero, only_if_no_write_to_zero_vec, stm}
use powdr.Riscv.Sequence.{IsReady}
use powdr.Riscv.Sequence.Statements.{At, At-write_ne, At-write_self, is_diff_greater_than-Does}
use powdr.Riscv.Sequence.Unary.{to_signed-Does}
use powdr.Riscv.Spec.{AluOp, alu, truth}
use powdr.Riscv.Runs.{Runs, guarded, last_statement, statement_then}

module _ (prog : Program) (rd r1 r2 : Register) (ld : rd < 32) (l1 : r1 < 32) (l2 : r2 < 32) where
  module _ (c : Core) (ready : IsReady c) (x y : ℕ) (hx : At c r1 (pos x)) (hy : At c r2 (pos y))
      (lx : x < 2 ^ 32) (ly : y < 2 ^ 32) where
    flag-ltb : flag (ltb_ℤ (pos 0) (pos y -ℤ pos x -ℤ pos 0)) ≡ truth (ltb x y)
    flag-ltb = ground arith

    pub sltu-Runs :
        Runs prog
          (only_if_no_write_to_zero rd
            (stm Instruction.is_diff_greater_than (r2 ∷ r1 ∷ 0 ∷ rd ∷ [])))
          c
          rd
          (alu AluOp.sltu x y)
    unfolding alu eval_expression only_if_no_write_to_zero
    sltu-Runs = guarded prog _ c rd _ (λ _. last_statement prog _ _ rd _ (
        rw (sym flag-ltb) (
          is_diff_greater_than-Does prog c ready r2 r1 rd (omega arith) (omega arith) (omega arith)
            (pos y) (pos x) (pos 0) (number 0) (λ regs. refl) hy hx (ground arith) (ground arith))))

    flag-slt :
        flag (ltb_ℤ (pos 0) (as_i32 y -ℤ as_i32 x -ℤ pos 0)) ≡ truth (ltb_ℤ (as_i32 x) (as_i32 y))
    flag-slt = ground arith

    pub slt-Runs :
        Runs prog
          (only_if_no_write_to_zero_vec rd (
            stm Instruction.to_signed (r1 ∷ tmp1 ∷ [])
            ∷ stm Instruction.to_signed (r2 ∷ tmp2 ∷ [])
            ∷ stm Instruction.is_diff_greater_than (tmp2 ∷ tmp1 ∷ 0 ∷ rd ∷ [])
            ∷ []))
          c
          rd
          (alu AluOp.slt x y)
    unfolding alu eval_expression
    slt-Runs =
        let c1 = with_reg tmp1 (binary (as_i32 x)) c in
        let c2 = with_reg tmp2 (binary (as_i32 y)) c1 in
        guarded prog _ c rd _ (λ _.
          statement_then prog _ _ c tmp1 rd _ _ (inr (omega arith))
            (to_signed-Does prog c ready r1 tmp1 (omega arith) (omega arith) x hx lx)
            (statement_then prog _ _ c1 tmp2 rd _ _ (inr (omega arith))
              (to_signed-Does prog c1 ready r2 tmp2 (omega arith) (omega arith) y
                (At-write_ne c tmp1 r2 _ _ (omega arith) hy) ly)
              (last_statement prog _ c2 rd _ (
                rw (sym flag-slt) (
                  is_diff_greater_than-Does prog c2 ready tmp2 tmp1 rd (omega arith) (omega arith)
                    (omega arith) (as_i32 y) (as_i32 x) (pos 0) (number 0) (λ regs. refl)
                    (At-write_self c1 tmp2 _ (omega arith))
                    (At-write_ne c1 tmp2 tmp1 _ _ (omega arith)
                      (At-write_self c tmp1 _ (omega arith)))
                    (ground arith) (ground arith))))))
