-- ===== src/Riscv/Alu/Shift.antt =====
-- Shifts.
use powdr.Prelude.{ℕ, ◌^◌, ◌%◌, ◌<◌, sym, [], ◌∷◌, none, arith, inr}
use powdr.Prelude.Bits.{bit_and_mask}
use powdr.Prelude.Int.{pos}
use powdr.Executor.State.{Core}
use powdr.Executor.Names.{Instruction}
use powdr.Executor.Instr.Bitwise.{binary_result, shift_result}
use powdr.Executor.Run.{Program, run_statement}
use powdr.Executor.Laws.{word, with_reg}
use powdr.Riscv.Instr.{Register, tmp1}
use powdr.Riscv.Asm.{only_if_no_write_to_zero_vec, stm}
use powdr.Riscv.Sequence.{Does, IsReady}
use powdr.Riscv.Sequence.Statements.{
  At, At-zero, At-write_ne, At-write_self, and-Does, shl-Does, shr-Does,
}
use powdr.Riscv.Spec.{AluOp, alu}
use powdr.Riscv.Runs.{Runs, guarded, last_statement, statement_then}

module _ (prog : Program) (rd r1 r2 : Register) (ld : rd < 32) (l1 : r1 < 32) (l2 : r2 < 32) where
  module _ (c : Core) (ready : IsReady c) (x y : ℕ) (hx : At c r1 (pos x)) (hy : At c r2 (pos y))
      (lx : x < 2 ^ 32) (ly : y < 2 ^ 32) where
    -- The shift amount is the low five bits.
    amount : Core
    amount = with_reg tmp1 (word (y % 32)) c

    mask-Does :
        Does (run_statement prog (stm Instruction.and_ (r2 ∷ 0 ∷ 0x1f ∷ tmp1 ∷ []))) c none amount
    unfolding amount binary_result
    mask-Does = rw (sym (bit_and_mask 5 y)) (
        and-Does prog c ready r2 0 tmp1 (omega arith) (omega arith) (omega arith) y 0 0x1f hy
          (At-zero c) ly (omega arith))

    pub sll-Runs :
        Runs prog
          (only_if_no_write_to_zero_vec rd (
            stm Instruction.and_ (r2 ∷ 0 ∷ 0x1f ∷ tmp1 ∷ [])
            ∷ stm Instruction.shl (r1 ∷ tmp1 ∷ 0 ∷ rd ∷ [])
            ∷ []))
          c
          rd
          (alu AluOp.sll x y)
    unfolding alu amount shift_result
    sll-Runs = guarded prog _ c rd _ (λ _.
        statement_then prog _ _ c tmp1 rd _ _ (inr (omega arith)) mask-Does (
          last_statement prog _ _ rd _ (
            shl-Does prog _ ready r1 tmp1 rd (omega arith) (omega arith) (omega arith) x (y % 32) 0
              _ (At-write_ne c tmp1 r1 _ _ (omega arith) hx) (At-write_self c tmp1 _ (omega arith))
              lx (omega arith) (ground arith))))

    pub srl-Runs :
        Runs prog
          (only_if_no_write_to_zero_vec rd (
            stm Instruction.and_ (r2 ∷ 0 ∷ 0x1f ∷ tmp1 ∷ [])
            ∷ stm Instruction.shr (r1 ∷ tmp1 ∷ 0 ∷ rd ∷ [])
            ∷ []))
          c
          rd
          (alu AluOp.srl x y)
    unfolding alu amount shift_result
    srl-Runs = guarded prog _ c rd _ (λ _.
        statement_then prog _ _ c tmp1 rd _ _ (inr (omega arith)) mask-Does (
          last_statement prog _ _ rd _ (
            shr-Does prog _ ready r1 tmp1 rd (omega arith) (omega arith) (omega arith) x (y % 32) 0
              _ (At-write_ne c tmp1 r1 _ _ (omega arith) hx) (At-write_self c tmp1 _ (omega arith))
              lx (omega arith) (ground arith))))
