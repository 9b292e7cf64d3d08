-- ===== src/Riscv/Alu/Immediate.antt =====
-- Instructions with an immediate.
use powdr.Prelude.{
  ℕ, ◌+◌, ◌-◌, ◌*◌, ◌^◌, ◌%◌, ◌/◌, ◌<◌, ◌≤◌, ◌≡◌, refl, sym, ap, ◌∙◌, ltb, leb, [], ◌∷◌, none,
  arith, if◌then◌else◌, inl, inr, Bool-cases,
}
use native.Mathlib.Nat.{pow-le-pow_right}
use powdr.Goldilocks.Power.{mod-mul_left, pow_add}
use powdr.Prelude.Int.{sub_ℕ, pos, as_i32, ltb_ℤ, ◌-ℤ◌}
use powdr.Executor.Elem.{binary}
use powdr.Executor.State.{Core}
use powdr.Executor.Names.{Instruction}
use powdr.Executor.Instr.Bitwise.{binary_result, shift_result}
use powdr.Executor.Instr.Compare.{flag}
use powdr.Executor.Run.{Program, Statement, run_statement, eval_expression, number, minus}
use powdr.Executor.Laws.{word, with_reg}
use powdr.Riscv.Instr.{Register, tmp1}
use powdr.Riscv.Asm.{only_if_no_write_to_zero, only_if_no_write_to_zero_vec, stm, statement, signed}
use powdr.Riscv.Sequence.{Does, IsReady}
use powdr.Riscv.Sequence.Statements.{
  At, At-zero, At-write_self, and-Does, or-Does, add_wrap-Does, xor-Does, shr-Does,
  is_diff_greater_than-Does,
}
use powdr.Riscv.Sequence.Unary.{to_signed-Does, wrap16-Does}
use powdr.Riscv.Spec.{ImmOp, imm, truth}
use powdr.Riscv.Runs.{Runs, guarded, last_statement, statement_then}

zero-add : (n : ℕ) → 0 + n ≡ n
zero-add n = omega arith

factor-le : (k : ℕ) → k ≤ 16 → 2 ^ k ≤ 2 ^ 16
factor-le k h = pow-le-pow_right {n = 2} (omega arith) h

pow_split : (n : ℕ) → 16 ≤ n → 2 ^ n ≡ 2 ^ 16 * 2 ^ (n - 16)
pow_split n h = let e : n ≡ 16 + (n - 16) = omega arith in ap (λ k. 2 ^ k) e ∙ pow_add 2 16 (n - 16)

two_shifts : (x n : ℕ) → 16 ≤ n → x * 2 ^ 16 % 2 ^ 32 * 2 ^ (n - 16) % 2 ^ 32 ≡ x * 2 ^ n % 2 ^ 32
two_shifts x n h =
    let e : 2 ^ n ≡ 2 ^ 16 * 2 ^ (n - 16) = pow_split n h in
    mod-mul_left (x * 2 ^ 16) (2 ^ (n - 16)) (2 ^ 32) ∙ rw e (omega arith)

module _ (prog : Program) (rd r1 : Register) (ld : rd < 32) (l1 : r1 < 32) (c : Core)
    (ready : IsReady c) (x n : ℕ) (hx : At c r1 (pos x)) (lx : x < 2 ^ 32) where
  one :
      (s : Statement) {v v' : ℕ}
      → v ≡ v'
      → Does (run_statement prog s) c none (with_reg rd (word v) c)
      → Runs prog (only_if_no_write_to_zero rd s) c rd v'
  unfolding only_if_no_write_to_zero
  one s {v} {v'} e h =
      rw (sym e) (guarded prog (s ∷ []) c rd v (λ _. last_statement prog s c rd v h))

  pub addi-Runs :
      n < 2 ^ 32
      → Runs prog
          (only_if_no_write_to_zero rd (stm Instruction.add_wrap (r1 ∷ 0 ∷ n ∷ rd ∷ [])))
          c
          rd
          (imm ImmOp.addi x n)
  unfolding imm
  addi-Runs ln = one _ (omega arith) (
      add_wrap-Does prog c ready r1 0 rd (omega arith) (omega arith) (omega arith) x 0 n hx
        (At-zero c) lx (omega arith) ln)

  pub xori-Runs :
      n < 2 ^ 32
      → Runs prog
          (only_if_no_write_to_zero rd (stm Instruction.xor (r1 ∷ 0 ∷ n ∷ rd ∷ [])))
          c
          rd
          (imm ImmOp.xori x n)
  unfolding imm binary_result
  xori-Runs ln = one _ (rw (zero-add n) refl) (
      xor-Does prog c ready r1 0 rd (omega arith) (omega arith) (omega arith) x 0 n hx (At-zero c)
        lx (omega arith))

  pub andi-Runs :
      n < 2 ^ 32
      → Runs prog
          (only_if_no_write_to_zero rd (stm Instruction.and_ (r1 ∷ 0 ∷ n ∷ rd ∷ [])))
          c
          rd
          (imm ImmOp.andi x n)
  unfolding imm binary_result
  andi-Runs ln = one _ (rw (zero-add n) refl) (
      and-Does prog c ready r1 0 rd (omega arith) (omega arith) (omega arith) x 0 n hx (At-zero c)
        lx (omega arith))

  pub ori-Runs :
      n < 2 ^ 32
      → Runs prog
          (only_if_no_write_to_zero rd (stm Instruction.or_ (r1 ∷ 0 ∷ n ∷ rd ∷ [])))
          c
          rd
          (imm ImmOp.ori x n)
  unfolding imm binary_result
  ori-Runs ln = one _ (rw (zero-add n) refl) (
      or-Does prog c ready r1 0 rd (omega arith) (omega arith) (omega arith) x 0 n hx (At-zero c) lx
        (omega arith))

  pub srli-Runs :
      n < 32
      → Runs prog
          (only_if_no_write_to_zero rd (stm Instruction.shr (r1 ∷ 0 ∷ n ∷ rd ∷ [])))
          c
          rd
          (imm ImmOp.srli x n)
  unfolding imm shift_result
  srli-Runs ln = one _ refl (
      shr-Does prog c ready r1 0 rd (omega arith) (omega arith) (omega arith) x 0 n (x / 2 ^ n) hx
        (At-zero c) lx (omega arith) (ground arith))

  flag-ltb : n < 2 ^ 32 → flag (ltb_ℤ (pos 0) (pos 0 -ℤ pos x -ℤ sub_ℕ 0 n)) ≡ truth (ltb x n)
  flag-ltb ln = ground arith

  pub sltiu-Runs :
      n < 2 ^ 32
      → Runs prog
          (only_if_no_write_to_zero rd (
            statement Instruction.is_diff_greater_than
              (number 0 ∷ number r1 ∷ minus (number n) ∷ number rd ∷ [])))
          c
          rd
          (imm ImmOp.sltiu x n)
  unfolding imm eval_expression
  sltiu-Runs ln = one _ (flag-ltb ln) (
      is_diff_greater_than-Does prog c ready 0 r1 rd (omega arith) (omega arith) (omega arith)
        (pos 0) (pos x) (sub_ℕ 0 n) (minus (number n)) (λ regs. ground arith) (At-zero c) hx
        (ground arith) (ground arith))

  flag-slt :
      n < 2 ^ 32
      → flag (ltb_ℤ (pos 0) (pos 0 -ℤ as_i32 x -ℤ (pos 0 -ℤ as_i32 n)))
        ≡ truth (ltb_ℤ (as_i32 x) (as_i32 n))
  flag-slt ln = ground arith

  pub slti-Runs :
      n < 2 ^ 32
      → Runs prog
          (only_if_no_write_to_zero_vec rd (
            stm Instruction.to_signed (r1 ∷ tmp1 ∷ [])
            ∷ statement Instruction.is_diff_greater_than
                (number 0 ∷ number tmp1 ∷ minus (signed (as_i32 n)) ∷ number rd ∷ [])
            ∷ []))
          c
          rd
          (imm ImmOp.slti x n)
  unfolding imm eval_expression
  slti-Runs ln =
      let c1 = with_reg tmp1 (binary (as_i32 x)) c in
      guarded prog _ c rd _ (λ _.
        statement_then prog _ _ c tmp1 rd _ _ (inr (omega arith))
          (to_signed-Does prog c ready r1 tmp1 (omega arith) (omega arith) x hx lx)
          (last_statement prog _ c1 rd _ (
            rw (sym (flag-slt ln)) (
              is_diff_greater_than-Does prog c1 ready 0 tmp1 rd (omega arith) (omega arith)
                (omega arith) (pos 0) (as_i32 x) (pos 0 -ℤ as_i32 n) (minus (signed (as_i32 n)))
                (λ regs. ground arith) (At-zero c1) (At-write_self c tmp1 _ (omega arith))
                (ground arith) (ground arith)))))

  pub slli-Runs :
      n < 32
      → Runs prog
          (only_if_no_write_to_zero_vec rd (
            if leb n 16
            then stm Instruction.wrap16 (r1 ∷ 2 ^ n ∷ rd ∷ []) ∷ []
            else stm Instruction.wrap16 (r1 ∷ 2 ^ 16 ∷ tmp1 ∷ [])
              ∷ stm Instruction.wrap16 (tmp1 ∷ 2 ^ (n - 16) ∷ rd ∷ [])
              ∷ []))
          c
          rd
          (imm ImmOp.slli x n)
  unfolding imm
  slli-Runs ln = elim (Bool-cases (leb n 16)) [
    | inl e ↦ rw e (
        guarded prog _ c rd _ (λ _. last_statement prog _ c rd _ (
          wrap16-Does prog c ready r1 rd (omega arith) (omega arith) x (2 ^ n) hx lx
            (factor-le n (ground arith)))))
    | inr e ↦ rw e (
        guarded prog _ c rd _ (λ _.
          statement_then prog _ _ c tmp1 rd _ _ (inr (omega arith))
            (wrap16-Does prog c ready r1 tmp1 (omega arith) (omega arith) x (2 ^ 16) hx lx
              (omega arith))
            (last_statement prog _ (with_reg tmp1 (word (x * 2 ^ 16 % 2 ^ 32)) c) rd _ (
              rw (sym (two_shifts x n (ground arith))) (
                wrap16-Does prog (with_reg tmp1 (word (x * 2 ^ 16 % 2 ^ 32)) c) ready tmp1 rd
                  (omega arith) (omega arith) (x * 2 ^ 16 % 2 ^ 32) (2 ^ (n - 16))
                  (At-write_self c tmp1 _ (omega arith)) (omega arith)
                  (factor-le (n - 16) (ground arith)))))))
  ]
