-- ===== src/Riscv/Branch.antt =====
-- Conditional branches of RISC-V, and what the statements that branch do.
pub mod Correct
use powdr.Prelude.{
  ℕ, ◌+◌, ◌^◌, ◌<◌, ◌≤◌, ◌≡◌, refl, sym, ap, ◌∙◌, Bool, true, false, not, ◌==◌, ltb, leb, List, [],
  ◌∷◌, Option, none, some, arith, if◌then◌else◌, inr,
}
use powdr.Prelude.Int.{ℤ, pos, negsuc, as_i32, ltb_ℤ, ◌-ℤ◌}
use powdr.Executor.Elem.{Elem, binary, is_zero}
use powdr.Executor.State.{State, Core, outcome}
use powdr.Executor.Proc.{read_reg, write_reg}
use powdr.Executor.Names.{Instruction}
use powdr.Executor.Dispatch.{arm_of}
use powdr.Executor.Run.{
  Program, Statement, Expression, run_statement, eval_arguments, eval_expression, number, minus,
  label,
}
use powdr.Executor.Laws.{word, with_reg, Holds, IsSmall}
use powdr.Executor.Laws.Jump.{jump_to, StartsAt}
use powdr.Executor.Laws.Branch.{
  branch_if_diff_nonzero_lem, branch_if_diff_equal_lem, branch_if_diff_greater_than_lem,
}
use powdr.Riscv.Instr.{Register, RiscvInstr, tmp1, tmp2}
use powdr.Riscv.Asm.{statement, stm}
use powdr.Riscv.CodeGen.{process_instruction}
use powdr.Riscv.Sequence.{
  Does, IsReady, run_block, run_block-nil, run_block-cons, run_statement-Does,
}
use powdr.Riscv.Sequence.Statements.{At, At-write_ne, At-write_self}
use powdr.Riscv.Sequence.Unary.{to_signed-Does}
use powdr.Riscv.Spec.{run_instruction}
use powdr.Riscv.Runs.{read-hidden}

pub data BranchOp : Type 0 where
  beq bne bltu bgeu blt bge : BranchOp

-- Whether the branch is taken, on 32-bit words.
unfoldable pub taken : BranchOp → ℕ → ℕ → Bool
taken BranchOp.beq x y = x == y
taken BranchOp.bne x y = not (x == y)
taken BranchOp.bltu x y = ltb x y
taken BranchOp.bgeu x y = leb y x
taken BranchOp.blt x y = ltb_ℤ (as_i32 x) (as_i32 y)
taken BranchOp.bge x y = not (ltb_ℤ (as_i32 x) (as_i32 y))

abbrev pub branch_instr : BranchOp → Register → Register → ℕ → RiscvInstr
branch_instr BranchOp.beq = RiscvInstr.beq
branch_instr BranchOp.bne = RiscvInstr.bne
branch_instr BranchOp.bltu = RiscvInstr.bltu
branch_instr BranchOp.bgeu = RiscvInstr.bgeu
branch_instr BranchOp.blt = RiscvInstr.blt
branch_instr BranchOp.bge = RiscvInstr.bge

abbrev pub branched : Bool → ℕ → ℕ → Core → Core
branched cond target line c = if cond then jump_to target line c else c

-- The statements branch on `cond`, and keep the x registers.
abbrev pub Branches : Program → List Statement → Core → Bool → ℕ → ℕ → Type 0
Branches prog stms c cond target line =
    (last : ℕ → Option Elem) × (Does (run_block prog stms) c tt
      (branched cond target line (record c { last = last })))
    × ((r : ℕ) → r < 32 → read_reg last r ≡ read_reg c.last r)

module _ (prog : Program) (target line l : ℕ) (lt : target < 2 ^ 32)
    (label_l : prog.labels l ≡ word target) where
  pub last_branch :
      (s : Statement) (c : Core) {k cond : Bool}
      → k ≡ cond
      → Does (run_statement prog s) c none (branched k target line c)
      → Branches prog (s ∷ []) c cond target line
  last_branch s c {k} {cond} e h =
      rw (sym e) (c.last, run_block-cons prog s [] h (run_block-nil prog _), λ r b. refl)

  pub then_branch :
      (s : Statement) (ss : List Statement) (c : Core) (w : Register) (a : Elem) (cond : Bool)
      → 32 ≤ w
      → Does (run_statement prog s) c none (with_reg w a c)
      → Branches prog ss (with_reg w a c) cond target line
      → Branches prog (s ∷ ss) c cond target line
  then_branch s ss c w a cond hw h (last, run, reads) =
      (last, run_block-cons prog s ss h run, λ r b. reads r b ∙ read-hidden c.last w r a hw b)

  module _ (c : Core) (ready : IsReady c) (starts : StartsAt c target line) (r1 r2 : Register)
      (l1 : r1 < 256) (l2 : r2 < 256) (x y : ℤ) (hx : At c r1 x) (hy : At c r2 y)
      (s1 : IsSmall (x -ℤ y)) where
    pub equal-Does :
        IsSmall (x -ℤ y -ℤ pos 0)
        → Does
            (run_statement prog (
              statement Instruction.branch_if_diff_equal
                (number r1 ∷ number r2 ∷ number 0 ∷ label l ∷ [])))
            c
            none
            (branched (is_zero (binary (x -ℤ y -ℤ pos 0))) target line c)
    unfolding arm_of
    equal-Does s2 =
        run_statement-Does prog _ (word r1 ∷ word r2 ∷ word 0 ∷ word target ∷ []) ready
          (λ regs. unfold eval_arguments eval_expression in ground (arith, label_l))
          (λ st e.
            branch_if_diff_equal_lem st r1 r2 target line l1 l2 lt (rw e starts) x y (pos 0)
              (rw e hx) (rw e hy) s1 s2
            ∙ ap
                (λ (k : Core).
                  some (none, branched (is_zero (binary (x -ℤ y -ℤ pos 0))) target line k))
                e)

    pub nonzero-Does :
        Does
          (run_statement prog
            (statement Instruction.branch_if_diff_nonzero (number r1 ∷ number r2 ∷ label l ∷ [])))
          c
          none
          (if is_zero (binary (x -ℤ y)) then c else jump_to target line c)
    unfolding arm_of
    nonzero-Does =
        run_statement-Does prog _ (word r1 ∷ word r2 ∷ word target ∷ []) ready
          (λ regs. unfold eval_arguments eval_expression in ground (arith, label_l))
          (λ st e.
            branch_if_diff_nonzero_lem st r1 r2 target line l1 l2 lt (rw e starts) x y (rw e hx)
              (rw e hy) s1
            ∙ ap
                (λ (k : Core).
                  some (none, if is_zero (binary (x -ℤ y)) then k else jump_to target line k))
                e)

    pub greater-Does :
        (o : ℤ) (offset : Expression)
        → ((regs : ℕ → Option Elem) → eval_expression prog.labels regs offset ≡ some (binary o))
        → IsSmall (x -ℤ y -ℤ o)
        → Does
            (run_statement prog (
              statement Instruction.branch_if_diff_greater_than
                (number r1 ∷ number r2 ∷ offset ∷ label l ∷ [])))
            c
            none
            (branched (ltb_ℤ (pos 0) (x -ℤ y -ℤ o)) target line c)
    unfolding arm_of
    greater-Does o offset ev s2 =
        run_statement-Does prog _ (word r1 ∷ word r2 ∷ binary o ∷ word target ∷ []) ready
          (λ regs. unfold eval_arguments eval_expression in ground (arith, ev regs, label_l))
          (λ st e.
            branch_if_diff_greater_than_lem st r1 r2 target line l1 l2 lt (rw e starts) x y o
              (rw e hx) (rw e hy) s1 s2
            ∙ ap (λ (k : Core). some (none, branched (ltb_ℤ (pos 0) (x -ℤ y -ℤ o)) target line k))
                e)
