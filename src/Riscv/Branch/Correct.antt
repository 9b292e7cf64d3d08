-- ===== src/Riscv/Branch/Correct.antt =====
-- What the code generated for the conditional branches does.
use powdr.Prelude.{
  ℕ, ◌^◌, ◌<◌, ◌≡◌, refl, Bool, true, false, not, ◌==◌, List, [], ◌∷◌, Option, some, arith,
  if◌then◌else◌,
}
use powdr.Prelude.Int.{pos, negsuc, as_i32, ◌-ℤ◌}
use powdr.Executor.Elem.{Elem, binary, is_zero}
use powdr.Executor.State.{State, Core, outcome}
use powdr.Executor.Proc.{read_reg}
use powdr.Executor.Names.{Instruction}
use powdr.Executor.Run.{Program, Statement, eval_expression, number, minus}
use powdr.Executor.Laws.{word, with_reg, Holds}
use powdr.Executor.Laws.Jump.{jump_to, StartsAt}
use powdr.Riscv.Instr.{Register, RiscvInstr, tmp1, tmp2}
use powdr.Riscv.Asm.{stm}
use powdr.Riscv.CodeGen.{process_instruction}
use powdr.Riscv.Sequence.{IsReady}
use powdr.Riscv.Sequence.Statements.{At, At-write_ne, At-write_self}
use powdr.Riscv.Sequence.Unary.{to_signed-Does}
use powdr.Riscv.Spec.{run_instruction}
use powdr.Riscv.Branch.{
  BranchOp, taken, branch_instr, branched, Branches, last_branch, then_branch, equal-Does,
  nonzero-Does, greater-Does,
}

flip :
    (b : Bool) (target line : ℕ) (c : Core)
    → branched (not b) target line c ≡ (if b then c else jump_to target line c)
flip true target line c = refl
flip false target line c = refl

module _ (prog : Program) (handler target line l : ℕ) (lt : target < 2 ^ 32)
    (label_l : prog.labels l ≡ word target) (c : Core) (ready : IsReady c)
    (starts : StartsAt c target line) (r1 r2 : Register) (l1 : r1 < 32) (l2 : r2 < 32) (x y : ℕ)
    (hx : At c r1 (pos x)) (hy : At c r2 (pos y)) (lx : x < 2 ^ 32) (ly : y < 2 ^ 32) where
  abbrev Jumps : BranchOp → Type 0
  Jumps op =
      (stms : List Statement) × (process_instruction handler (branch_instr op r1 r2 l) ≡ some stms)
      × (Branches prog stms c (taken op x y) target line)

  -- The signed comparisons read both registers into `tmp1` and `tmp2`.
  abbrev first_signed : Core
  first_signed = with_reg tmp1 (binary (as_i32 x)) c

  abbrev both_signed : Core
  both_signed = with_reg tmp2 (binary (as_i32 y)) first_signed

  signed-then :
      (ss : List Statement) (cond : Bool)
      → Branches prog ss both_signed cond target line
      → Branches prog
          (stm Instruction.to_signed (r1 ∷ tmp1 ∷ [])
            ∷ stm Instruction.to_signed (r2 ∷ tmp2 ∷ [])
            ∷ ss)
          c
          cond
          target
          line
  signed-then ss cond h =
      then_branch prog target line l lt label_l _ _ c tmp1 _ cond (omega arith)
        (to_signed-Does prog c ready r1 tmp1 (omega arith) (omega arith) x hx lx)
        (then_branch prog target line l lt label_l _ _ first_signed tmp2 _ cond (omega arith)
          (to_signed-Does prog first_signed ready r2 tmp2 (omega arith) (omega arith) y
            (At-write_ne c tmp1 r2 _ _ (omega arith) hy) ly)
          h)

  first_read : At both_signed tmp1 (as_i32 x)
  first_read =
      At-write_ne first_signed tmp2 tmp1 _ _ (omega arith) (At-write_self c tmp1 _ (omega arith))

  second_read : At both_signed tmp2 (as_i32 y)
  second_read = At-write_self first_signed tmp2 _ (omega arith)

  equal : is_zero (binary (pos x -ℤ pos y -ℤ pos 0)) ≡ (x == y)
  unfolding is_zero
  equal = ground arith

  unequal : not (is_zero (binary (pos x -ℤ pos y))) ≡ not (x == y)
  unfolding is_zero
  unequal = ground arith

  branch-Jumps : (op : BranchOp) → Jumps op
  unfolding process_instruction taken eval_expression
  branch-Jumps BranchOp.beq = (
    _,
    refl,
    last_branch prog target line l lt label_l _ c equal (
        equal-Does prog target line l lt label_l c ready starts r1 r2 (omega arith) (omega arith)
          (pos x) (pos y) hx hy (ground arith) (ground arith)),
  )
  branch-Jumps BranchOp.bne = (
    _,
    refl,
    last_branch prog target line l lt label_l _ c unequal (
        rw (flip (is_zero (binary (pos x -ℤ pos y))) target line c) (
          nonzero-Does prog target line l lt label_l c ready starts r1 r2 (omega arith)
            (omega arith) (pos x) (pos y) hx hy (ground arith))),
  )
  branch-Jumps BranchOp.bltu = (
    _,
    refl,
    last_branch prog target line l lt label_l _ c (ground arith) (
        greater-Does prog target line l lt label_l c ready starts r2 r1 (omega arith) (omega arith)
          (pos y) (pos x) hy hx (ground arith) (pos 0) (number 0) (λ regs. ground arith)
          (ground arith)),
  )
  branch-Jumps BranchOp.bgeu = (
    _,
    refl,
    last_branch prog target line l lt label_l _ c (ground arith) (
        greater-Does prog target line l lt label_l c ready starts r1 r2 (omega arith) (omega arith)
          (pos x) (pos y) hx hy (ground arith) (negsuc 0) (minus (number 1)) (λ regs. ground arith)
          (ground arith)),
  )
  branch-Jumps BranchOp.blt = (
    _,
    refl,
    signed-then _ _ (
        last_branch prog target line l lt label_l _ both_signed (ground arith) (
          greater-Does prog target line l lt label_l both_signed ready starts tmp2 tmp1
            (omega arith) (omega arith) (as_i32 y) (as_i32 x) second_read first_read (ground arith)
            (pos 0) (number 0) (λ regs. ground arith) (ground arith))),
  )
  branch-Jumps BranchOp.bge = (
    _,
    refl,
    signed-then _ _ (
        last_branch prog target line l lt label_l _ both_signed (ground arith) (
          greater-Does prog target line l lt label_l both_signed ready starts tmp1 tmp2
            (omega arith) (omega arith) (as_i32 x) (as_i32 y) first_read second_read (ground arith)
            (negsuc 0) (minus (number 1)) (λ regs. ground arith) (ground arith))),
  )

-- What a branch leaves: the register memory `last`, whose `r` is as before, and, if it is taken, the
-- target as the next batch and line.
abbrev pub LeavesBranch : Program → ℕ → RiscvInstr → State → Bool → ℕ → ℕ → Register → Type 0
LeavesBranch prog handler i st cond target line r =
    (last : ℕ → Option Elem) × (outcome (run_instruction prog handler i st)
      ≡ some (tt, branched cond target line (record st.core { last = last })))
    × (read_reg last r ≡ read_reg st.core.last r)

-- For beq, bne, bltu, bgeu, blt and bge to a label that stands for a batch below 2^32 beginning at
-- `line`: the emitted statements, run by the executor from any state, in any mode, whose program
-- counter is a 32-bit word and whose registers hold 32-bit words x and y, succeed and keep every x
-- register and the memory; exactly if RV32I takes the branch on x and y, execution goes on at that
-- batch and line, and else the program counters and the line stay.
pub branch_lem :
    (prog : Program) (handler : ℕ) (op : BranchOp) (st : State) (r1 r2 r target line l x y : ℕ)
    → target < 2 ^ 32
    → prog.labels l ≡ word target
    → IsReady st.core
    → StartsAt st.core target line
    → r1 < 32
    → r2 < 32
    → r < 32
    → Holds st r1 (pos x)
    → Holds st r2 (pos y)
    → x < 2 ^ 32
    → y < 2 ^ 32
    → LeavesBranch prog handler (branch_instr op r1 r2 l) st (taken op x y) target line r
unfolding run_instruction
branch_lem prog handler op st r1 r2 r target line l x y lt hl ready starts l1 l2 lr hx hy lx ly =
    let jumps =
      branch-Jumps prog handler target line l lt hl st.core ready starts r1 r2 l1 l2 x y hx hy lx ly
        op in
    (jumps.2.0, rw (jumps.1) (jumps.2.1 st refl), jumps.2.2 r lr)
