-- ===== src/Riscv/Alu/Correct.antt =====
-- The code generated for the computing instructions computes what RISC-V prescribes.
use powdr.Prelude.{ℕ, ◌^◌, ◌<◌, ◌≡◌, refl, true, arith, List, Option, some, leb}
use powdr.Prelude.Int.{pos}
use powdr.Executor.Elem.{Elem}
use powdr.Executor.State.{State, Core, outcome}
use powdr.Executor.Proc.{read_reg}
use powdr.Executor.Run.{Program, Statement}
use powdr.Executor.Laws.{Holds}
use powdr.Riscv.Instr.{Register, RiscvInstr}
use powdr.Riscv.CodeGen.{process_instruction}
use powdr.Riscv.Sequence.{IsReady}
use powdr.Riscv.Sequence.Statements.{At}
use powdr.Riscv.Spec.{
  AluOp, alu, alu_instr, ImmOp, imm, imm_instr, imm_bound, expected, run_instruction,
}
use powdr.Riscv.Runs.{Runs}
use powdr.Riscv.Alu.Single.{
  add-Runs, sub-Runs, mul-Runs, mulhu-Runs, divu-Runs, remu-Runs, xor-Runs, and-Runs, or-Runs,
}
use powdr.Riscv.Alu.Shift.{sll-Runs, srl-Runs}
use powdr.Riscv.Alu.ShiftRight.{sra-Runs, srai-Runs}
use powdr.Riscv.Alu.Compare.{slt-Runs, sltu-Runs}
use powdr.Riscv.Alu.Immediate.{
  addi-Runs, xori-Runs, andi-Runs, ori-Runs, slli-Runs, srli-Runs, slti-Runs, sltiu-Runs,
}

-- The code of an instruction sets `rd` to `v`.
abbrev pub Generates : Program → ℕ → RiscvInstr → Core → Register → ℕ → Type 0
Generates prog handler i c rd v =
    (stms : List Statement) × (process_instruction handler i ≡ some stms) × (Runs prog stms c rd v)

alu-Generates :
    (prog : Program) (handler : ℕ) (op : AluOp) (c : Core)
    → IsReady c
    → (rd r1 r2 : Register) → rd < 32
    → r1 < 32
    → r2 < 32
    → (x y : ℕ) → At c r1 (pos x)
    → At c r2 (pos y)
    → x < 2 ^ 32
    → y < 2 ^ 32
    → Generates prog handler (alu_instr op rd r1 r2) c rd (alu op x y)
unfolding process_instruction
alu-Generates prog handler AluOp.add c ready rd r1 r2 ld l1 l2 x y hx hy lx ly =
    (_, refl, add-Runs prog c ready rd r1 r2 ld l1 l2 x hx lx y hy ly)
alu-Generates prog handler AluOp.sub c ready rd r1 r2 ld l1 l2 x y hx hy lx ly =
    (_, refl, sub-Runs prog c ready rd r1 r2 ld l1 l2 x hx lx y hy ly)
alu-Generates prog handler AluOp.mul c ready rd r1 r2 ld l1 l2 x y hx hy lx ly =
    (_, refl, mul-Runs prog c ready rd r1 r2 ld l1 l2 x hx lx y hy ly)
alu-Generates prog handler AluOp.mulhu c ready rd r1 r2 ld l1 l2 x y hx hy lx ly =
    (_, refl, mulhu-Runs prog c ready rd r1 r2 ld l1 l2 x hx lx y hy ly)
alu-Generates prog handler AluOp.divu c ready rd r1 r2 ld l1 l2 x y hx hy lx ly =
    (_, refl, divu-Runs prog c ready rd r1 r2 ld l1 l2 x hx lx y hy ly)
alu-Generates prog handler AluOp.remu c ready rd r1 r2 ld l1 l2 x y hx hy lx ly =
    (_, refl, remu-Runs prog c ready rd r1 r2 ld l1 l2 x hx lx y hy ly)
alu-Generates prog handler AluOp.xor c ready rd r1 r2 ld l1 l2 x y hx hy lx ly =
    (_, refl, xor-Runs prog c ready rd r1 r2 ld l1 l2 x hx lx y hy ly)
alu-Generates prog handler AluOp.and_ c ready rd r1 r2 ld l1 l2 x y hx hy lx ly =
    (_, refl, and-Runs prog c ready rd r1 r2 ld l1 l2 x hx lx y hy ly)
alu-Generates prog handler AluOp.or_ c ready rd r1 r2 ld l1 l2 x y hx hy lx ly =
    (_, refl, or-Runs prog c ready rd r1 r2 ld l1 l2 x hx lx y hy ly)
alu-Generates prog handler AluOp.sll c ready rd r1 r2 ld l1 l2 x y hx hy lx ly =
    (_, refl, sll-Runs prog rd r1 r2 ld l1 l2 c ready x y hx hy lx ly)
alu-Generates prog handler AluOp.srl c ready rd r1 r2 ld l1 l2 x y hx hy lx ly =
    (_, refl, srl-Runs prog rd r1 r2 ld l1 l2 c ready x y hx hy lx ly)
alu-Generates prog handler AluOp.sra c ready rd r1 r2 ld l1 l2 x y hx hy lx ly =
    (_, refl, sra-Runs prog rd r1 r2 ld l1 l2 c ready x hx lx y hy ly)
alu-Generates prog handler AluOp.slt c ready rd r1 r2 ld l1 l2 x y hx hy lx ly =
    (_, refl, slt-Runs prog rd r1 r2 ld l1 l2 c ready x y hx hy lx ly)
alu-Generates prog handler AluOp.sltu c ready rd r1 r2 ld l1 l2 x y hx hy lx ly =
    (_, refl, sltu-Runs prog rd r1 r2 ld l1 l2 c ready x y hx hy lx ly)

imm-Generates :
    (prog : Program) (handler : ℕ) (op : ImmOp) (c : Core)
    → IsReady c
    → (rd r1 : Register) → rd < 32
    → r1 < 32
    → (x n : ℕ) → At c r1 (pos x)
    → x < 2 ^ 32
    → n < imm_bound op
    → Generates prog handler (imm_instr op rd r1 n) c rd (imm op x n)
unfolding process_instruction
imm-Generates prog handler ImmOp.addi c ready rd r1 ld l1 x n hx lx ln =
    (_, refl, addi-Runs prog rd r1 ld l1 c ready x n hx lx ln)
imm-Generates prog handler ImmOp.xori c ready rd r1 ld l1 x n hx lx ln =
    (_, refl, xori-Runs prog rd r1 ld l1 c ready x n hx lx ln)
imm-Generates prog handler ImmOp.andi c ready rd r1 ld l1 x n hx lx ln =
    (_, refl, andi-Runs prog rd r1 ld l1 c ready x n hx lx ln)
imm-Generates prog handler ImmOp.ori c ready rd r1 ld l1 x n hx lx ln =
    (_, refl, ori-Runs prog rd r1 ld l1 c ready x n hx lx ln)
imm-Generates prog handler ImmOp.slli c ready rd r1 ld l1 x n hx lx ln =
    let e : leb n 31 ≡ true = ground arith in
    (_, rw e refl, slli-Runs prog rd r1 ld l1 c ready x n hx lx ln)
imm-Generates prog handler ImmOp.srli c ready rd r1 ld l1 x n hx lx ln =
    let e : leb n 31 ≡ true = ground arith in
    (_, rw e refl, srli-Runs prog rd r1 ld l1 c ready x n hx lx ln)
imm-Generates prog handler ImmOp.srai c ready rd r1 ld l1 x n hx lx ln =
    let e : leb n 31 ≡ true = ground arith in
    (_, rw e refl, srai-Runs prog rd r1 r1 ld l1 l1 c ready x hx lx n ln)
imm-Generates prog handler ImmOp.slti c ready rd r1 ld l1 x n hx lx ln =
    (_, refl, slti-Runs prog rd r1 ld l1 c ready x n hx lx ln)
imm-Generates prog handler ImmOp.sltiu c ready rd r1 ld l1 x n hx lx ln =
    (_, refl, sltiu-Runs prog rd r1 ld l1 c ready x n hx lx ln)

-- What a run leaves: the register memory `last`, whose `r` is as expected, and all else as it was.
abbrev pub Leaves : Program → ℕ → RiscvInstr → State → Register → ℕ → Register → Type 0
Leaves prog handler i st rd v r =
    (last : ℕ → Option Elem) × (outcome (run_instruction prog handler i st)
      ≡ some (tt, record st.core { last = last }))
    × (read_reg last r ≡ expected st.core.last rd v r)

pub generated :
    (prog : Program) (handler : ℕ) (i : RiscvInstr) (st : State) (rd : Register) (v : ℕ)
    (r : Register)
    → r < 32
    → Generates prog handler i st.core rd v
    → Leaves prog handler i st rd v r
unfolding run_instruction
generated prog handler i st rd v r l (stms, e, (last, run, reads)) =
    (last, rw e (run st refl), reads r l)

-- For add, sub, mul, mulhu, divu, remu, xor, and, or, sll, srl, sra, slt and sltu: the statements
-- that the code generator emits, run one after the other by the executor from any state, in any
-- mode, whose program counter is a 32-bit word and whose source registers hold 32-bit words x and
-- y, succeed; they set rd (unless it is x0) to the result that RV32IM prescribes for x and y, keep
-- every other x register, and change no memory, program counter or line.
pub alu_lem :
    (prog : Program) (handler : ℕ) (op : AluOp) (st : State) (rd r1 r2 r : Register) (x y : ℕ)
    → IsReady st.core
    → rd < 32
    → r1 < 32
    → r2 < 32
    → r < 32
    → Holds st r1 (pos x)
    → Holds st r2 (pos y)
    → x < 2 ^ 32
    → y < 2 ^ 32
    → Leaves prog handler (alu_instr op rd r1 r2) st rd (alu op x y) r
alu_lem prog handler op st rd r1 r2 r x y ready ld l1 l2 l hx hy lx ly =
    generated prog handler _ st rd _ r l
      (alu-Generates prog handler op st.core ready rd r1 r2 ld l1 l2 x y hx hy lx ly)

-- For addi, xori, andi, ori, slli, srli, srai, slti and sltiu with a 32-bit immediate (a shift
-- amount below 32): the emitted statements, run by the executor from any state, in any mode, whose
-- program counter is a 32-bit word and whose source register holds a 32-bit word, succeed, set rd
-- (unless it is x0) to the result that RV32IM prescribes, keep every other x register, and change
-- no memory, program counter or line.
pub imm_lem :
    (prog : Program) (handler : ℕ) (op : ImmOp) (st : State) (rd r1 r : Register) (x n : ℕ)
    → IsReady st.core
    → rd < 32
    → r1 < 32
    → r < 32
    → Holds st r1 (pos x)
    → x < 2 ^ 32
    → n < imm_bound op
    → Leaves prog handler (imm_instr op rd r1 n) st rd (imm op x n) r
imm_lem prog handler op st rd r1 r x n ready ld l1 l hx lx ln =
    generated prog handler _ st rd _ r l
      (imm-Generates prog handler op st.core ready rd r1 ld l1 x n hx lx ln)
