-- ===== src/Riscv/Spec.antt =====
-- The RISC-V instructions that compute a register from registers, as the unprivileged
-- specification of RV32IM describes them on 32-bit words, and what it means that generated code
-- computes one.
use powdr.Prelude.{
  ℕ, ◌+◌, ◌-◌, ◌*◌, ◌^◌, ◌%◌, ◌/◌, Bool, true, false, ◌==◌, ltb, bit_and, bit_or, bit_xor, List,
  Option, none, some, if◌then◌else◌,
}
use powdr.Prelude.Int.{as_i32, as_u32, asr, ltb_ℤ}
use powdr.Executor.Elem.{Elem}
use powdr.Executor.State.{State}
use powdr.Executor.Proc.{read_reg}
use powdr.Executor.Run.{Program, Statement}
use powdr.Executor.Laws.{word}
use powdr.Riscv.Instr.{RiscvInstr, Register}
use powdr.Riscv.CodeGen.{process_instruction}
use powdr.Riscv.Sequence.{run_block}

-- Two register operands.
pub data AluOp : Type 0 where
  add sub mul mulhu divu remu xor and_ or_ sll srl sra slt sltu : AluOp

abbrev pub truth : Bool → ℕ
truth true = 1
truth false = 0

unfoldable pub alu : AluOp → ℕ → ℕ → ℕ
alu AluOp.add x y = (x + y) % 2 ^ 32
alu AluOp.sub x y = (x + 2 ^ 32 - y) % 2 ^ 32
alu AluOp.mul x y = x * y % 2 ^ 32
alu AluOp.mulhu x y = x * y / 2 ^ 32
alu AluOp.divu x y = if y == 0 then 2 ^ 32 - 1 else x / y
alu AluOp.remu x y = if y == 0 then x else x % y
alu AluOp.xor x y = bit_xor x y
alu AluOp.and_ x y = bit_and x y
alu AluOp.or_ x y = bit_or x y
alu AluOp.sll x y = x * 2 ^ (y % 32) % 2 ^ 32
alu AluOp.srl x y = x / 2 ^ (y % 32)
alu AluOp.sra x y = as_u32 (asr (as_i32 x) (y % 32))
alu AluOp.slt x y = truth (ltb_ℤ (as_i32 x) (as_i32 y))
alu AluOp.sltu x y = truth (ltb x y)

abbrev pub alu_instr : AluOp → Register → Register → Register → RiscvInstr
alu_instr AluOp.add = RiscvInstr.add
alu_instr AluOp.sub = RiscvInstr.sub
alu_instr AluOp.mul = RiscvInstr.mul
alu_instr AluOp.mulhu = RiscvInstr.mulhu
alu_instr AluOp.divu = RiscvInstr.divu
alu_instr AluOp.remu = RiscvInstr.remu
alu_instr AluOp.xor = RiscvInstr.xor
alu_instr AluOp.and_ = RiscvInstr.and_
alu_instr AluOp.or_ = RiscvInstr.or_
alu_instr AluOp.sll = RiscvInstr.sll
alu_instr AluOp.srl = RiscvInstr.srl
alu_instr AluOp.sra = RiscvInstr.sra
alu_instr AluOp.slt = RiscvInstr.slt
alu_instr AluOp.sltu = RiscvInstr.sltu

-- One register operand and a 32-bit immediate.
pub data ImmOp : Type 0 where
  addi xori andi ori slli srli srai slti sltiu : ImmOp

unfoldable pub imm : ImmOp → ℕ → ℕ → ℕ
imm ImmOp.addi x n = (x + n) % 2 ^ 32
imm ImmOp.xori x n = bit_xor x n
imm ImmOp.andi x n = bit_and x n
imm ImmOp.ori x n = bit_or x n
imm ImmOp.slli x n = x * 2 ^ n % 2 ^ 32
imm ImmOp.srli x n = x / 2 ^ n
imm ImmOp.srai x n = as_u32 (asr (as_i32 x) n)
imm ImmOp.slti x n = truth (ltb_ℤ (as_i32 x) (as_i32 n))
imm ImmOp.sltiu x n = truth (ltb x n)

abbrev pub imm_instr : ImmOp → Register → Register → ℕ → RiscvInstr
imm_instr ImmOp.addi = RiscvInstr.addi
imm_instr ImmOp.xori = RiscvInstr.xori
imm_instr ImmOp.andi = RiscvInstr.andi
imm_instr ImmOp.ori = RiscvInstr.ori
imm_instr ImmOp.slli = RiscvInstr.slli
imm_instr ImmOp.srli = RiscvInstr.srli
imm_instr ImmOp.srai = RiscvInstr.srai
imm_instr ImmOp.slti = RiscvInstr.slti
imm_instr ImmOp.sltiu = RiscvInstr.sltiu

-- The bound of an immediate: a shift amount has five bits.
abbrev pub imm_bound : ImmOp → ℕ
imm_bound ImmOp.slli = 32
imm_bound ImmOp.srli = 32
imm_bound ImmOp.srai = 32
imm_bound _ = 2 ^ 32

-- The x registers after `rd` was set to `v`, x0 staying zero.
abbrev pub expected : (ℕ → Option Elem) → Register → ℕ → Register → Elem
expected last rd v r = if r == 0 then word 0 else if r == rd then word v else read_reg last r

-- The statements generated for an instruction, run one after the other.
abbrev run_generated : Program → Option (List Statement) → State → Option (Unit {0} × State)
run_generated prog none st = none
run_generated prog (some stms) st = run_block prog stms st

unfoldable pub run_instruction : Program → ℕ → RiscvInstr → State → Option (Unit {0} × State)
run_instruction prog handler i st = run_generated prog (process_instruction handler i) st
