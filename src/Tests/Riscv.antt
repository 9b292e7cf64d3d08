-- ===== src/Tests/Riscv.antt =====
-- The code of single instructions on a concrete machine.
use powdr.Prelude.{◌%◌, ◌^◌, refl, ◌+◌, ◌≡◌, ◌==◌, ◌&&◌, ltb, leb, none, some, arith, if◌then◌else◌}
use powdr.Riscv.Register.{display, from_name, from_name-display}
use powdr.Riscv.Instr.{RiscvInstr}
use powdr.Riscv.Spec.{AluOp, alu, ImmOp, imm}
use powdr.Riscv.Alu.Correct.{alu_lem, imm_lem, Leaves}
use powdr.Riscv.LoadSpec.{LoadOp, loaded}
use powdr.Riscv.Load.{load_lem}
use powdr.Riscv.Branch.{BranchOp, taken}
use powdr.Riscv.Branch.Correct.{branch_lem, LeavesBranch}
use powdr.Tests.Machine.{machine, program, machine-IsReady, reads_5, reads_6, reads_7}

alu_lem_example : Leaves program 0 (RiscvInstr.sra 6 5 7) machine 6 (alu AluOp.sra 0xfffffff0 35) 6
alu_lem_example =
    alu_lem program 0 AluOp.sra machine 6 5 7 6 0xfffffff0 35 machine-IsReady (omega arith)
      (omega arith) (omega arith) (omega arith) reads_5 reads_7 (omega arith) (omega arith)

imm_lem_example :
    Leaves program 0 (RiscvInstr.slti 8 5 100) machine 8 (imm ImmOp.slti 0xfffffff0 100) 8
imm_lem_example =
    imm_lem program 0 ImmOp.slti machine 8 5 8 0xfffffff0 100 machine-IsReady (omega arith)
      (omega arith) (omega arith) reads_5 (omega arith) (omega arith)

from_name-display_example :
    from_name (display 34)
    ≡ (if leb 32 34 && ltb 34 36 then (if 34 == 35 then none else some (34 + 1)) else some 34)
from_name-display_example = from_name-display 34 (omega arith)

load_lem_example :
    Leaves program 0
      (RiscvInstr.lhu 8 6 2)
      machine
      8
      (loaded LoadOp.lhu machine.core ((100 + 2) % 2 ^ 32))
      8
load_lem_example =
    load_lem program 0 LoadOp.lhu machine 8 6 8 100 2 machine-IsReady (omega arith) (omega arith)
      (omega arith) reads_6 (omega arith) (omega arith) refl (omega arith)

branch_lem_example :
    LeavesBranch program 0 (RiscvInstr.blt 5 6 4) machine (taken BranchOp.blt 0xfffffff0 100) 4 12 7
branch_lem_example =
    branch_lem program 0 BranchOp.blt machine 5 6 7 4 12 4 0xfffffff0 100 (omega arith) refl
      machine-IsReady refl (omega arith) (omega arith) (omega arith) reads_5 reads_6 (omega arith)
      (omega arith)
