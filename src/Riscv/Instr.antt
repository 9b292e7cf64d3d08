-- ===== src/Riscv/Instr.antt =====
-- riscv/src/code_gen.rs and riscv/src/large_field/code_gen.rs: registers, and the instructions that
-- `process_instruction` matches on, with the arguments that its arms take from `InstructionArgs`.
use powdr.Prelude.{ℕ, Bool, ◌==◌}

-- `Register::value`; the x registers are 0 to 31.
abbrev pub Register : Type 0
Register = ℕ

unfoldable pub is_zero_register : Register → Bool
is_zero_register r = r == 0

-- `Register::from("tmp1")` to `Register::from("tmp4")` and `Register::from("lr_sc_reservation")`
abbrev pub tmp1 : Register
tmp1 = 32

abbrev pub tmp2 : Register
tmp2 = 33

abbrev pub tmp3 : Register
tmp3 = 34

abbrev pub tmp4 : Register
tmp4 = 35

abbrev pub lr_sc_reservation : Register
lr_sc_reservation = 36

-- An immediate is a u32, a label a number.
pub data RiscvInstr : Type 0 where
  li_label : Register → ℕ → RiscvInstr
  li lui : Register → ℕ → RiscvInstr
  mv neg not_ seqz snez sgtz : Register → Register → RiscvInstr
  add sub mul mulhu mulh mulhsu divu remu : Register → Register → Register → RiscvInstr
  xor and_ or_ sll srl sra slt sltu : Register → Register → Register → RiscvInstr
  addi xori andi ori slli srli srai slti sltiu : Register → Register → ℕ → RiscvInstr
  beq bgeu bltu blt bge bne : Register → Register → ℕ → RiscvInstr
  beqz bgez bltz blez bgtz bnez : Register → ℕ → RiscvInstr
  j jal_label call : ℕ → RiscvInstr
  jr jalr_register : Register → RiscvInstr
  jal : Register → ℕ → RiscvInstr
  jalr : Register → Register → ℕ → RiscvInstr
  ecall ebreak ret fence nop unimp : RiscvInstr
  lw lb lbu lh lhu sw sh sb : Register → Register → ℕ → RiscvInstr
  amoadd sc : Register → Register → Register → RiscvInstr
  lr : Register → Register → RiscvInstr
