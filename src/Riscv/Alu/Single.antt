-- ===== src/Riscv/Alu/Single.antt =====
-- Instructions of one statement.
use powdr.Prelude.{ℕ, ◌+◌, ◌-◌, ◌*◌, ◌^◌, ◌%◌, ◌/◌, ◌<◌, ◌≤◌, ◌≡◌, refl, sym, [], ◌∷◌, none, arith}
use native.Mathlib.Nat.{mul-le-mul}
use powdr.Prelude.Int.{pos}
use powdr.Executor.State.{Core}
use powdr.Executor.Proc.{write_reg}
use powdr.Executor.Names.{Instruction}
use powdr.Executor.Instr.Arith.{div_word, rem_word}
use powdr.Executor.Instr.Bitwise.{binary_result}
use powdr.Executor.Run.{Program, Statement, run_statement}
use powdr.Executor.Laws.{word, with_reg}
use powdr.Riscv.Instr.{Register, tmp1}
use powdr.Riscv.Asm.{only_if_no_write_to_zero, stm}
use powdr.Riscv.Sequence.{Does, IsReady, run_block-nil, run_block-cons, read-write}
use powdr.Riscv.Sequence.Statements.{
  At, add_wrap-Does, sub_wrap-Does, and-Does, or-Does, xor-Does, divremu-Does, mul-Does,
}
use powdr.Riscv.Spec.{AluOp, alu}
use powdr.Riscv.Runs.{Runs, guarded, last_statement}

add_zero : (n : ℕ) → n + 0 ≡ n
add_zero n = omega arith

high_word : (x y : ℕ) → x < 2 ^ 32 → y < 2 ^ 32 → x * y / 2 ^ 32 % 2 ^ 32 ≡ x * y / 2 ^ 32
high_word x y lx ly =
    let h : x * y ≤ (2 ^ 32 - 1) * (2 ^ 32 - 1) =
      mul-le-mul {n₂ = 2 ^ 32 - 1} {m₂ = 2 ^ 32 - 1} (omega arith) (omega arith) in
    omega arith

module _ (prog : Program) (c : Core) (ready : IsReady c) (rd r1 r2 : Register) (ld : rd < 32)
    (l1 : r1 < 32) (l2 : r2 < 32) (x : ℕ) (hx : At c r1 (pos x)) (lx : x < 2 ^ 32) where
  one :
      (s : Statement) {v v' : ℕ}
      → v ≡ v'
      → Does (run_statement prog s) c none (with_reg rd (word v) c)
      → Runs prog (only_if_no_write_to_zero rd s) c rd v'
  unfolding only_if_no_write_to_zero
  one s {v} {v'} e h =
      rw (sym e) (guarded prog (s ∷ []) c rd v (λ _. last_statement prog s c rd v h))

  module _ (y : ℕ) (hy : At c r2 (pos y)) (ly : y < 2 ^ 32) where
    pub add-Runs :
        Runs prog
          (only_if_no_write_to_zero rd (stm Instruction.add_wrap (r1 ∷ r2 ∷ 0 ∷ rd ∷ [])))
          c
          rd
          (alu AluOp.add x y)
    unfolding alu
    add-Runs = one _ (omega arith) (
        add_wrap-Does prog c ready r1 r2 rd (omega arith) (omega arith) (omega arith) x y 0 hx hy lx
          ly (omega arith))

    pub sub-Runs :
        Runs prog
          (only_if_no_write_to_zero rd
            (stm Instruction.sub_wrap_with_offset (r1 ∷ r2 ∷ 0 ∷ rd ∷ [])))
          c
          rd
          (alu AluOp.sub x y)
    unfolding alu
    sub-Runs = one _ (omega arith) (
        sub_wrap-Does prog c ready r1 r2 rd (omega arith) (omega arith) (omega arith) x y hx hy lx
          ly)

    pub and-Runs :
        Runs prog
          (only_if_no_write_to_zero rd (stm Instruction.and_ (r1 ∷ r2 ∷ 0 ∷ rd ∷ [])))
          c
          rd
          (alu AluOp.and_ x y)
    unfolding alu binary_result
    and-Runs = one _ (rw (add_zero y) refl) (
        and-Does prog c ready r1 r2 rd (omega arith) (omega arith) (omega arith) x y 0 hx hy lx
          (omega arith))

    pub or-Runs :
        Runs prog
          (only_if_no_write_to_zero rd (stm Instruction.or_ (r1 ∷ r2 ∷ 0 ∷ rd ∷ [])))
          c
          rd
          (alu AluOp.or_ x y)
    unfolding alu binary_result
    or-Runs = one _ (rw (add_zero y) refl) (
        or-Does prog c ready r1 r2 rd (omega arith) (omega arith) (omega arith) x y 0 hx hy lx
          (omega arith))

    pub xor-Runs :
        Runs prog
          (only_if_no_write_to_zero rd (stm Instruction.xor (r1 ∷ r2 ∷ 0 ∷ rd ∷ [])))
          c
          rd
          (alu AluOp.xor x y)
    unfolding alu binary_result
    xor-Runs = one _ (rw (add_zero y) refl) (
        xor-Does prog c ready r1 r2 rd (omega arith) (omega arith) (omega arith) x y 0 hx hy lx
          (omega arith))

    -- A statement with a second result, in `tmp1`.
    two_fst :
        (s : Statement) (b : ℕ) {v v' : ℕ}
        → v ≡ v'
        → Does (run_statement prog s) c none (with_reg tmp1 (word b) (with_reg rd (word v) c))
        → Runs prog (only_if_no_write_to_zero rd s) c rd v'
    unfolding only_if_no_write_to_zero
    two_fst s b {v} {v'} e h = rw (sym e) (
        guarded prog (s ∷ []) c rd v (λ ne. (
          _,
          run_block-cons prog s [] h (run_block-nil prog _),
          λ r l. ground (
            arith,
            read-write c.last rd r (word v),
            read-write (write_reg rd (word v) c.last) tmp1 r (word b),
          ),
        )))

    two_snd :
        (s : Statement) (b : ℕ) {v v' : ℕ}
        → v ≡ v'
        → Does (run_statement prog s) c none (with_reg rd (word v) (with_reg tmp1 (word b) c))
        → Runs prog (only_if_no_write_to_zero rd s) c rd v'
    unfolding only_if_no_write_to_zero
    two_snd s b {v} {v'} e h = rw (sym e) (
        guarded prog (s ∷ []) c rd v (λ ne. (
          _,
          run_block-cons prog s [] h (run_block-nil prog _),
          λ r l. ground (
            arith,
            read-write c.last tmp1 r (word b),
            read-write (write_reg tmp1 (word b) c.last) rd r (word v),
          ),
        )))

    pub divu-Runs :
        Runs prog
          (only_if_no_write_to_zero rd (stm Instruction.divremu (r1 ∷ r2 ∷ rd ∷ tmp1 ∷ [])))
          c
          rd
          (alu AluOp.divu x y)
    unfolding alu div_word
    divu-Runs = two_fst _ _ (ground arith) (
        divremu-Does prog c ready r1 r2 rd (omega arith) (omega arith) (omega arith) tmp1
          (omega arith) x y hx hy lx ly)

    pub remu-Runs :
        Runs prog
          (only_if_no_write_to_zero rd (stm Instruction.divremu (r1 ∷ r2 ∷ tmp1 ∷ rd ∷ [])))
          c
          rd
          (alu AluOp.remu x y)
    unfolding alu rem_word
    remu-Runs = two_snd _ _ (ground arith) (
        divremu-Does prog c ready r1 r2 tmp1 (omega arith) (omega arith) (omega arith) rd
          (omega arith) x y hx hy lx ly)

    pub mul-Runs :
        Runs prog
          (only_if_no_write_to_zero rd (stm Instruction.mul (r1 ∷ r2 ∷ rd ∷ tmp1 ∷ [])))
          c
          rd
          (alu AluOp.mul x y)
    unfolding alu
    mul-Runs = two_fst _ _ refl (
        mul-Does prog c ready r1 r2 rd (omega arith) (omega arith) (omega arith) tmp1 (omega arith)
          x y hx hy lx ly)

    pub mulhu-Runs :
        Runs prog
          (only_if_no_write_to_zero rd (stm Instruction.mul (r1 ∷ r2 ∷ tmp1 ∷ rd ∷ [])))
          c
          rd
          (alu AluOp.mulhu x y)
    unfolding alu
    mulhu-Runs = two_snd _ _ (high_word x y lx ly) (
        mul-Does prog c ready r1 r2 tmp1 (omega arith) (omega arith) (omega arith) rd (omega arith)
          x y hx hy lx ly)
