-- ===== src/Riscv/Sequence/Unary.antt =====
-- What each statement with one source register does.
use powdr.Prelude.{ℕ, ◌+◌, ◌*◌, ◌/◌, ◌^◌, ◌%◌, ◌<◌, ◌≤◌, [], ◌∷◌, none, arith}
use powdr.Prelude.Int.{ℤ, pos, as_i32, ◌+ℤ◌, ◌*ℤ◌}
use powdr.Executor.Elem.{binary, is_zero}
use powdr.Executor.Names.{Instruction}
use powdr.Executor.State.{Core}
use powdr.Executor.Dispatch.{arm_of}
use powdr.Executor.Run.{Program, run_statement}
use powdr.Executor.Laws.{word, with_reg, IsSmall}
use powdr.Executor.Laws.Words.{wrap16_lem}
use powdr.Executor.Laws.Arith.{
  affine_lem, to_signed_lem, set_reg_lem, sign_extend_byte_lem, sign_extend_16_bits_lem,
}
use powdr.Executor.Laws.Compare.{is_equal_zero_lem}
use powdr.Executor.Instr.Compare.{flag}
use powdr.Executor.Instr.Extend.{extend_byte, extend_16}
use powdr.Executor.Laws.Memory.{mload_lem, load_word}
use powdr.Riscv.Asm.{stm}
use powdr.Riscv.Sequence.{Does, IsReady}
use powdr.Riscv.Sequence.Statements.{At, stm-Does}

module _ (prog : Program) (c : Core) (ready : IsReady c) where
  module _ (r w : ℕ) (h : r < 256) (hw : w < 256) where
    pub to_signed-Does :
        (x : ℕ)
        → At c r (pos x)
        → x < 2 ^ 32
        → Does
            (run_statement prog (stm Instruction.to_signed (r ∷ w ∷ [])))
            c
            none
            (with_reg w (binary (as_i32 x)) c)
    unfolding arm_of
    to_signed-Does x hx lx =
        stm-Does prog c ready Instruction.to_signed (r ∷ w ∷ []) (with_reg w _) (omega arith)
          (λ st e. to_signed_lem st r w h hw x (rw e hx) lx)

    pub sign_extend_byte-Does :
        (x : ℕ)
        → At c r (pos x)
        → x < 2 ^ 32
        → Does
            (run_statement prog (stm Instruction.sign_extend_byte (r ∷ w ∷ [])))
            c
            none
            (with_reg w (word (extend_byte x)) c)
    unfolding arm_of
    sign_extend_byte-Does x hx lx =
        stm-Does prog c ready Instruction.sign_extend_byte (r ∷ w ∷ []) (with_reg w _) (omega arith)
          (λ st e. sign_extend_byte_lem st r w h hw x (rw e hx) lx)

    pub sign_extend_16_bits-Does :
        (x : ℕ)
        → At c r (pos x)
        → x < 2 ^ 32
        → Does
            (run_statement prog (stm Instruction.sign_extend_16_bits (r ∷ w ∷ [])))
            c
            none
            (with_reg w (word (extend_16 x)) c)
    unfolding arm_of
    sign_extend_16_bits-Does x hx lx =
        stm-Does prog c ready Instruction.sign_extend_16_bits (r ∷ w ∷ []) (with_reg w _)
          (omega arith) (λ st e. sign_extend_16_bits_lem st r w h hw x (rw e hx) lx)

    pub wrap16-Does :
        (x f : ℕ)
        → At c r (pos x)
        → x < 2 ^ 32
        → f ≤ 2 ^ 16
        → Does
            (run_statement prog (stm Instruction.wrap16 (r ∷ f ∷ w ∷ [])))
            c
            none
            (with_reg w (word (x * f % 2 ^ 32)) c)
    unfolding arm_of
    wrap16-Does x f hx lx lf =
        stm-Does prog c ready Instruction.wrap16 (r ∷ f ∷ w ∷ []) (with_reg w _) (omega arith)
          (λ st e. wrap16_lem st r w h hw x f (rw e hx) lx lf)

    pub affine-Does :
        (x : ℤ) (f o : ℕ)
        → At c r x
        → f < 2 ^ 32
        → o < 2 ^ 32
        → IsSmall (x *ℤ pos f)
        → IsSmall (x *ℤ pos f +ℤ pos o)
        → Does
            (run_statement prog (stm Instruction.affine (r ∷ w ∷ f ∷ o ∷ [])))
            c
            none
            (with_reg w (binary (x *ℤ pos f +ℤ pos o)) c)
    unfolding arm_of
    affine-Does x f o hx lf lo s1 s2 =
        stm-Does prog c ready Instruction.affine (r ∷ w ∷ f ∷ o ∷ []) (with_reg w _) (omega arith)
          (λ st e. affine_lem st r w h hw x (pos f) (pos o) (rw e hx) s1 s2)

    pub is_equal_zero-Does :
        (x : ℤ)
        → At c r x
        → IsSmall x
        → Does
            (run_statement prog (stm Instruction.is_equal_zero (r ∷ w ∷ [])))
            c
            none
            (with_reg w (word (flag (is_zero (binary x)))) c)
    unfolding arm_of
    is_equal_zero-Does x hx s1 =
        stm-Does prog c ready Instruction.is_equal_zero (r ∷ w ∷ []) (with_reg w _) (omega arith)
          (λ st e. is_equal_zero_lem st r w h hw x (rw e hx) s1)

    pub set_reg-Does :
        (v : ℕ)
        → v < 2 ^ 32
        → Does
            (run_statement prog (stm Instruction.set_reg (w ∷ v ∷ [])))
            c
            none
            (with_reg w (word v) c)
    unfolding arm_of
    set_reg-Does v lv =
        stm-Does prog c ready Instruction.set_reg (w ∷ v ∷ []) (with_reg w _) (omega arith)
          (λ st e. set_reg_lem st w hw (word v) ready.0 (rw e ready.1) ready.2)

module _ (prog : Program) (c : Core) (ready : IsReady c) (r1 r2 r3 : ℕ) (h1 : r1 < 256)
    (h2 : r2 < 256) (h3 : r3 < 256) where
  pub mload-Does :
      (a off : ℕ)
      → At c r1 (pos a)
      → a < 2 ^ 32
      → off < 2 ^ 32
      → Does (run_statement prog (stm Instruction.mload (r1 ∷ off ∷ r2 ∷ r3 ∷ []))) c none (
          with_reg r3
            (word ((a + off) % 4))
            (with_reg r2 (word (load_word c ((a + off) % 2 ^ 32 / 4 * 4))) c))
  unfolding arm_of
  mload-Does a off ha la lo =
      stm-Does prog c ready Instruction.mload (r1 ∷ off ∷ r2 ∷ r3 ∷ [])
        (λ k.
          with_reg r3 (word ((a + off) % 4))
            (with_reg r2 (word (load_word k ((a + off) % 2 ^ 32 / 4 * 4))) k))
        (omega arith) (λ st e. mload_lem st r1 r2 r3 h1 h2 h3 a off (rw e ha) la lo)
