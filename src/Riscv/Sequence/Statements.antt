-- ===== src/Riscv/Sequence/Statements.antt =====
-- What each statement of the generated code does to the deciding part of the state.
use powdr.Prelude.{
  ℕ, ◌+◌, ◌-◌, ◌*◌, ◌^◌, ◌%◌, ◌/◌, ◌<◌, ◌≡◌, ◌≢◌, refl, ap, ◌∙◌, not, List, [], ◌∷◌, map, Option,
  none, some, arith, inl, inr,
}
use powdr.Prelude.Int.{ℤ, pos, negsuc, ltb_ℤ, ◌-ℤ◌}
use powdr.Executor.Elem.{Elem, binary, is_zero}
use powdr.Executor.Names.{Instruction}
use powdr.Executor.State.{State, Core, outcome}
use powdr.Executor.Proc.{read_reg}
use powdr.Executor.Dispatch.{arm_of}
use powdr.Executor.Run.{
  Program, Expression, run_statement, eval_arguments, eval_expression, number, minus,
}
use powdr.Executor.Laws.{word, with_reg, IsSmall}
use powdr.Executor.Laws.Words.{add_wrap_lem, sub_wrap_lem}
use powdr.Executor.Laws.Arith.{divremu_lem, mul_word_lem}
use powdr.Executor.Laws.Bitwise.{binary_lem, shift_lem}
use powdr.Executor.Laws.Compare.{is_diff_greater_than_lem, is_not_equal_lem}
use powdr.Executor.Instr.Arith.{div_word, rem_word}
use powdr.Executor.Instr.Bitwise.{
  and_op, or_op, xor_op, binary_result, shl_op, shr_op, shift_result,
}
use powdr.Executor.Instr.Compare.{flag}
use powdr.Riscv.Asm.{stm, numbers, statement}
use powdr.Riscv.Sequence.{Does, IsReady, Evaluates, run_statement-Does, read-write}

abbrev pub Words : List ℕ → Type 0
Words [] = Unit
Words (n ∷ ns) = (n < 2 ^ 32) × Words ns

pub eval_numbers :
    (prog : Program) (ns : List ℕ) → Words ns → Evaluates prog (numbers ns) (map word ns)
unfolding eval_arguments
eval_numbers prog [] h regs = refl
eval_numbers prog (n ∷ ns) h regs = ground (arith, eval_numbers prog ns h.1 regs)

-- The register memory of `c` holds `x` at `r`.
abbrev pub At : Core → ℕ → ℤ → Type 0
At c r x = read_reg c.last r ≡ binary x

pub At-write_ne :
    (c : Core) (w r : ℕ) (v : Elem) (x : ℤ) → r ≢ w → At c r x → At (with_reg w v c) r x
unfolding read_reg
At-write_ne c w r v x ne h = ground arith

pub At-write_self : (c : Core) (w : ℕ) (x : ℤ) → w ≢ 0 → At (with_reg w (binary x) c) w x
At-write_self c w x ne = ground (arith, read-write c.last w w (binary x))

pub At-zero : (c : Core) → At c 0 (pos 0)
unfolding read_reg
At-zero c = refl

module _ (prog : Program) (c : Core) (ready : IsReady c) where
  pub stm-Does :
      (i : Instruction) (ns : List ℕ) (F : Core → Core)
      → Words ns
      → ((st : State)
          → st.core ≡ c
          → outcome (arm_of prog.precompile i (map word ns) st) ≡ some (none, F st.core))
      → Does (run_statement prog (stm i ns)) c none (F c)
  stm-Does i ns F h law =
      run_statement-Does prog (stm i ns) (map word ns) ready (eval_numbers prog ns h)
        (λ st e. law st e ∙ ap (λ (k : Core). some (none, F k)) e)

  module _ (r1 r2 w : ℕ) (h1 : r1 < 256) (h2 : r2 < 256) (hw : w < 256) where
    pub add_wrap-Does :
        (x y off : ℕ)
        → At c r1 (pos x)
        → At c r2 (pos y)
        → x < 2 ^ 32
        → y < 2 ^ 32
        → off < 2 ^ 32
        → Does
            (run_statement prog (stm Instruction.add_wrap (r1 ∷ r2 ∷ off ∷ w ∷ [])))
            c
            none
            (with_reg w (word ((x + y + off) % 2 ^ 32)) c)
    unfolding arm_of
    add_wrap-Does x y off hx hy lx ly lo =
        stm-Does Instruction.add_wrap (r1 ∷ r2 ∷ off ∷ w ∷ []) (with_reg w _) (omega arith)
          (λ st e. add_wrap_lem st r1 r2 w h1 h2 hw x y off (rw e hx) (rw e hy) lx ly lo)

    pub sub_wrap-Does :
        (x y : ℕ)
        → At c r1 (pos x)
        → At c r2 (pos y)
        → x < 2 ^ 32
        → y < 2 ^ 32
        → Does
            (run_statement prog (stm Instruction.sub_wrap_with_offset (r1 ∷ r2 ∷ 0 ∷ w ∷ [])))
            c
            none
            (with_reg w (word ((x + 2 ^ 32 - y - 0) % 2 ^ 32)) c)
    unfolding arm_of
    sub_wrap-Does x y hx hy lx ly =
        stm-Does Instruction.sub_wrap_with_offset (r1 ∷ r2 ∷ 0 ∷ w ∷ []) (with_reg w _)
          (omega arith)
          (λ st e.
            sub_wrap_lem st r1 r2 w h1 h2 hw x y (pos 0) (rw e hx) (rw e hy) lx ly (inl refl))

    pub and-Does :
        (x y off : ℕ)
        → At c r1 (pos x)
        → At c r2 (pos y)
        → x < 2 ^ 32
        → y + off < 2 ^ 32
        → Does
            (run_statement prog (stm Instruction.and_ (r1 ∷ r2 ∷ off ∷ w ∷ [])))
            c
            none
            (with_reg w (word (binary_result and_op x (y + off))) c)
    unfolding arm_of
    and-Does x y off hx hy lx ly =
        stm-Does Instruction.and_ (r1 ∷ r2 ∷ off ∷ w ∷ []) (with_reg w _) (omega arith)
          (λ st e. binary_lem st r1 r2 w h1 h2 hw and_op x y off (rw e hx) (rw e hy) lx ly)

    pub or-Does :
        (x y off : ℕ)
        → At c r1 (pos x)
        → At c r2 (pos y)
        → x < 2 ^ 32
        → y + off < 2 ^ 32
        → Does
            (run_statement prog (stm Instruction.or_ (r1 ∷ r2 ∷ off ∷ w ∷ [])))
            c
            none
            (with_reg w (word (binary_result or_op x (y + off))) c)
    unfolding arm_of
    or-Does x y off hx hy lx ly =
        stm-Does Instruction.or_ (r1 ∷ r2 ∷ off ∷ w ∷ []) (with_reg w _) (omega arith)
          (λ st e. binary_lem st r1 r2 w h1 h2 hw or_op x y off (rw e hx) (rw e hy) lx ly)

    pub xor-Does :
        (x y off : ℕ)
        → At c r1 (pos x)
        → At c r2 (pos y)
        → x < 2 ^ 32
        → y + off < 2 ^ 32
        → Does
            (run_statement prog (stm Instruction.xor (r1 ∷ r2 ∷ off ∷ w ∷ [])))
            c
            none
            (with_reg w (word (binary_result xor_op x (y + off))) c)
    unfolding arm_of
    xor-Does x y off hx hy lx ly =
        stm-Does Instruction.xor (r1 ∷ r2 ∷ off ∷ w ∷ []) (with_reg w _) (omega arith)
          (λ st e. binary_lem st r1 r2 w h1 h2 hw xor_op x y off (rw e hx) (rw e hy) lx ly)

    pub shl-Does :
        (x y off v : ℕ)
        → At c r1 (pos x)
        → At c r2 (pos y)
        → x < 2 ^ 32
        → y + off < 32
        → shift_result shl_op x (y + off) ≡ some v
        → Does
            (run_statement prog (stm Instruction.shl (r1 ∷ r2 ∷ off ∷ w ∷ [])))
            c
            none
            (with_reg w (word v) c)
    unfolding arm_of
    shl-Does x y off v hx hy lx ly ev =
        stm-Does Instruction.shl (r1 ∷ r2 ∷ off ∷ w ∷ []) (with_reg w (word v)) (omega arith)
          (λ st e. shift_lem st r1 r2 w h1 h2 hw shl_op x y off v (rw e hx) (rw e hy) lx ly ev)

    pub shr-Does :
        (x y off v : ℕ)
        → At c r1 (pos x)
        → At c r2 (pos y)
        → x < 2 ^ 32
        → y + off < 32
        → shift_result shr_op x (y + off) ≡ some v
        → Does
            (run_statement prog (stm Instruction.shr (r1 ∷ r2 ∷ off ∷ w ∷ [])))
            c
            none
            (with_reg w (word v) c)
    unfolding arm_of
    shr-Does x y off v hx hy lx ly ev =
        stm-Does Instruction.shr (r1 ∷ r2 ∷ off ∷ w ∷ []) (with_reg w (word v)) (omega arith)
          (λ st e. shift_lem st r1 r2 w h1 h2 hw shr_op x y off v (rw e hx) (rw e hy) lx ly ev)

    -- The offset is an expression that evaluates to `o`.
    pub is_diff_greater_than-Does :
        (x y o : ℤ) (offset : Expression)
        → ((regs : ℕ → Option Elem) → eval_expression prog.labels regs offset ≡ some (binary o))
        → At c r1 x
        → At c r2 y
        → IsSmall (x -ℤ y)
        → IsSmall (x -ℤ y -ℤ o)
        → Does
            (run_statement prog (
              statement Instruction.is_diff_greater_than
                (number r1 ∷ number r2 ∷ offset ∷ number w ∷ [])))
            c
            none
            (with_reg w (word (flag (ltb_ℤ (pos 0) (x -ℤ y -ℤ o)))) c)
    unfolding arm_of
    is_diff_greater_than-Does x y o offset ev hx hy s1 s2 =
        run_statement-Does prog _ (word r1 ∷ word r2 ∷ binary o ∷ word w ∷ []) ready
          (λ regs. unfold eval_arguments in ground (arith, ev regs))
          (λ st e.
            is_diff_greater_than_lem st r1 r2 w h1 h2 hw x y o (rw e hx) (rw e hy) s1 s2
            ∙ ap
                (λ (k : Core).
                  some (none, with_reg w (word (flag (ltb_ℤ (pos 0) (x -ℤ y -ℤ o)))) k))
                e)

    pub sub_wrap_one-Does :
        (x y : ℕ)
        → At c r1 (pos x)
        → At c r2 (pos y)
        → x < 2 ^ 32
        → y < 2 ^ 32
        → Does
            (run_statement prog (
              statement Instruction.sub_wrap_with_offset
                (number r1 ∷ number r2 ∷ minus (number 1) ∷ number w ∷ [])))
            c
            none
            (with_reg w (word ((x + 2 ^ 32 - y - 1) % 2 ^ 32)) c)
    unfolding arm_of
    sub_wrap_one-Does x y hx hy lx ly =
        run_statement-Does prog _ (word r1 ∷ word r2 ∷ binary (negsuc 0) ∷ word w ∷ []) ready
          (λ regs. unfold eval_arguments in ground arith)
          (λ st e.
            sub_wrap_lem st r1 r2 w h1 h2 hw x y (negsuc 0) (rw e hx) (rw e hy) lx ly (inr refl)
            ∙ ap (λ (k : Core). some (none, with_reg w (word ((x + 2 ^ 32 - y - 1) % 2 ^ 32)) k)) e)

    pub is_not_equal-Does :
        (x y : ℤ)
        → At c r1 x
        → At c r2 y
        → IsSmall (x -ℤ y)
        → Does
            (run_statement prog (stm Instruction.is_not_equal (r1 ∷ r2 ∷ w ∷ [])))
            c
            none
            (with_reg w (word (flag (not (is_zero (binary (x -ℤ y)))))) c)
    unfolding arm_of
    is_not_equal-Does x y hx hy s1 =
        stm-Does Instruction.is_not_equal (r1 ∷ r2 ∷ w ∷ []) (with_reg w _) (omega arith)
          (λ st e. is_not_equal_lem st r1 r2 w h1 h2 hw x y (rw e hx) (rw e hy) s1)

    module _ (w2 : ℕ) (hw2 : w2 < 256) (x y : ℕ) (hx : At c r1 (pos x)) (hy : At c r2 (pos y))
        (lx : x < 2 ^ 32) (ly : y < 2 ^ 32) where
      pub divremu-Does :
          Does
            (run_statement prog (stm Instruction.divremu (r1 ∷ r2 ∷ w ∷ w2 ∷ [])))
            c
            none
            (with_reg w2 (word (rem_word x y)) (with_reg w (word (div_word x y)) c))
      unfolding arm_of
      divremu-Does =
          stm-Does Instruction.divremu (r1 ∷ r2 ∷ w ∷ w2 ∷ [])
            (λ k. with_reg w2 (word (rem_word x y)) (with_reg w (word (div_word x y)) k))
            (omega arith)
            (λ st e. divremu_lem st r1 r2 w w2 h1 h2 hw hw2 x y (rw e hx) (rw e hy) lx ly)

      pub mul-Does :
          Does
            (run_statement prog (stm Instruction.mul (r1 ∷ r2 ∷ w ∷ w2 ∷ [])))
            c
            none
            (with_reg w2 (word (x * y / 2 ^ 32 % 2 ^ 32)) (with_reg w (word (x * y % 2 ^ 32)) c))
      unfolding arm_of
      mul-Does =
          stm-Does Instruction.mul (r1 ∷ r2 ∷ w ∷ w2 ∷ [])
            (λ k.
              with_reg w2 (word (x * y / 2 ^ 32 % 2 ^ 32)) (with_reg w (word (x * y % 2 ^ 32)) k))
            (omega arith)
            (λ st e. mul_word_lem st r1 r2 w w2 h1 h2 hw hw2 x y (rw e hx) (rw e hy) lx ly)
