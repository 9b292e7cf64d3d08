-- ===== src/Executor/Laws/Jump.antt =====
-- The laws of Executor/Instr/Jump.antt.
use powdr.Executor.Instr.Jump.{exec_jump, exec_jump_dyn, exec_skip_if_equal, skip_target}
use powdr.Executor.Proc.{get_pc}
use powdr.Prelude.{
  ℕ, ◌+◌, ◌^◌, ◌<◌, ◌≡◌, [], ◌∷◌, none, some, arith, Bool-cases, inl, inr, if◌then◌else◌, get_elem?,
}
use powdr.Prelude.Int.{ℤ, pos, ◌+ℤ◌, ◌-ℤ◌}
use powdr.Executor.Elem.{binary, s, is_zero}
use powdr.Executor.State.{State, Core, outcome}
use powdr.Executor.Proc.{set_pc}
use powdr.Executor.Laws.{
  word, Holds, with_reg, u-word, IsSmall, add-small, sub-small, set_zero_test-small,
}

-- Execution goes on at the batch `target`, whose first statement is `line`.
abbrev pub jump_to : ℕ → ℕ → Core → Core
jump_to target line c = record c { next_statement_line = line; next_pc = word target }

-- The batch `target` begins at `line`.
abbrev pub StartsAt : Core → ℕ → ℕ → Type 0
StartsAt c target line = get_elem? c.env.batch_to_line_map target ≡ some line

module _ (st : State) (r1 r2 target line : ℕ) (h1 : r1 < 256) (h2 : r2 < 256) (lt : target < 2 ^ 32)
    (starts : StartsAt st.core target line) where
  pub jump_lem :
      (pc : ℕ)
      → st.core.curr_pc ≡ word pc
      → pc + 1 < 2 ^ 32
      → outcome (exec_jump (word target ∷ word r1 ∷ []) st)
        ≡ some (none, jump_to target line (with_reg r1 (word (pc + 1)) st.core))
  unfolding exec_jump get_pc set_pc
  jump_lem pc e lp =
      ground (arith, u-word pc (omega arith), u-word r1 (omega arith), u-word target (omega arith))

  -- With a batch number below 2^32 in its first register, a batch that begins at `line`, and a
  -- program counter whose successor is below 2^32, `jump_dyn` succeeds in every mode, writes the
  -- next program counter to its second register, and makes execution go on at that batch and line
  -- (register addresses below 256).
  pub jump_dyn_lem :
      (pc : ℕ)
      → st.core.curr_pc ≡ word pc
      → pc + 1 < 2 ^ 32
      → Holds st r1 (pos target)
      → outcome (exec_jump_dyn (word r1 ∷ word r2 ∷ []) st)
        ≡ some (none, jump_to target line (with_reg r2 (word (pc + 1)) st.core))
  unfolding exec_jump_dyn get_pc set_pc
  jump_dyn_lem pc e lp ht = ground (
    arith,
    u-word pc (omega arith),
    u-word r1 (omega arith),
    u-word r2 (omega arith),
    u-word target (omega arith),
  )

  -- On registers that hold integers x and y, with x - y and x - y + offset at most 2^62 in
  -- absolute value, and where the batch `count + 1` places on has a number below 2^31,
  -- `skip_if_equal` succeeds in every mode and goes to that batch if x - y + offset is zero; if
  -- not, it changes nothing but what is recorded (register addresses below 256).
  pub skip_if_equal_lem :
      (x y off : ℤ) (pc count : ℕ)
      → Holds st r1 x
      → Holds st r2 y
      → IsSmall (x -ℤ y)
      → IsSmall (x -ℤ y +ℤ off)
      → st.core.curr_pc ≡ word pc
      → target ≡ pc + count + 1
      → target < 2 ^ 31
      → outcome (exec_skip_if_equal (word r1 ∷ word r2 ∷ binary off ∷ word count ∷ []) st)
        ≡ some (
          none,
          if is_zero (binary (x -ℤ y +ℤ off)) then jump_to target line st.core else st.core,
        )
  unfolding exec_skip_if_equal set_pc get_pc
  skip_if_equal_lem x y off pc count hx hy s1 s2 e t small =
      elim (Bool-cases (is_zero (binary (x -ℤ y +ℤ off)))) [
        | inl z ↦ rw (
          u-word r1 (omega arith),
          u-word r2 (omega arith),
          hx,
          hy,
          sub-small x y s1,
          add-small (x -ℤ y) off s2,
          z,
          e,
          at_target,
          u-word target lt,
          starts,
          set_zero_test-small (x -ℤ y +ℤ off) _ s2,
        )
        | inr z ↦ rw (
          u-word r1 (omega arith),
          u-word r2 (omega arith),
          hx,
          hy,
          sub-small x y s1,
          add-small (x -ℤ y) off s2,
          z,
          set_zero_test-small (x -ℤ y +ℤ off) _ s2,
        )
      ]
    where
      at_target : skip_target (word pc) (word count) ≡ some (pos target)
      at_target = unfold skip_target s in ground arith
