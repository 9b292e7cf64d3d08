-- ===== src/Executor/Laws/Branch.antt =====
-- The laws of the branches of Executor/Instr/Jump.antt.
use powdr.Executor.Instr.Jump.{
  exec_branch_if_diff_nonzero, exec_branch_if_diff_equal, exec_branch_if_diff_greater_than,
}
use powdr.Executor.Instr.Compare.{set_range_bytes}
use powdr.Prelude.{
  ℕ, Bool, sym, ◌==◌, ◌&&◌, ◌^◌, ◌<◌, ◌≡◌, [], ◌∷◌, none, some, arith, Bool-cases, inl, inr,
  if◌then◌else◌,
}
use powdr.Prelude.Int.{ℤ, pos, negsuc, pos_part, neg_part, ◌-ℤ◌, ltb_ℤ}
use powdr.Executor.Elem.{binary, is_zero}
use powdr.Executor.State.{State, outcome}
use powdr.Executor.Proc.{set_pc}
use powdr.Executor.Laws.{
  word, Holds, Changes, changes-outcome, IsDifference, u-word, IsSmall, sub-small,
  set_zero_test-small, add-field,
}
use powdr.Executor.Laws.Jump.{jump_to, StartsAt}

-- x and y are the same integer.
abbrev pub same_integer : ℤ → ℤ → Bool
same_integer x y = (pos_part x == pos_part y) && (neg_part x == neg_part y)

is_zero-same : (x y : ℤ) → is_zero (binary (x -ℤ y)) ≡ same_integer x y
unfolding is_zero
is_zero-same (pos x) (pos y) = ground arith
is_zero-same (pos x) (negsuc y) = ground arith
is_zero-same (negsuc x) (pos y) = ground arith
is_zero-same (negsuc x) (negsuc y) = ground arith

module _ (st : State) (r1 r2 target line : ℕ) (h1 : r1 < 256) (h2 : r2 < 256) (lt : target < 2 ^ 32)
    (starts : StartsAt st.core target line) where
  branch_if_diff_nonzero-Changes :
      (x y : ℤ)
      → Holds st r1 x
      → Holds st r2 y
      → IsSmall (x -ℤ y)
      → Changes
          (exec_branch_if_diff_nonzero (word r1 ∷ word r2 ∷ word target ∷ []))
          st
          none
          (if is_zero (binary (x -ℤ y)) then st.core else jump_to target line st.core)
  unfolding exec_branch_if_diff_nonzero set_pc
  branch_if_diff_nonzero-Changes x y hx hy s1 = elim (Bool-cases (is_zero (binary (x -ℤ y)))) [
    | inl e ↦ rw (
      u-word r1 (omega arith),
      u-word r2 (omega arith),
      hx,
      hy,
      sub-small x y s1,
      e,
      set_zero_test-small (x -ℤ y) _ s1,
    )
    | inr e ↦ rw (
      u-word r1 (omega arith),
      u-word r2 (omega arith),
      hx,
      hy,
      sub-small x y s1,
      e,
      u-word target lt,
      starts,
      set_zero_test-small (x -ℤ y) _ s1,
    )
  ]

  -- On registers that hold integers x and y with a difference of at most 2^62 in absolute value,
  -- and with a target batch below 2^32 that begins at `line`, `branch_if_diff_nonzero` succeeds in
  -- every mode and, if they differ, makes execution go on at that batch and line; it changes
  -- nothing else but what is recorded (register addresses below 256).
  pub exec_branch_if_diff_nonzero_lem :
      (x y : ℤ)
      → Holds st r1 x
      → Holds st r2 y
      → IsSmall (x -ℤ y)
      → Changes
          (exec_branch_if_diff_nonzero (word r1 ∷ word r2 ∷ word target ∷ []))
          st
          none
          (if same_integer x y then st.core else jump_to target line st.core)
  exec_branch_if_diff_nonzero_lem x y hx hy s1 =
      rw (sym (is_zero-same x y)) (branch_if_diff_nonzero-Changes x y hx hy s1)

  pub branch_if_diff_nonzero_lem :
      (x y : ℤ)
      → Holds st r1 x
      → Holds st r2 y
      → IsSmall (x -ℤ y)
      → outcome (exec_branch_if_diff_nonzero (word r1 ∷ word r2 ∷ word target ∷ []) st)
        ≡ some (none, if is_zero (binary (x -ℤ y)) then st.core else jump_to target line st.core)
  branch_if_diff_nonzero_lem x y hx hy s1 =
      changes-outcome _ st _ _ (branch_if_diff_nonzero-Changes x y hx hy s1)

  pub branch_if_diff_equal_lem :
      (x y off : ℤ)
      → Holds st r1 x
      → Holds st r2 y
      → IsSmall (x -ℤ y)
      → IsSmall (x -ℤ y -ℤ off)
      → outcome (exec_branch_if_diff_equal (word r1 ∷ word r2 ∷ binary off ∷ word target ∷ []) st)
        ≡ some (
          none,
          if is_zero (binary (x -ℤ y -ℤ off)) then jump_to target line st.core else st.core,
        )
  unfolding exec_branch_if_diff_equal set_pc
  branch_if_diff_equal_lem x y off hx hy s1 s2 =
      elim (Bool-cases (is_zero (binary (x -ℤ y -ℤ off)))) [
        | inl e ↦ rw (
          u-word r1 (omega arith),
          u-word r2 (omega arith),
          hx,
          hy,
          sub-small x y s1,
          sub-small (x -ℤ y) off s2,
          e,
          u-word target lt,
          starts,
          set_zero_test-small (x -ℤ y -ℤ off) _ s2,
        )
        | inr e ↦ rw (
          u-word r1 (omega arith),
          u-word r2 (omega arith),
          hx,
          hy,
          sub-small x y s1,
          sub-small (x -ℤ y) off s2,
          e,
          set_zero_test-small (x -ℤ y -ℤ off) _ s2,
        )
      ]

  branch_if_diff_greater_than-Changes :
      (x y off : ℤ)
      → Holds st r1 x
      → Holds st r2 y
      → IsSmall (x -ℤ y)
      → IsSmall (x -ℤ y -ℤ off)
      → Changes
          (exec_branch_if_diff_greater_than (word r1 ∷ word r2 ∷ binary off ∷ word target ∷ []))
          st
          none
          (if ltb_ℤ (pos 0) (x -ℤ y -ℤ off) then jump_to target line st.core else st.core)
  unfolding exec_branch_if_diff_greater_than set_range_bytes set_pc
  branch_if_diff_greater_than-Changes x y off hx hy s1 s2 =
      elim (Bool-cases (ltb_ℤ (pos 0) (x -ℤ y -ℤ off))) [
        | inl e ↦ rw (
          u-word r1 (omega arith),
          u-word r2 (omega arith),
          hx,
          hy,
          sub-small x y s1,
          sub-small (x -ℤ y) off s2,
          e,
          u-word target lt,
          starts,
          add-field,
        )
        | inr e ↦ rw (
          u-word r1 (omega arith),
          u-word r2 (omega arith),
          hx,
          hy,
          sub-small x y s1,
          sub-small (x -ℤ y) off s2,
          e,
          add-field,
        )
      ]

  -- On registers that hold integers x and y, with x - y at most 2^62 in absolute value and x - y -
  -- offset above -2^32 and below 2^32, as the machine requires, and with a target batch below 2^32
  -- that begins at `line`, `branch_if_diff_greater_than` succeeds in every mode and, if x - y -
  -- offset is positive, makes execution go on at that batch and line; it changes nothing else but
  -- what is recorded (register addresses below 256).
  pub exec_branch_if_diff_greater_than_lem :
      (x y off : ℤ)
      → Holds st r1 x
      → Holds st r2 y
      → IsSmall (x -ℤ y)
      → IsDifference (x -ℤ y -ℤ off)
      → Changes
          (exec_branch_if_diff_greater_than (word r1 ∷ word r2 ∷ binary off ∷ word target ∷ []))
          st
          none
          (if ltb_ℤ (pos 0) (x -ℤ y -ℤ off) then jump_to target line st.core else st.core)
  exec_branch_if_diff_greater_than_lem x y off hx hy s1 d =
      branch_if_diff_greater_than-Changes x y off hx hy s1 (omega arith, omega arith)

  pub branch_if_diff_greater_than_lem :
      (x y off : ℤ)
      → Holds st r1 x
      → Holds st r2 y
      → IsSmall (x -ℤ y)
      → IsSmall (x -ℤ y -ℤ off)
      → outcome
          (exec_branch_if_diff_greater_than (word r1 ∷ word r2 ∷ binary off ∷ word target ∷ []) st)
        ≡ some
            (none, if ltb_ℤ (pos 0) (x -ℤ y -ℤ off) then jump_to target line st.core else st.core)
  branch_if_diff_greater_than_lem x y off hx hy s1 s2 =
      changes-outcome _ st _ _ (branch_if_diff_greater_than-Changes x y off hx hy s1 s2)
