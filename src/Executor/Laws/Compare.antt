-- ===== src/Executor/Laws/Compare.antt =====
-- The laws of Executor/Instr/Compare.antt.
use powdr.Executor.Instr.Compare.{
  exec_is_diff_greater_than, exec_is_equal_zero, exec_is_not_equal, flag, set_range_bytes,
}
use powdr.Prelude.{
  ℕ, Bool, true, false, refl, sym, if◌then◌else◌, ◌<◌, ◌≡◌, not, [], ◌∷◌, none, some, arith,
}
use powdr.Prelude.Int.{ℤ, pos, ◌-ℤ◌, ltb_ℤ}
use powdr.Executor.Elem.{binary, is_zero}
use powdr.Executor.State.{State, outcome}
use powdr.Executor.Laws.{
  word, Holds, with_reg, Changes, changes-outcome, IsDifference, u-word, IsSmall, checked-small,
  sub-small, set_zero_test-small, add-field,
}

flag-if : (b : Bool) → flag b ≡ (if b then 1 else 0)
flag-if true = refl
flag-if false = refl

module _ (st : State) (r1 r2 w : ℕ) (h1 : r1 < 256) (h2 : r2 < 256) (hw : w < 256) where
  is_diff_greater_than-Changes :
      (x y off : ℤ)
      → Holds st r1 x
      → Holds st r2 y
      → IsSmall (x -ℤ y)
      → IsSmall (x -ℤ y -ℤ off)
      → Changes
          (exec_is_diff_greater_than (word r1 ∷ word r2 ∷ binary off ∷ word w ∷ []))
          st
          none
          (with_reg w (word (flag (ltb_ℤ (pos 0) (x -ℤ y -ℤ off)))) st.core)
  unfolding exec_is_diff_greater_than set_range_bytes
  is_diff_greater_than-Changes x y off hx hy s1 s2 = rw (
    u-word r1 (omega arith),
    u-word r2 (omega arith),
    hx,
    hy,
    u-word w (omega arith),
    sub-small x y s1,
    sub-small (x -ℤ y) off s2,
    add-field,
  )

  -- On registers that hold integers x and y, with x - y at most 2^62 in absolute value and x - y -
  -- offset above -2^32 and below 2^32, as the machine requires, `is_diff_greater_than` succeeds in
  -- every mode, writes 1 to its target if x - y - offset is positive and else 0, and changes
  -- nothing else but what is recorded (register addresses below 256).
  pub exec_is_diff_greater_than_lem :
      (x y off : ℤ)
      → Holds st r1 x
      → Holds st r2 y
      → IsSmall (x -ℤ y)
      → IsDifference (x -ℤ y -ℤ off)
      → Changes
          (exec_is_diff_greater_than (word r1 ∷ word r2 ∷ binary off ∷ word w ∷ []))
          st
          none
          (with_reg w (word (if ltb_ℤ (pos 0) (x -ℤ y -ℤ off) then 1 else 0)) st.core)
  exec_is_diff_greater_than_lem x y off hx hy s1 d =
      rw (sym (flag-if (ltb_ℤ (pos 0) (x -ℤ y -ℤ off))))
        (is_diff_greater_than-Changes x y off hx hy s1 (omega arith, omega arith))

  pub is_diff_greater_than_lem :
      (x y off : ℤ)
      → Holds st r1 x
      → Holds st r2 y
      → IsSmall (x -ℤ y)
      → IsSmall (x -ℤ y -ℤ off)
      → outcome (exec_is_diff_greater_than (word r1 ∷ word r2 ∷ binary off ∷ word w ∷ []) st)
        ≡ some (none, with_reg w (word (flag (ltb_ℤ (pos 0) (x -ℤ y -ℤ off)))) st.core)
  is_diff_greater_than_lem x y off hx hy s1 s2 =
      changes-outcome _ st _ _ (is_diff_greater_than-Changes x y off hx hy s1 s2)

  -- On registers that hold integers x and y with a difference of at most 2^62 in absolute value,
  -- `is_not_equal` succeeds in every mode, the division for the recorded inverse included, writes
  -- 1 to its target if they differ and else 0, and changes nothing else but what is recorded
  -- (register addresses below 256).
  pub is_not_equal_lem :
      (x y : ℤ)
      → Holds st r1 x
      → Holds st r2 y
      → IsSmall (x -ℤ y)
      → outcome (exec_is_not_equal (word r1 ∷ word r2 ∷ word w ∷ []) st)
        ≡ some (none, with_reg w (word (flag (not (is_zero (binary (x -ℤ y)))))) st.core)
  unfolding exec_is_not_equal
  is_not_equal_lem x y hx hy s1 = rw (
    u-word r1 (omega arith),
    u-word r2 (omega arith),
    hx,
    hy,
    u-word w (omega arith),
    checked-small (x -ℤ y) s1,
    set_zero_test-small (x -ℤ y) _ s1,
  )

module _ (st : State) (r w : ℕ) (h : r < 256) (hw : w < 256) where
  pub is_equal_zero_lem :
      (x : ℤ)
      → Holds st r x
      → IsSmall x
      → outcome (exec_is_equal_zero (word r ∷ word w ∷ []) st)
        ≡ some (none, with_reg w (word (flag (is_zero (binary x)))) st.core)
  unfolding exec_is_equal_zero
  is_equal_zero_lem x hx s1 =
      rw (u-word r (omega arith), hx, u-word w (omega arith), set_zero_test-small x _ s1)
