-- ===== src/Executor/Laws/Words.antt =====
-- The laws of Executor/Instr/Words.antt.
use powdr.Executor.Instr.Words.{exec_add_wrap, exec_wrap16, exec_sub_wrap_with_offset}
use powdr.Prelude.{ℕ, ◌+◌, ◌-◌, ◌*◌, ◌^◌, ◌%◌, ◌<◌, ◌≤◌, ◌≡◌, [], ◌∷◌, none, some, arith, ◌⊎◌}
use powdr.Prelude.Int.{ℤ, pos, negsuc, ◌-ℤ◌, neg_part}
use powdr.Executor.Elem.{binary}
use powdr.Executor.State.{State, outcome}
use powdr.Executor.Laws.{
  word, Holds, with_reg, Changes, changes-outcome, u-word, IsSmall, checked-small, add-small,
  sub-small,
}

module _ (st : State) (r1 r2 w : ℕ) (h1 : r1 < 256) (h2 : r2 < 256) (hw : w < 256) where
  -- The range is that of the arm's assertions, twice the one that the machine requires.
  add_wrap-Changes :
      (x y off : ℕ)
      → Holds st r1 (pos x)
      → Holds st r2 (pos y)
      → x + y + off < 2 ^ 34
      → Changes
          (exec_add_wrap (word r1 ∷ word r2 ∷ word off ∷ word w ∷ []))
          st
          none
          (with_reg w (word ((x + y + off) % 2 ^ 32)) st.core)
  unfolding exec_add_wrap
  add_wrap-Changes x y off hx hy l = ground (
    arith,
    u-word r1 (omega arith),
    u-word r2 (omega arith),
    u-word w (omega arith),
    add-small (pos x) (pos y) (ground arith),
    add-small (pos (x + y)) (pos off) (ground arith),
  )

  -- On registers that hold x and y, with x + y + offset below 2^33 as the machine requires,
  -- `add_wrap` succeeds in every mode, writes x + y + offset modulo 2^32 to its target, and
  -- changes nothing else but what is recorded (register addresses below 256).
  pub exec_add_wrap_lem :
      (x y off : ℕ)
      → Holds st r1 (pos x)
      → Holds st r2 (pos y)
      → x + y + off < 2 ^ 33
      → Changes
          (exec_add_wrap (word r1 ∷ word r2 ∷ word off ∷ word w ∷ []))
          st
          none
          (with_reg w (word ((x + y + off) % 2 ^ 32)) st.core)
  exec_add_wrap_lem x y off hx hy l = add_wrap-Changes x y off hx hy (omega arith)

  pub add_wrap_lem :
      (x y off : ℕ)
      → Holds st r1 (pos x)
      → Holds st r2 (pos y)
      → x < 2 ^ 32
      → y < 2 ^ 32
      → off < 2 ^ 32
      → outcome (exec_add_wrap (word r1 ∷ word r2 ∷ word off ∷ word w ∷ []) st)
        ≡ some (none, with_reg w (word ((x + y + off) % 2 ^ 32)) st.core)
  add_wrap_lem x y off hx hy lx ly lo =
      changes-outcome _ st _ _ (add_wrap-Changes x y off hx hy (omega arith))

  -- On registers that hold 32-bit words x and y, `sub_wrap_with_offset` with an offset of 0 or -1
  -- succeeds in every mode and writes x - y + offset modulo 2^32 to its target, and changes
  -- nothing else but what is recorded (register addresses below 256).
  pub exec_sub_wrap_lem :
      (x y : ℕ) (off : ℤ)
      → Holds st r1 (pos x)
      → Holds st r2 (pos y)
      → x < 2 ^ 32
      → y < 2 ^ 32
      → (off ≡ pos 0) ⊎ (off ≡ negsuc 0)
      → Changes
          (exec_sub_wrap_with_offset (word r1 ∷ word r2 ∷ binary off ∷ word w ∷ []))
          st
          none
          (with_reg w (word ((x + 2 ^ 32 - y - neg_part off) % 2 ^ 32)) st.core)
  unfolding exec_sub_wrap_with_offset
  exec_sub_wrap_lem x y off hx hy lx ly lo = ground (
    arith,
    u-word r1 (omega arith),
    u-word r2 (omega arith),
    u-word w (omega arith),
    sub-small (pos x) (pos y) (ground arith),
    add-small (pos x -ℤ pos y) off (ground arith),
  )

  pub sub_wrap_lem :
      (x y : ℕ) (off : ℤ)
      → Holds st r1 (pos x)
      → Holds st r2 (pos y)
      → x < 2 ^ 32
      → y < 2 ^ 32
      → (off ≡ pos 0) ⊎ (off ≡ negsuc 0)
      → outcome (exec_sub_wrap_with_offset (word r1 ∷ word r2 ∷ binary off ∷ word w ∷ []) st)
        ≡ some (none, with_reg w (word ((x + 2 ^ 32 - y - neg_part off) % 2 ^ 32)) st.core)
  sub_wrap_lem x y off hx hy lx ly lo =
      changes-outcome _ st _ _ (exec_sub_wrap_lem x y off hx hy lx ly lo)

product : (x f : ℕ) → x < 2 ^ 32 → f ≤ 2 ^ 16 → IsSmall (pos (x * f))
product x f lx lf = (grind arith, omega arith)

module _ (st : State) (r w : ℕ) (h : r < 256) (hw : w < 256) where
  -- On a register that holds a 32-bit word x, `wrap16` with a factor of at most 2^16 succeeds in
  -- every mode, writes the product modulo 2^32 to its target, and changes nothing else but what is
  -- recorded (register addresses below 256).
  pub wrap16_lem :
      (x f : ℕ)
      → Holds st r (pos x)
      → x < 2 ^ 32
      → f ≤ 2 ^ 16
      → outcome (exec_wrap16 (word r ∷ word f ∷ word w ∷ []) st)
        ≡ some (none, with_reg w (word (x * f % 2 ^ 32)) st.core)
  unfolding exec_wrap16
  wrap16_lem x f hx lx lf = ground (
    arith,
    u-word r (omega arith),
    u-word w (omega arith),
    checked-small (pos (x * f)) (product x f lx lf),
  )
