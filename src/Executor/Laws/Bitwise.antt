-- ===== src/Executor/Laws/Bitwise.antt =====
-- The laws of Executor/Instr/Bitwise.antt.
use powdr.Executor.Instr.Bitwise.{
  BinaryOp, binary_result, exec_binary, ShiftOp, shift_result, exec_shift,
}
use powdr.Prelude.{ℕ, ◌+◌, ◌^◌, ◌<◌, ◌≡◌, [], ◌∷◌, none, some, arith}
use powdr.Prelude.Int.{pos}
use powdr.Executor.State.{State, outcome}
use powdr.Executor.Laws.{word, Holds, with_reg, u-word, checked-small}

module _ (st : State) (r1 r2 w : ℕ) (h1 : r1 < 256) (h2 : r2 < 256) (hw : w < 256) where
  pub binary_lem :
      (op : BinaryOp) (x y off : ℕ)
      → Holds st r1 (pos x)
      → Holds st r2 (pos y)
      → x < 2 ^ 32
      → y + off < 2 ^ 32
      → outcome (exec_binary op (word r1 ∷ word r2 ∷ word off ∷ word w ∷ []) st)
        ≡ some (none, with_reg w (word (binary_result op x (y + off))) st.core)
  unfolding exec_binary
  binary_lem op x y off hx hy lx ly = ground (
    arith,
    u-word r1 (omega arith),
    u-word r2 (omega arith),
    u-word w (omega arith),
    u-word x (omega arith),
    u-word (y + off) (omega arith),
    checked-small (pos (y + off)) (omega arith),
  )

  pub shift_lem :
      (op : ShiftOp) (x y off v : ℕ)
      → Holds st r1 (pos x)
      → Holds st r2 (pos y)
      → x < 2 ^ 32
      → y + off < 32
      → shift_result op x (y + off) ≡ some v
      → outcome (exec_shift op (word r1 ∷ word r2 ∷ word off ∷ word w ∷ []) st)
        ≡ some (none, with_reg w (word v) st.core)
  unfolding exec_shift
  shift_lem op x y off v hx hy lx ly e = ground (
    arith,
    u-word r1 (omega arith),
    u-word r2 (omega arith),
    u-word w (omega arith),
    u-word x (omega arith),
    u-word (y + off) (omega arith),
    checked-small (pos (y + off)) (omega arith),
  )
