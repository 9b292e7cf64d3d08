-- ===== src/Executor/Memory/LastRow.antt =====
-- The last row of riscv-executor/src/memory.rs: the memory machine wants m_change to be 1 there.
use powdr.Prelude.{
  ℕ, zero, suc, ◌+◌, ◌-◌, ◌≤◌, ◌≡◌, refl, arith, false, ◌==◌, if◌then◌else◌, some, List, [], ◌∷◌,
  ◌++◌, length,
}
use powdr.Executor.Memory.{Op, Row, sort_ops, op_row, op_rows, padding, last_op, finish}
use powdr.Executor.Memory.Rows.{last_change}
use powdr.Executor.Memory.Padding.{StepsFit, finish_lem}

module _ (selector_count : ℕ) where
  padding-last_change :
      (n addr step value : ℕ) → last_change (padding selector_count (suc n) addr step value) ≡ 1
  unfolding padding last_change
  padding-last_change zero addr step value = refl
  padding-last_change (suc n) addr step value = padding-last_change n addr (suc step) value

  append-last_change :
      (rows : List Row) (n addr step value : ℕ)
      → last_change (rows ++ padding selector_count (suc n) addr step value) ≡ 1
  unfolding last_change padding
  append-last_change [] n addr step value = padding-last_change n addr step value
  append-last_change (r ∷ []) n addr step value = padding-last_change n addr step value
  append-last_change (r ∷ next ∷ rows) n addr step value =
      append-last_change (next ∷ rows) n addr step value

  op_rows-last_change :
      (ops : List Op) (addr step value : ℕ)
      → last_change (op_rows selector_count ops ++ padding selector_count 0 addr step value) ≡ 0
  unfolding op_rows last_change padding op_row
  op_rows-last_change [] addr step value = refl
  op_rows-last_change (op ∷ []) addr step value = refl
  op_rows-last_change (op ∷ next ∷ []) addr step value = refl
  op_rows-last_change (op ∷ next ∷ third ∷ ops) addr step value =
      op_rows-last_change (next ∷ third ∷ ops) addr step value

  either-last_change :
      (ops : List Op) (n addr step value : ℕ)
      → last_change (op_rows selector_count ops ++ padding selector_count n addr step value)
        ≡ (if n == 0 then 0 else 1)
  either-last_change ops zero addr step value = op_rows-last_change ops addr step value
  either-last_change ops (suc n) addr step value =
      let more : (suc n == 0) ≡ false = ground arith in
      rw more (append-last_change (op_rows selector_count ops) n addr step value)

  -- For any memory operations, no more than the degree, where the u32 steps of the rows to be
  -- added, and the one after them, fit 32 bits, `finish` succeeds, and m_change of the last row is
  -- 1 if the degree is greater than the number of operations, but 0 if it is equal.
  pub finish-last_change :
      (ops : List Op) (degree : ℕ)
      → length ops ≤ degree
      → StepsFit selector_count ops degree
      → (rows : List Row) × (finish selector_count ops degree ≡ some rows)
        × (last_change rows ≡ (if length ops == degree then 0 else 1))
  finish-last_change ops degree le fit =
      let sorted = sort_ops [] ops in
      let last = last_op selector_count sorted in
      let n = degree - length ops in
      let same : (n == 0) ≡ (length ops == degree) = ground arith in
      (
        _,
        finish_lem selector_count ops degree le fit,
        rw same at (either-last_change sorted n last.addr (last.step + 1) last.value),
      )
