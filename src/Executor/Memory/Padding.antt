-- ===== src/Executor/Memory/Padding.antt =====
-- riscv-executor/src/memory.rs, `finish`: when the rows that extend the trace can be added, and the
-- trace that then results.
use powdr.Prelude.{
  ℕ, zero, suc, ◌+◌, ◌-◌, ◌^◌, ◌≤◌, ◌<◌, ◌≡◌, ◌⊎◌, refl, arith, some, List, [], ◌++◌, length,
  le→leb,
}
use powdr.Executor.Memory.{Op, sort_ops, op_rows, padding, last_op, extend_rows, finish}

module _ (selector_count : ℕ) where
  -- The u32 steps of the rows that `finish` adds, and the one after them, fit 32 bits.
  abbrev pub StepsFit : List Op → ℕ → Type 0
  StepsFit ops degree =
      (length ops ≡ degree)
      ⊎ ((last_op selector_count (sort_ops [] ops)).step + 1 + (degree - length ops) < 2 ^ 32)

  extend_rows_lem :
      (n : ℕ) (last : Op)
      → (n ≡ 0) ⊎ (last.step + 1 + n < 2 ^ 32)
      → extend_rows selector_count n last
        ≡ some (padding selector_count n last.addr (last.step + 1) last.value)
  unfolding extend_rows padding
  extend_rows_lem zero last h = refl
  extend_rows_lem (suc n) last h = ground arith

  -- What `finish` returns when it succeeds.
  pub finish_lem :
      (ops : List Op) (degree : ℕ)
      → length ops ≤ degree
      → StepsFit ops degree
      → finish selector_count ops degree
        ≡ some (
            op_rows selector_count (sort_ops [] ops)
            ++ padding selector_count
                (degree - length ops)
                (last_op selector_count (sort_ops [] ops)).addr
                ((last_op selector_count (sort_ops [] ops)).step + 1)
                (last_op selector_count (sort_ops [] ops)).value)
  unfolding finish
  finish_lem ops degree le fit =
      let last = last_op selector_count (sort_ops [] ops) in
      let enough : (degree - length ops ≡ 0) ⊎ (last.step + 1 + (degree - length ops) < 2 ^ 32) =
        ground arith in
      rw (le→leb (length ops) degree le, extend_rows_lem (degree - length ops) last enough) refl
