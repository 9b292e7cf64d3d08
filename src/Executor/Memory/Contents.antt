-- ===== src/Executor/Memory/Contents.antt =====
-- riscv-executor/src/memory.rs: the rows of the trace against the recorded operations.
use mathlib.Core.List.{Perm, append-nil, perm_middle}
use mathlib.Core.List.Perm
use powdr.Prelude.{
  ℕ, zero, suc, ◌+◌, ◌-◌, ◌≤◌, ◌≡◌, refl, Bool, true, ltb, ◌==◌, ◌&&◌, some, List, [], ◌∷◌, ◌++◌,
  length, map, Bool-cases, inl, inr,
}
use powdr.Executor.Memory.{
  Op, Row, key_lt, insert_op, sort_ops, op_row, next_row, op_rows, padding, no_selectors, last_op,
  finish,
}
use powdr.Executor.Memory.Padding.{StepsFit, finish_lem}

insert_op-perm : (op : Op) (ops : List Op) → Perm (insert_op op ops) (op ∷ ops)
unfolding insert_op
insert_op-perm op [] = Perm.rfl
insert_op-perm op (x ∷ xs) = elim (Bool-cases (key_lt op x)) [
  | inl e ↦ rw e Perm.rfl
  | inr e ↦ rw e (Perm.trans (Perm.cons x (insert_op-perm op xs)) (Perm.swap op x xs))
]

pub sort_ops-perm : (ops sorted : List Op) → Perm (sort_ops sorted ops) (sorted ++ ops)
unfolding sort_ops
sort_ops-perm [] sorted = rw (append-nil sorted) Perm.rfl
sort_ops-perm (op ∷ ops) sorted = Perm.trans (sort_ops-perm ops (insert_op op sorted)) (
    Perm.trans (Perm.append_right ops (insert_op-perm op sorted))
      (Perm.symm (perm_middle sorted ops)))

-- What an operation, and a row, say of the memory: address, step, value and whether it is a write.
abbrev pub op_access : Op → ℕ × ℕ × ℕ × ℕ
op_access op = (op.addr, op.step, op.value, op.write)

abbrev pub row_access : Row → ℕ × ℕ × ℕ × ℕ
row_access r = (r.addr, r.step, r.value, r.is_write)

unfoldable pub all_zero : List ℕ → Bool
all_zero [] = true
all_zero (n ∷ ns) = n == 0 && all_zero ns

-- The rows are no writes and none of their selectors is set.
unfoldable pub all_idle : List Row → Bool
all_idle [] = true
all_idle (r ∷ rows) = r.is_write == 0 && all_zero r.selectors && all_idle rows

module _ (selector_count : ℕ) where
  next_row-access : (op next : Op) → row_access (next_row selector_count op next) ≡ op_access op
  unfolding next_row op_row
  next_row-access op next = elim (Bool-cases (ltb op.addr next.addr)) [
    | inl e ↦ rw e refl
    | inr e ↦ rw e refl
  ]

  op_rows-access : (ops : List Op) → map row_access (op_rows selector_count ops) ≡ map op_access ops
  unfolding op_rows op_row
  op_rows-access [] = refl
  op_rows-access (op ∷ []) = refl
  op_rows-access (op ∷ next ∷ ops) = rw (next_row-access op next, op_rows-access (next ∷ ops)) refl

  no_selectors-zero : (n : ℕ) → all_zero (no_selectors n) ≡ true
  unfolding all_zero no_selectors
  no_selectors-zero zero = refl
  no_selectors-zero (suc n) = no_selectors-zero n

  padding-idle :
      (n addr step value : ℕ) → all_idle (padding selector_count n addr step value) ≡ true
  unfolding all_idle padding
  padding-idle zero addr step value = refl
  padding-idle (suc n) addr step value =
      rw (no_selectors-zero selector_count) (padding-idle n addr (suc step) value)

  -- For any memory operations, no more than the degree, where the u32 steps of the rows to be
  -- added, and the one after them, fit 32 bits, `finish` returns rows that begin with those of the
  -- operations, in some order: their addresses, steps, values and write flags are a permutation of
  -- the operations'; the rows after these are no writes and set no selector.
  pub finish-Perm :
      (ops : List Op) (degree : ℕ)
      → length ops ≤ degree
      → StepsFit selector_count ops degree
      → (rows more : List Row) × (finish selector_count ops degree ≡ some (rows ++ more))
        × Perm (map row_access rows) (map op_access ops)
        × (all_idle more ≡ true)
  finish-Perm ops degree le fit =
      let sorted = sort_ops [] ops in
      let last = last_op selector_count sorted in
      (
        op_rows selector_count sorted,
        padding selector_count (degree - length ops) last.addr (last.step + 1) last.value,
        finish_lem selector_count ops degree le fit,
        rw (op_rows-access sorted) (Perm.map op_access (sort_ops-perm ops [])),
        padding-idle (degree - length ops) last.addr (last.step + 1) last.value,
      )
