-- ===== src/Executor/Memory/Rows.antt =====
-- The rows of riscv-executor/src/memory.rs against the constraints of the memory machine
-- (std/machines/large_field/memory.asm) between a row and the next one.
use powdr.Prelude.{
  ℕ, zero, suc, ◌+◌, ◌-◌, ◌*◌, ◌^◌, ◌≤◌, ◌<◌, ◌≡◌, ◌⊎◌, inl, inr, refl, ap, arith, true, false, ltb,
  ◌==◌, some, List, [], ◌∷◌, ◌++◌, length, Bool-cases,
}
use powdr.Executor.Memory.{
  Op, Row, key_lt, sort_ops, op_row, next_row, op_rows, padding, last_op, finish, diff_minus_one,
}
use powdr.Executor.Memory.Sorted.{
  increasing, distinct, all_fit, sorted-increasing, sort_ops-fit, length-sort_ops,
}
use powdr.Executor.Memory.Padding.{StepsFit, finish_lem}

-- A row with the address and step of the next one: m_change is a flag, the halves of the
-- difference fit 16 bits, the address stays while m_change is 0, and what increases does so by one
-- more than the halves say.
pub record Follows (r : Row) (addr step : ℕ) : Type 0 where
  pub flag : (r.change ≡ 0) ⊎ (r.change ≡ 1)
  pub lower : r.diff_lower < 2 ^ 16
  pub upper : r.diff_upper < 2 ^ 16
  pub same_addr : r.change ≡ 0 → addr ≡ r.addr
  pub next_step : r.change ≡ 0 → step ≡ r.step + 1 + r.diff_upper * 2 ^ 16 + r.diff_lower
  pub next_addr : r.change ≡ 1 → addr ≡ r.addr + 1 + r.diff_upper * 2 ^ 16 + r.diff_lower

unfoldable pub Leads : Row → List Row → Type 0
Leads r [] = Unit {0}
Leads r (next ∷ rows) = Follows r next.addr next.step

unfoldable pub AllFollow : List Row → Type 0
AllFollow [] = Unit {0}
AllFollow (r ∷ rows) = Leads r rows × AllFollow rows

-- `m_change` of the last row.
unfoldable pub last_change : List Row → ℕ
last_change [] = 0
last_change (r ∷ []) = r.change
last_change (r ∷ next ∷ rows) = last_change (next ∷ rows)

module _ (selector_count : ℕ) where
  next_row-Follows :
      (op next : Op)
      → key_lt op next ≡ true
      → next.addr < 2 ^ 32
      → next.step < 2 ^ 32
      → Follows (next_row selector_count op next) next.addr next.step
  unfolding next_row op_row diff_minus_one
  next_row-Follows op next lt addr_fits step_fits = elim (Bool-cases (ltb op.addr next.addr)) [
    | inl e ↦ rw e (record {
      flag = inr refl;
      lower = omega arith;
      upper = omega arith;
      same_addr = λ h. absurd (omega arith);
      next_step = λ h. absurd (omega arith);
      next_addr = λ h. ground arith;
    })
    | inr e ↦ rw e (record {
      flag = inl refl;
      lower = omega arith;
      upper = omega arith;
      same_addr = λ h. ground arith;
      next_step = λ h. ground arith;
      next_addr = λ h. absurd (omega arith);
    })
  ]

  -- A row without a change, followed by its address and the next step.
  still-Leads :
      (r : Row) (n addr step value : ℕ)
      → r.change ≡ 0
      → r.diff_lower ≡ 0
      → r.diff_upper ≡ 0
      → addr ≡ r.addr
      → step ≡ r.step + 1
      → Leads r (padding selector_count n addr step value)
  unfolding Leads padding
  still-Leads r zero addr step value c l u ea es = tt
  still-Leads r (suc n) addr step value c l u ea es = record {
    flag = inl c;
    lower = omega arith;
    upper = omega arith;
    same_addr = λ h. ea;
    next_step = λ h. omega arith;
    next_addr = λ h. absurd (omega arith);
  }

  last-Leads : (r : Row) (addr step value : ℕ) → Leads r (padding selector_count 0 addr step value)
  unfolding Leads padding
  last-Leads r addr step value = tt

  padding-AllFollow : (n addr step value : ℕ) → AllFollow (padding selector_count n addr step value)
  unfolding AllFollow padding
  padding-AllFollow zero addr step value = tt
  padding-AllFollow (suc zero) addr step value = (last-Leads _ addr (suc step) value, tt)
  padding-AllFollow (suc (suc n)) addr step value =
      let more : (suc n == 0) ≡ false = ground arith in
      (
        still-Leads _ (suc n) addr (suc step) value (rw more refl) refl refl refl (omega arith),
        padding-AllFollow (suc n) addr (suc step) value,
      )

  next_row-key :
      (op next : Op)
      → ((next_row selector_count op next).addr ≡ op.addr)
        × ((next_row selector_count op next).step ≡ op.step)
  unfolding next_row op_row
  next_row-key op next = elim (Bool-cases (ltb op.addr next.addr)) [
    | inl e ↦ (rw e refl, rw e refl)
    | inr e ↦ (rw e refl, rw e refl)
  ]

  -- A row leads the rows of operations by the first one.
  op_rows-Leads :
      (r : Row) (op : Op) (ops : List Op) (rest : List Row)
      → Follows r op.addr op.step
      → Leads r (op_rows selector_count (op ∷ ops) ++ rest)
  unfolding op_rows Leads op_row
  op_rows-Leads r op [] rest f = f
  op_rows-Leads r op (next ∷ ops) rest f = let (a, s) = next_row-key op next in rw (a, s) f

  rows-AllFollow :
      (ops : List Op) (n : ℕ)
      → increasing ops ≡ true
      → all_fit ops ≡ true
      → AllFollow (
          op_rows selector_count ops
          ++ padding selector_count n
              (last_op selector_count ops).addr
              ((last_op selector_count ops).step + 1)
              (last_op selector_count ops).value)
  unfolding op_rows AllFollow increasing all_fit last_op op_row
  rows-AllFollow [] n h f = padding-AllFollow n 0 1 0
  rows-AllFollow (op ∷ []) n h f = (
    still-Leads (op_row selector_count op 0 0) n op.addr (op.step + 1) op.value refl refl refl refl
        refl,
    padding-AllFollow n op.addr (op.step + 1) op.value,
  )
  rows-AllFollow (op ∷ next ∷ ops) n h f =
      let first : key_lt op next ≡ true = ground arith in
      let rest : increasing (next ∷ ops) ≡ true = ground arith in
      let fits : all_fit (next ∷ ops) ≡ true = ground arith in
      let addr_fits : next.addr < 2 ^ 32 = ground arith in
      let step_fits : next.step < 2 ^ 32 = ground arith in
      (
        op_rows-Leads (next_row selector_count op next) next ops _
            (next_row-Follows op next first addr_fits step_fits),
        rows-AllFollow (next ∷ ops) n rest fits,
      )

  length-append : (xs ys : List Row) → length (xs ++ ys) ≡ length xs + length ys
  length-append [] ys = omega arith
  length-append (x ∷ xs) ys = omega (arith, length-append xs ys)

  length-op_rows : (ops : List Op) → length (op_rows selector_count ops) ≡ length ops
  unfolding op_rows
  length-op_rows [] = refl
  length-op_rows (op ∷ []) = refl
  length-op_rows (op ∷ next ∷ ops) = ap suc (length-op_rows (next ∷ ops))

  length-padding : (n addr step value : ℕ) → length (padding selector_count n addr step value) ≡ n
  unfolding padding
  length-padding zero addr step value = refl
  length-padding (suc n) addr step value = ap suc (length-padding n addr (suc step) value)

  -- For memory operations no two of which have the same address and step, with 32-bit addresses
  -- and steps and no more of them than the degree, and where the u32 steps of the rows to be
  -- added, and the one after them, fit 32 bits, `finish` returns as many rows as the degree, and
  -- every row and the next one satisfy the memory machine's constraints on m_change, addresses,
  -- steps and the two halves of the difference.
  pub finish-AllFollow :
      (ops : List Op) (degree : ℕ)
      → distinct ops ≡ true
      → all_fit ops ≡ true
      → length ops ≤ degree
      → StepsFit selector_count ops degree
      → (rows : List Row) × (finish selector_count ops degree ≡ some rows)
        × (length rows ≡ degree)
        × AllFollow rows
  unfolding all_fit
  finish-AllFollow ops degree d f le fit =
      let sorted = sort_ops [] ops in
      let last = last_op selector_count sorted in
      let n = degree - length ops in
      let pad = padding selector_count n last.addr (last.step + 1) last.value in
      let long : length (op_rows selector_count sorted ++ pad) ≡ degree = omega (
        arith,
        length-append (op_rows selector_count sorted) pad,
        length-op_rows sorted,
        length-padding n last.addr (last.step + 1) last.value,
        length-sort_ops ops [],
      ) in
      (
        op_rows selector_count sorted ++ pad,
        finish_lem selector_count ops degree le fit,
        long,
        rows-AllFollow sorted n (sorted-increasing ops d) (sort_ops-fit ops [] f refl),
      )
