-- ===== src/Executor/Memory.antt =====
-- riscv-executor/src/memory.rs: the trace of the memory machine, made from the operations that
-- the executor recorded.
--
-- The columns are kept by rows: each turn of the source's loop pushes one entry to every column.
pub mod Sorted
pub mod Padding
pub mod Rows
pub mod LastRow
pub mod Contents
use powdr.Prelude.{
  ℕ, zero, suc, ◌+◌, ◌-◌, ◌*◌, ◌/◌, ◌%◌, ◌^◌, Bool, true, false, ltb, leb, ◌==◌, ◌&&◌, ◌||◌,
  if◌then◌else◌, Option, none, some, List, [], ◌∷◌, ◌++◌, length,
}

pub record Op : Type 0 where
  pub addr : ℕ
  pub step : ℕ
  pub value : ℕ
  pub write : ℕ
  pub selector_idx : ℕ

pub record Row : Type 0 where
  pub addr : ℕ
  pub step : ℕ
  pub change : ℕ
  pub value : ℕ
  pub is_write : ℕ
  pub diff_lower : ℕ
  pub diff_upper : ℕ
  pub selectors : List ℕ

-- `selector` is the index read out of the selector's text, if there is one; `none` is a panic.
unfoldable pub add_operation : List Op → Option ℕ → ℕ → ℕ → ℕ → ℕ → Option (List Op)
add_operation ops none op_id addr step value = none
add_operation ops (some selector_idx) op_id addr step value =
    if ltb addr (2 ^ 32) && ltb step (2 ^ 32)
    then some (
        ops
        ++ (record {
          addr = addr;
          step = step;
          value = value;
          write = op_id;
          selector_idx = selector_idx;
        }
            ∷ []))
    else none

-- The order of (addr, step).
abbrev pub key_lt : Op → Op → Bool
key_lt a b = ltb a.addr b.addr || (a.addr == b.addr && ltb a.step b.step)

-- `sort_by_key` is stable: an operation goes after those with the same key.
unfoldable pub insert_op : Op → List Op → List Op
insert_op op [] = op ∷ []
insert_op op (x ∷ xs) =
    let later = insert_op op xs in if key_lt op x then op ∷ x ∷ xs else x ∷ later

unfoldable pub sort_ops : List Op → List Op → List Op
sort_ops sorted [] = sorted
sort_ops sorted (op ∷ ops) = sort_ops (insert_op op sorted) ops

-- The selector columns of an operation, as many as the count cast to u8.
unfoldable pub selector_flags : ℕ → ℕ → ℕ → List ℕ
selector_flags zero i idx = []
selector_flags (suc count) i idx = (if i == idx then 1 else 0) ∷ selector_flags count (suc i) idx

unfoldable pub no_selectors : ℕ → List ℕ
no_selectors zero = []
no_selectors (suc count) = 0 ∷ no_selectors count

-- `(next - this).wrapping_sub(1)` of u32 values.
unfoldable pub diff_minus_one : ℕ → ℕ → ℕ
diff_minus_one next this = (next - this + 2 ^ 32 - 1) % 2 ^ 32

module _ (selector_count : ℕ) where
  unfoldable pub op_row : Op → ℕ → ℕ → Row
  op_row op change diff = record {
    addr = op.addr;
    step = op.step;
    change = change;
    value = op.value;
    is_write = op.write;
    diff_lower = diff % 2 ^ 16;
    diff_upper = diff / 2 ^ 16;
    selectors = selector_flags (selector_count % 256) 0 op.selector_idx;
  }

  -- The row of an operation that another one follows.
  unfoldable pub next_row : Op → Op → Row
  unfolding op_row diff_minus_one
  next_row op next =
      if ltb op.addr next.addr
      then op_row op 1 (diff_minus_one next.addr op.addr)
      else op_row op 0 (diff_minus_one next.step op.step)

  unfoldable pub op_rows : List Op → List Row
  op_rows [] = []
  op_rows (op ∷ []) = op_row op 0 0 ∷ []
  op_rows (op ∷ next ∷ ops) = next_row op next ∷ op_rows (next ∷ ops)

  -- The rows that extend the columns, with steps from `step` on; Change is 1 in the last one.
  unfoldable pub padding : ℕ → ℕ → ℕ → ℕ → List Row
  padding zero addr step value = []
  padding (suc count) addr step value =
      record {
        addr = addr;
        step = step;
        change = if count == 0 then 1 else 0;
        value = value;
        is_write = 0;
        diff_lower = 0;
        diff_upper = 0;
        selectors = no_selectors selector_count;
      }
      ∷ padding count addr (suc step) value

  -- `self.ops.last()`, or zeros.
  unfoldable pub last_op : List Op → Op
  last_op [] = record { addr = 0; step = 0; value = 0; write = 0; selector_idx = 0 }
  last_op (op ∷ []) = op
  last_op (op ∷ next ∷ ops) = last_op (next ∷ ops)

  -- "extend rows if needed". The range of u32 steps computes the successor of each step that it
  -- yields: `none` is the overflow of `last_step + 1` or of a successor.
  unfoldable pub extend_rows : ℕ → Op → Option (List Row)
  extend_rows zero last = some []
  extend_rows (suc count) last =
      if ltb (last.step + 1 + suc count) (2 ^ 32)
      then some (padding (suc count) last.addr (last.step + 1) last.value)
      else none

  -- `none` is the failed assertion on the degree, or the overflow of a step.
  unfoldable pub finish : List Op → ℕ → Option (List Row)
  finish ops degree =
      let sorted = sort_ops [] ops in
      let last = last_op sorted in
      if leb (length ops) degree
      then elim (extend_rows (degree - length ops) last) [
        | none ↦ none
        | some more ↦ some (op_rows sorted ++ more)
      ]
      else none
