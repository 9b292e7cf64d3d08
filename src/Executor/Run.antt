-- ===== src/Executor/Run.antt =====
-- riscv-executor/src/lib.rs: `Executor::eval_expression`, the step to the next row of
-- `TraceBuilder`, and the body of the loop of `execute_inner`.
--
-- An expression is one of the forms that the generated code and the bootloader use; on the others
-- the source has `todo!`, a panic, or a call of an instruction or a query.
use powdr.Goldilocks
use powdr.Prelude.{
  ℕ, ◌+◌, ◌^◌, ◌%◌, ◌==◌, ltb, List, [], ◌∷◌, Option, none, some, if◌then◌else◌, get_elem?,
}
use powdr.Prelude.Int.{ℤ, pos, negsuc, ◌+ℤ◌, ◌-ℤ◌, checked, sub_ℕ, rem_ℤ}
use powdr.Executor.Elem.{Elem, binary, field, u, bin, try_u32, binary?, div_ℤ, same_elem}
use powdr.Executor.Elem
use powdr.Executor.Names.{Instruction, KnownWitnessCol}
use powdr.Executor.State.{State, M, pure, ◌>>=◌, ◌>>◌, unwrap, get_state, put_state, with_core}
use powdr.Executor.Proc.{set_col, push_row, has_enough_rows}
use powdr.Executor.Dispatch.{Arm, exec_instruction}

pub data BinaryOperator : Type 0 where
  add sub mul div mod_op pow : BinaryOperator

-- A reference is a label or a register; both are numbered.
pub data Expression : Type 0 where
  label : ℕ → Expression
  register : ℕ → Expression
  number : ℕ → Expression
  binary_operation : Expression → BinaryOperator → Expression → Expression
  minus : Expression → Expression

-- `l.pow(r)`
abbrev pow_ℤ : ℤ → ℕ → ℤ
pow_ℤ (pos a) k = pos (a ^ k)
pow_ℤ (negsuc a) k = if k % 2 == 0 then pos ((a + 1) ^ k) else sub_ℕ 0 ((a + 1) ^ k)

abbrev modulo : ℤ → ℤ → Option ℤ
modulo l (pos r) = if r == 0 then none else some (rem_ℤ l r)
modulo l (negsuc r) = checked (rem_ℤ l (r + 1))

abbrev pow? : ℤ → Option ℕ → Option Elem
pow? l none = none
pow? l (some k) = binary? (checked (pow_ℤ l k))

unfoldable pub apply_operator : BinaryOperator → Elem → Elem → Option Elem
apply_operator add (binary l) (binary r) = binary? (checked (l +ℤ r))
apply_operator sub (binary l) (binary r) = binary? (checked (l -ℤ r))
apply_operator mul (binary l) (binary r) = some (Elem.mul (binary l) (binary r))
apply_operator div (binary l) (binary r) = binary? (div_ℤ l r)
apply_operator mod_op (binary l) (binary r) = binary? (modulo l r)
apply_operator pow (binary l) (binary r) = pow? l (try_u32 r)
apply_operator sub (field l) (field r) = some (field (Goldilocks.sub l r))
apply_operator add (binary l) (field r) = some (field (Goldilocks.add (Goldilocks.from_i64 l) r))
apply_operator _ _ _ = none

unfoldable pub negate : Elem → Option Elem
negate (binary x) = binary? (checked (pos 0 -ℤ x))
negate (field f) = none

abbrev both : Option Elem → Option Elem → (Elem → Elem → Option Elem) → Option Elem
both (some l) (some r) f = f l r
both _ _ f = none

abbrev then? : Option Elem → (Elem → Option Elem) → Option Elem
then? none f = none
then? (some x) f = f x

-- A literal has to fit a u32.
abbrev number? : Option ℕ → Option Elem
number? none = none
number? (some n) = some (binary (pos n))

unfoldable pub eval_expression : (ℕ → Elem) → (ℕ → Option Elem) → Expression → Option Elem
unfolding apply_operator negate
eval_expression labels regs (label l) = some (labels l)
eval_expression labels regs (register r) = regs r
eval_expression labels regs (number n) = number? (try_u32 (pos n))
eval_expression labels regs (binary_operation l op r) =
    both (eval_expression labels regs l) (eval_expression labels regs r) (apply_operator op)
eval_expression labels regs (minus e) = then? (eval_expression labels regs e) negate

-- The arguments of an instruction, all of them evaluated.
abbrev cons? : Option Elem → Option (List Elem) → Option (List Elem)
cons? (some x) (some xs) = some (x ∷ xs)
cons? _ _ = none

unfoldable pub eval_arguments :
    (ℕ → Elem) → (ℕ → Option Elem) → List Expression → Option (List Elem)
unfolding eval_expression
eval_arguments labels regs [] = some []
eval_arguments labels regs (e ∷ es) =
    cons? (eval_expression labels regs e) (eval_arguments labels regs es)

pub record Statement : Type 0 where
  pub instruction : Instruction
  pub inputs : List Expression

-- What does not change during a run besides the environment: the labels, and the instructions that
-- are not modelled.
pub record Program : Type 0 where
  pub labels : ℕ → Elem
  pub precompile : Instruction → Arm

-- The value of a register of the bank, `none` for a name that there is not.
abbrev bank : State → ℕ → Option Elem
bank st r = elim (get_elem? st.regs r) [ none ↦ none | some slot ↦ some slot.value ]

-- The loop's body for an instruction: `e.step += 4`, the operation id, and `exec_instruction`.
unfoldable pub run_statement : Program → Statement → M (Option Elem)
run_statement prog stm = do
  st ← get_state
  put_state (record st { step = st.step + 4 })
  set_col KnownWitnessCol.operation_id (binary (pos 2))
  st' ← get_state
  args ← unwrap (eval_arguments prog.labels (bank st') stm.inputs)
  exec_instruction prog.precompile stm.instruction args

-- The comparison with the line at which the next batch begins.
abbrev compare_line : ℕ → State → Option ℕ → M (Option (Unit {0}))
compare_line pc st none = pure none
compare_line pc st (some line_of_next_batch) =
    if ltb st.core.next_statement_line line_of_next_batch
    then pure (some tt)
    else if st.core.next_statement_line == line_of_next_batch
    then with_core (record st.core { next_pc = binary (pos (pc + 1)) }) >> pure (some tt)
    else if ltb pc 2
    then pure none
    else unwrap none

-- `set_next_pc`; `none` is the end of the program, where there is no further batch.
unfoldable pub set_next_pc : M (Option (Unit {0}))
set_next_pc = do
  st ← get_state
  pc ← unwrap (u st.core.curr_pc)
  compare_line pc st (get_elem? st.core.env.batch_to_line_map (pc + 1))

-- The row that `advance` finishes when the pc has changed.
unfoldable pub next_row : M (Unit {0})
unfolding set_col push_row
next_row = do
  st ← get_state
  put_state (record st { log = record st.log { len = st.log.len + 1 } })
  set_col KnownWitnessCol.pc_update st.core.next_pc
  pc ← unwrap (u st.core.next_pc)
  push_row pc
  st' ← get_state
  with_core (record st'.core { curr_pc = st'.core.next_pc })

-- The second half of `advance`: on to the next statement.
unfoldable pub next_statement : M (Option ℕ)
unfolding set_next_pc
next_statement = do
  st ← get_state
  with_core (record st.core { next_statement_line = st.core.next_statement_line + 1 })
  r ← set_next_pc
  pure (elim r [ none ↦ none | some _ ↦ some st.core.next_statement_line ])

unfoldable pub advance : M (Option ℕ)
unfolding next_row next_statement has_enough_rows
advance = do
  st ← get_state
  if same_elem st.core.curr_pc st.core.next_pc
      then next_statement
      else if has_enough_rows st
      then pure none
      else next_row >> next_statement
