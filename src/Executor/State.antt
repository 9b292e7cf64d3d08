-- ===== src/Executor/State.antt =====
-- riscv-executor/src/lib.rs: the state of `TraceBuilder`, `ExecutionTrace` and `Executor`, and the
-- monad in which their methods are written. `none` is a panic.
--
-- A hash map is a function into `Option`. The two row-major vectors keep their newest row apart:
-- `row` is the last row of `known_cols`, which is never empty after `Executor::init`.
use powdr.Prelude.{ℕ, Bool, true, false, List, Option, none, some}
use powdr.Executor.Elem.{Elem}
use powdr.Executor.Names.{Instruction, KnownFixedCol, MachineInstance}

pub data ExecMode : Type 0 where
  fast trace witness : ExecMode

pub data MemOperationKind : Type 0 where
  read write : MemOperationKind

pub record MemOperation : Type 0 where
  pub row : ℕ
  pub kind : MemOperationKind
  pub address : ℕ

-- One lookup into a submachine; `lookup_args` are field elements.
pub record SubmachineOp : Type 0 where
  pub machine : MachineInstance
  pub identity_id : ℕ
  pub lookup_args : List ℕ
  pub extra : List ℕ

-- A register of the bank, other than the pc: its value, the write to be set on the next row, and
-- the values of the finished rows, newest first.
pub record Slot : Type 0 where
  pub value : Elem
  pub pending : Option ℕ
  pub values : List ℕ

-- What does not change during an execution. `links` finds the identity of an instruction's link in
-- the PIL, `fixed` a cell of a fixed column of the program ROM, and `defined` says whether the
-- witness has a column of that name. The first two are total: they stand for tables that have an
-- entry for every link that an arm asks for and for every program counter that is reached, as the
-- compiled PIL has; the source panics where one is missing.
pub record Env : Type 0 where
  pub mode : ExecMode
  pub max_rows : ℕ
  pub batch_to_line_map : List ℕ
  pub bootloader_inputs : List Elem
  pub links : Instruction → MachineInstance → ℕ → ℕ
  pub fixed : KnownFixedCol → ℕ → ℕ
  pub defined : KnownFixedCol → Bool

-- What decides the further execution: the program counters, the memory and the register memory,
-- in an environment.
pub record Core : Type 0 where
  pub env : Env
  pub curr_pc : Elem
  pub next_pc : Elem
  pub next_statement_line : ℕ
  pub mem : ℕ → Option ℕ
  pub last : ℕ → Option Elem

-- What is recorded of it.
pub record Trace : Type 0 where
  pub len : ℕ
  pub pc_trace : List ℕ
  pub mem_ops : List MemOperation
  pub submachine_ops : List SubmachineOp
  pub row : ℕ → ℕ
  pub rows : List (ℕ → ℕ)

pub record State : Type 0 where
  pub core : Core
  pub log : Trace
  pub step : ℕ
  pub regs : List Slot
  pub second_last : ℕ → Option Elem

abbrev pub M : Type 0 → Type 0
M A = State → Option (A × State)

abbrev pub pure : {A : Type 0} → A → M A
pure a st = some (a, st)

abbrev pub bind_result : {A B : Type 0} → Option (A × State) → (A → M B) → Option (B × State)
bind_result none f = none
bind_result (some (a, st)) f = f a st

infixl 5 ◌>>=◌ ◌>>◌
abbrev pub ◌>>=◌ : {A B : Type 0} → M A → (A → M B) → M B
◌>>=◌ m f st = bind_result (m st) f

abbrev pub ◌>>◌ : {B : Type 0} → M (Unit {0}) → M B → M B
m >> k = m >>= λ _. k

abbrev pub lift_result : {A : Type 0} → Option A → State → Option (A × State)
lift_result none st = none
lift_result (some a) st = some (a, st)

-- `unwrap`
abbrev pub unwrap : {A : Type 0} → Option A → M A
unwrap o st = lift_result o st

-- `assert!`
abbrev pub assert : Bool → M (Unit {0})
assert true st = some (tt, st)
assert false st = none

abbrev pub get_state : M State
get_state st = some (st, st)

abbrev pub put_state : State → M (Unit {0})
put_state st _ = some (tt, st)

-- `if cond { … }`
abbrev pub when : Bool → M (Unit {0}) → M (Unit {0})
when true m st = m st
when false m st = some (tt, st)

abbrev pub with_core : Core → M (Unit {0})
with_core c st = some (tt, record st { core = c })

abbrev pub with_log : Trace → M (Unit {0})
with_log l st = some (tt, record st { log = l })

-- A result, with that part of the state which decides the further execution.
abbrev pub outcome : {A : Type 0} → Option (A × State) → Option (A × Core)
outcome none = none
outcome (some (a, st)) = some (a, st.core)

-- A result with its whole state but what is recorded, in whose place `log` stands.
abbrev pub except_log : {A : Type 0} → Trace → Option (A × State) → Option (A × State)
except_log log none = none
except_log log (some (a, st)) = some (a, record st { log = log })
