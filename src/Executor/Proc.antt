-- ===== src/Executor/Proc.antt =====
-- riscv-executor/src/lib.rs: the methods of `TraceBuilder`, and the register accesses of
-- `Executor` that record a lookup.
use powdr.Prelude.{
  ℕ, ◌+◌, Bool, false, leb, ◌==◌, if◌then◌else◌, List, [], ◌∷◌, map, Option, none, some, update,
  get_or, get_elem?, set,
}
use powdr.Prelude.Int.{pos}
use powdr.Executor.Elem.{Elem, binary, field, into_fe, u}
use powdr.Executor.Names.{Instruction, KnownWitnessCol, KnownFixedCol, MachineInstance, col_index}
use powdr.Executor.State.{
  ExecMode, fast, trace, witness, MemOperationKind, SubmachineOp, Slot, Trace, Env, State, M, pure,
  ◌>>=◌, ◌>>◌, unwrap, get_state, put_state, with_core, with_log,
}

-- `if let ExecMode::Witness = self.mode`
abbrev pub in_witness {ℓ} : {A : Type ℓ} → ExecMode → A → A → A
in_witness witness x y = x
in_witness fast x y = y
in_witness trace x y = y

-- `if let ExecMode::Trace | ExecMode::Witness = self.mode`
abbrev pub in_trace {ℓ} : {A : Type ℓ} → ExecMode → A → A → A
in_trace fast x y = y
in_trace trace x y = x
in_trace witness x y = x

-- What is recorded of a lookup.
unfoldable pub record_op : Env → SubmachineOp → Trace → Trace
record_op env op log = record log {
  submachine_ops = in_witness env.mode (op ∷ log.submachine_ops) log.submachine_ops;
}

unfoldable pub submachine_op : MachineInstance → ℕ → List ℕ → List ℕ → M (Unit {0})
submachine_op m identity_id lookup_args extra st =
    with_log
      (record_op st.core.env
        (record {
          machine = m;
          identity_id = identity_id;
          lookup_args = lookup_args;
          extra = extra;
        })
        st.log)
      st

unfoldable pub get_pc : M Elem
get_pc st = pure st.core.curr_pc st

unfoldable pub set_pc : Elem → M (Unit {0})
set_pc value = do
  st ← get_state
  index ← unwrap (u value)
  line ← unwrap (get_elem? st.core.env.batch_to_line_map index)
  with_core (record st.core { next_statement_line = line; next_pc = value })

-- `set_reg_idx` of a register other than the pc.
abbrev set_slot : ExecMode → Elem → Slot → Slot
set_slot mode value r = record {
  value = value;
  pending = in_trace mode (some (into_fe value)) r.pending;
  values = r.values;
}

unfoldable pub set_reg_idx : ℕ → Elem → M (Unit {0})
set_reg_idx idx value = do
  st ← get_state
  r ← unwrap (get_elem? st.regs idx)
  put_state (record st { regs = set st.regs idx (set_slot st.core.env.mode value r) })

-- The last row with one column written, in witness mode only.
unfoldable pub record_col : Env → KnownWitnessCol → Elem → Trace → Trace
record_col env col value log = record log {
  row = in_witness env.mode (update log.row (col_index col) (into_fe value)) log.row;
}

unfoldable pub set_col : KnownWitnessCol → Elem → M (Unit {0})
set_col col value st = with_log (record_col st.core.env col value st.log) st

-- The value of a register on the next row: the pending write, or the previous row's value.
abbrev previous : List ℕ → ℕ
previous [] = 0
previous (v ∷ vs) = v

abbrev push_slot : Slot → Slot
push_slot r = record {
  value = r.value;
  pending = none;
  values = get_or r.pending (previous r.values) ∷ r.values;
}

unfoldable pub push_row : ℕ → M (Unit {0})
push_row pc st =
    put_state
      (record st {
        regs = in_trace st.core.env.mode (map push_slot st.regs) st.regs;
        log = record st.log {
          pc_trace = in_trace st.core.env.mode (pc ∷ st.log.pc_trace) st.log.pc_trace;
          row = in_witness st.core.env.mode (λ _. 0) st.log.row;
          rows = in_witness st.core.env.mode (st.log.row ∷ st.log.rows) st.log.rows;
        };
      })
      st

unfoldable pub has_enough_rows : State → Bool
has_enough_rows st = leb st.core.env.max_rows st.log.len

unfoldable pub record_access : Env → MemOperationKind → ℕ → Trace → Trace
record_access env kind addr log = record log {
  mem_ops =
      in_trace env.mode (record { row = log.len; kind = kind; address = addr } ∷ log.mem_ops)
        log.mem_ops;
}

unfoldable pub set_mem : ℕ → ℕ → ℕ → ℕ → M (Unit {0})
unfolding submachine_op
set_mem addr val step identity_id = do
  submachine_op MachineInstance.memory_machine identity_id (1 ∷ addr ∷ step ∷ val ∷ []) []
  st ← get_state
  with_log (record_access st.core.env MemOperationKind.write addr st.log)
  with_core (record st.core { mem = update st.core.mem addr (some val) })

unfoldable pub get_mem : ℕ → ℕ → ℕ → M ℕ
unfolding submachine_op
get_mem addr step identity_id = do
  st ← get_state
  let val = get_or (st.core.mem addr) 0
  submachine_op MachineInstance.memory_machine identity_id (0 ∷ addr ∷ step ∷ val ∷ []) []
  st' ← get_state
  with_log (record_access st'.core.env MemOperationKind.read addr st'.log)
  pure val

abbrev pub write_reg : ℕ → Elem → (ℕ → Option Elem) → ℕ → Option Elem
write_reg addr val last = if addr == 0 then last else update last addr (some val)

unfoldable pub set_reg_mem : ℕ → Elem → M (Unit {0})
set_reg_mem addr val st = with_core (record st.core { last = write_reg addr val st.core.last }) st

-- The value of a register in the register memory; register 0 and a register not yet written are 0.
unfoldable pub read_reg : (ℕ → Option Elem) → ℕ → Elem
read_reg last addr = if addr == 0 then binary (pos 0) else get_or (last addr) (binary (pos 0))

unfoldable pub get_reg_mem : ℕ → M Elem
get_reg_mem addr st = pure (read_reg st.core.last addr) st

unfoldable pub backup_reg_mem : M (Unit {0})
backup_reg_mem st = put_state (record st { second_last = st.core.last }) st

-- `Executor::reg_read` and `Executor::reg_write`.
unfoldable pub reg_read : ℕ → ℕ → ℕ → M Elem
unfolding get_reg_mem submachine_op
reg_read step_offset reg identity_id = do
  val ← get_reg_mem reg
  st ← get_state
  submachine_op MachineInstance.regs identity_id
      (0 ∷ reg ∷ (st.step + step_offset) ∷ into_fe val ∷ []) []
  pure val

unfoldable pub reg_write : ℕ → ℕ → Elem → ℕ → M (Unit {0})
unfolding set_reg_mem submachine_op
reg_write step_offset reg val identity_id = do
  st ← get_state
  submachine_op MachineInstance.regs identity_id
      (1 ∷ reg ∷ (st.step + step_offset) ∷ into_fe val ∷ []) []
  set_reg_mem reg val

-- `Executor::instr_link_id`; identities are looked up in witness mode only.
unfoldable pub instr_link_id : Instruction → MachineInstance → ℕ → M ℕ
instr_link_id instr target idx st =
    pure (in_witness st.core.env.mode (st.core.env.links instr target idx) 0) st

-- The shorthand `get_fixed!`: a fixed column at the current pc.
unfoldable pub get_fixed : KnownFixedCol → M Elem
get_fixed col = do
  st ← get_state
  pc ← unwrap (in_witness st.core.env.mode (u st.core.curr_pc) (some 0))
  pure (field (in_witness st.core.env.mode (st.core.env.fixed col pc) 0))

unfoldable pub col_is_defined : Env → KnownFixedCol → Bool
col_is_defined env name = in_trace env.mode (env.defined name) false
