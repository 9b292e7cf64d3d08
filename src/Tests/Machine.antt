-- ===== src/Tests/Machine.antt =====
-- A machine in witness mode with a few registers and one word of memory set.
use powdr.Prelude.{ℕ, ◌==◌, refl, arith, true, [], ◌∷◌, Option, none, some, if◌then◌else◌}
use powdr.Prelude.Int.{pos}
use powdr.Executor.Elem.{Elem}
use powdr.Executor.State.{State, witness}
use powdr.Executor.Proc.{read_reg}
use powdr.Executor.Run.{Program}
use powdr.Executor.Laws.{word, Holds}
use powdr.Riscv.Sequence.{IsReady}

abbrev pub registers : ℕ → Option Elem
registers r =
    if r == 5
    then some (word 0xfffffff0)
    else if r == 6
    then some (word 100)
    else if r == 7
    then some (word 35)
    else none

abbrev pub memory : ℕ → Option ℕ
memory a = if a == 100 then some 0xdeadbeef else none

abbrev pub machine : State
machine = record {
  core = record {
    env = record {
      mode = witness;
      max_rows = 1000;
      batch_to_line_map = 0 ∷ 2 ∷ 5 ∷ 9 ∷ 12 ∷ 20 ∷ [];
      bootloader_inputs = [];
      links = λ _ _ k. k;
      fixed = λ _ _. 0;
      defined = λ _. true;
    };
    curr_pc = word 2;
    next_pc = word 2;
    next_statement_line = 6;
    mem = memory;
    last = registers;
  };
  log = record {
    len = 1;
    pc_trace = [];
    mem_ops = [];
    submachine_ops = [];
    row = λ _. 0;
    rows = [];
  };
  step = 0;
  regs = [];
  second_last = registers;
}

abbrev pub program : Program
program = record { labels = λ l. word l; precompile = λ _ _ st. none }

pub machine-IsReady : IsReady machine.core
machine-IsReady = (2, refl, omega arith)

pub reads_5 : Holds machine 5 (pos 0xfffffff0)
unfolding read_reg
reads_5 = refl

pub reads_6 : Holds machine 6 (pos 100)
unfolding read_reg
reads_6 = refl

pub reads_7 : Holds machine 7 (pos 35)
unfolding read_reg
reads_7 = refl
