-- ===== src/Riscv/Sequence.antt =====
-- Straight-line code of the assembly machine: what a list of statements does to the part of the
-- state that decides the execution, one statement after another.
pub mod Statements
pub mod Unary
use powdr.Prelude.{
  ℕ, zero, suc, ◌+◌, ◌^◌, ◌<◌, ◌≡◌, ◌≢◌, refl, sym, ap, ◌∙◌, Bool, true, false, ◌==◌, List, [], ◌∷◌,
  ◌++◌, Option, none, some, arith, if◌then◌else◌, update, get_or, Bool-cases, inl, inr, eq→==,
}
use powdr.Prelude.Int.{ℤ, pos, negsuc, sub_ℕ}
use powdr.Executor.Elem.{Elem, binary}
use powdr.Executor.State.{
  State, Core, M, outcome, bind_result, get_state, put_state, ◌>>=◌, ◌>>◌, pure,
}
use powdr.Executor.Proc.{read_reg, write_reg, get_fixed, set_col, backup_reg_mem}
use powdr.Executor.Dispatch.{Arm, exec_instruction, prepare, arm_of, copy_const}
use powdr.Executor.Run.{
  Program, Statement, Expression, run_statement, eval_arguments, eval_expression, number,
}
use powdr.Executor.Names.{Instruction, KnownFixedCol, KnownWitnessCol}
use powdr.Executor.Laws.{word, with_reg, u-word}

-- From every state whose deciding part is `c`, `m` succeeds with `a`, and that part is then `c'`.
abbrev pub Does : {A : Type 0} → M A → Core → A → Core → Type 0
Does m c a c' = (st : State) → st.core ≡ c → outcome (m st) ≡ some (a, c')

-- `none` never shows an outcome, and a result shows its own.
outcome-bind :
    {A B : Type 0} (o : Option (A × State)) (f : A → M B) {a : A} {c : Core} {r : Option (B × Core)}
    → outcome o ≡ some (a, c)
    → ((st : State) → st.core ≡ c → outcome (f a st) ≡ r)
    → outcome (bind_result o f) ≡ r
outcome-bind none f e h = cc
outcome-bind (some (a', st)) f {a} {c} {r} e h =
    let same : a' ≡ a = cc in let core : st.core ≡ c = cc in rw same (h st core)

pub Does-bind :
    {A B : Type 0} (m : M A) (f : A → M B) {c c1 c2 : Core} {a : A} {b : B}
    → Does m c a c1
    → Does (f a) c1 b c2
    → Does (m >>= f) c b c2
Does-bind m f h k st e = outcome-bind (m st) f (h st e) k

-- The program counter is a word.
abbrev pub IsReady : Core → Type 0
IsReady c = (pc : ℕ) × (c.curr_pc ≡ word pc) × (pc < 2 ^ 32)

copy_const-Does :
    (fixed : KnownFixedCol) (col : KnownWitnessCol) (c : Core)
    → IsReady c
    → Does (copy_const fixed col) c tt c
unfolding copy_const
copy_const-Does fixed col c (pc, e, h) st es = ground (arith, u-word pc h)

Does-then :
    {B : Type 0} (m : M (Unit {0})) (k : M B) {c c1 c2 : Core} {b : B}
    → Does m c tt c1
    → Does k c1 b c2
    → Does (m >> k) c b c2
Does-then m k h i = Does-bind m (λ _. k) h i

prepare-Does : (c : Core) → IsReady c → Does prepare c tt c
unfolding prepare backup_reg_mem
prepare-Does c r =
    let copy = λ (f : KnownFixedCol) (k : KnownWitnessCol). copy_const-Does f k c r in
    let w : M (Unit {0}) = copy_const KnownFixedCol.w_const KnownWitnessCol.w in
    let z : M (Unit {0}) = copy_const KnownFixedCol.z_const KnownWitnessCol.z in
    let y : M (Unit {0}) = copy_const KnownFixedCol.y_const KnownWitnessCol.y in
    let x : M (Unit {0}) = copy_const KnownFixedCol.x_const KnownWitnessCol.x in
    Does-then backup_reg_mem (x >> (y >> (z >> w))) (λ st e. rw e)
      (Does-then x (y >> (z >> w)) (copy _ _)
        (Does-then y (z >> w) (copy _ _) (Does-then z w (copy _ _) (copy _ _))))

-- An instruction does what its arm does.
pub exec_instruction-Does :
    (precompile : Instruction → Arm) (instr : Instruction) (args : List Elem) {c c' : Core}
    {a : Option Elem}
    → IsReady c
    → Does (arm_of precompile instr args) c a c'
    → Does (exec_instruction precompile instr args) c a c'
unfolding exec_instruction
exec_instruction-Does precompile instr args {c} r h =
    Does-bind prepare (λ _. arm_of precompile instr args) (prepare-Does c r) h

-- The arguments evaluate to `vals`, whatever the registers of the bank are.
abbrev pub Evaluates : Program → List Expression → List Elem → Type 0
Evaluates prog inputs vals =
    (regs : ℕ → Option Elem) → eval_arguments prog.labels regs inputs ≡ some vals

-- A statement does what its instruction does on the values of its arguments.
pub run_statement-Does :
    (prog : Program) (s : Statement) (vals : List Elem) {c c' : Core} {a : Option Elem}
    → IsReady c
    → Evaluates prog s.inputs vals
    → Does (arm_of prog.precompile s.instruction vals) c a c'
    → Does (run_statement prog s) c a c'
unfolding run_statement set_col
run_statement-Does prog s vals r ev h st e =
    rw (ev _) (exec_instruction-Does prog.precompile s.instruction vals r h _ e)

-- Straight-line code: the statements one after the other, with no jump between them.
unfoldable pub run_block : Program → List Statement → M (Unit {0})
run_block prog [] = pure tt
run_block prog (s ∷ ss) = run_statement prog s >>= λ _. run_block prog ss

pub run_block-nil : (prog : Program) (c : Core) → Does (run_block prog []) c tt c
unfolding run_block
run_block-nil prog c st e = rw e

pub run_block-cons :
    (prog : Program) (s : Statement) (ss : List Statement) {c c1 c2 : Core} {a : Option Elem}
    → Does (run_statement prog s) c a c1
    → Does (run_block prog ss) c1 tt c2
    → Does (run_block prog (s ∷ ss)) c tt c2
unfolding run_block
run_block-cons prog s ss h k = Does-bind (run_statement prog s) (λ _. run_block prog ss) h k

-- Reading a register after a write.
pub read-write :
    (last : ℕ → Option Elem) (w r : ℕ) (v : Elem)
    → read_reg (write_reg w v last) r
      ≡ (if r == 0 then word 0 else if r == w then v else read_reg last r)
unfolding read_reg
read-write last w r v = ground arith
