-- ===== src/Riscv/Runs.antt =====
-- How the effects of the statements of one instruction compose.
use powdr.Prelude.{
  ℕ, ◌<◌, ◌≤◌, ◌≡◌, ◌≢◌, ◌∙◌, true, false, ◌==◌, List, [], ◌∷◌, Option, none, arith, ◌⊎◌, inl, inr,
  Bool-cases,
}
use powdr.Executor.Elem.{Elem}
use powdr.Executor.State.{Core}
use powdr.Executor.Proc.{read_reg, write_reg}
use powdr.Executor.Run.{Program, Statement, run_statement}
use powdr.Executor.Laws.{word, with_reg}
use powdr.Riscv.Instr.{Register, is_zero_register}
use powdr.Riscv.Asm.{only_if_no_write_to_zero_vec}
use powdr.Riscv.Sequence.{Does, run_block, run_block-nil, run_block-cons, read-write}
use powdr.Riscv.Spec.{expected}

-- The statements set `rd` to `v`, keep the other x registers, and change nothing else but the
-- register memory.
abbrev pub Runs : Program → List Statement → Core → Register → ℕ → Type 0
Runs prog stms c rd v =
    (last : ℕ → Option Elem) × (Does (run_block prog stms) c tt (record c { last = last }))
    × ((r : ℕ) → r < 32 → read_reg last r ≡ expected c.last rd v r)

expected-zero :
    (last : ℕ → Option Elem) (rd : Register) (v : ℕ) (r : Register)
    → (rd == 0) ≡ true
    → read_reg last r ≡ expected last rd v r
unfolding read_reg
expected-zero last rd v r e = ground arith

expected-written :
    (last : ℕ → Option Elem) (w rd : Register) (a : Elem) (v : ℕ) (r : Register)
    → (w ≡ rd) ⊎ (32 ≤ w)
    → r < 32
    → expected (write_reg w a last) rd v r ≡ expected last rd v r
expected-written last w rd a v r hw l = ground (arith, read-write last w r a)

-- The x registers do not show a write to another register.
pub read-hidden :
    (last : ℕ → Option Elem) (w r : Register) (a : Elem)
    → 32 ≤ w
    → r < 32
    → read_reg (write_reg w a last) r ≡ read_reg last r
unfolding read_reg
read-hidden last w r a hw l = ground arith

bool-clash : (rd : ℕ) → (rd == 0) ≡ false → rd ≢ 0
bool-clash rd e z = ground arith

module _ (prog : Program) where
  -- Nothing is written for x0.
  pub guarded :
      (stms : List Statement) (c : Core) (rd : Register) (v : ℕ)
      → (rd ≢ 0 → Runs prog stms c rd v)
      → Runs prog (only_if_no_write_to_zero_vec rd stms) c rd v
  unfolding only_if_no_write_to_zero_vec is_zero_register
  guarded stms c rd v h = elim (Bool-cases (rd == 0)) [
    | inl e ↦ rw e (c.last, run_block-nil prog c, λ r l. expected-zero c.last rd v r e)
    | inr e ↦ rw e (h (bool-clash rd e))
  ]

  pub last_statement :
      (s : Statement) (c : Core) (rd : Register) (v : ℕ)
      → Does (run_statement prog s) c none (with_reg rd (word v) c)
      → Runs prog (s ∷ []) c rd v
  last_statement s c rd v h = (
    write_reg rd (word v) c.last,
    run_block-cons prog s [] h (run_block-nil prog _),
    λ r l. read-write c.last rd r (word v),
  )

  -- A statement that writes a register which the x registers do not show, or `rd` itself.
  pub statement_then :
      (s : Statement) (ss : List Statement) (c : Core) (w rd : Register) (a : Elem) (v : ℕ)
      → (w ≡ rd) ⊎ (32 ≤ w)
      → Does (run_statement prog s) c none (with_reg w a c)
      → Runs prog ss (with_reg w a c) rd v
      → Runs prog (s ∷ ss) c rd v
  statement_then s ss c w rd a v hw h (last, run, reads) = (
    last,
    run_block-cons prog s ss h run,
    λ r l. reads r l ∙ expected-written c.last w rd a v r hw l,
  )

  -- A statement that writes two registers which the x registers do not show.
  pub hidden_then :
      (s : Statement) (ss : List Statement) (c : Core) (w1 w2 rd : Register) (a1 a2 : Elem) (v : ℕ)
      → 32 ≤ w1
      → 32 ≤ w2
      → Does (run_statement prog s) c none (with_reg w2 a2 (with_reg w1 a1 c))
      → Runs prog ss (with_reg w2 a2 (with_reg w1 a1 c)) rd v
      → Runs prog (s ∷ ss) c rd v
  hidden_then s ss c w1 w2 rd a1 a2 v h1 h2 h (last, run, reads) = (
    last,
    run_block-cons prog s ss h run,
    λ r l.
        reads r l
        ∙ expected-written (write_reg w1 a1 c.last) w2 rd a2 v r (inr h2) l
        ∙ expected-written c.last w1 rd a1 v r (inr h1) l,
  )

  -- The last statement, with a second result that the x registers do not show.
  pub last_of_two :
      (s : Statement) (c : Core) (w rd : Register) (v b : ℕ)
      → 32 ≤ w
      → Does (run_statement prog s) c none (with_reg w (word b) (with_reg rd (word v) c))
      → Runs prog (s ∷ []) c rd v
  last_of_two s c w rd v b hw h = (
    write_reg w (word b) (write_reg rd (word v) c.last),
    run_block-cons prog s [] h (run_block-nil prog _),
    λ r l. ground (
      arith,
      read-write c.last rd r (word v),
      read-write (write_reg rd (word v) c.last) w r (word b),
    ),
  )
