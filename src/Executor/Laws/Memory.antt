-- ===== src/Executor/Laws/Memory.antt =====
-- The laws of Executor/Instr/Memory.antt.
use powdr.Executor.Instr.Memory.{exec_mstore, exec_mload, exec_load_label}
use powdr.Prelude.Bits.{bit_and_step, bit_and_mask}
use powdr.Prelude.{
  ℕ, ◌+◌, ◌-◌, ◌*◌, ◌^◌, ◌%◌, ◌/◌, ◌<◌, ◌≤◌, ◌≡◌, [], ◌∷◌, none, some, arith, get_or, update,
  bit_and,
}
use powdr.Prelude.Int.{pos, ◌+ℤ◌, ◌-ℤ◌}
use powdr.Executor.Elem.{Elem}
use powdr.Executor.Names.{Instruction}
use powdr.Executor.State.{State, Core, outcome}
use powdr.Executor.Proc.{set_mem, get_mem}
use powdr.Executor.Laws.{
  word, Holds, with_reg, Changes, changes-outcome, u-word, checked-small, add-small,
}

-- `x & 0xfffffffc` rounds a word down to a multiple of four.
pub aligned : (x : ℕ) → x < 2 ^ 32 → bit_and x 0xfffffffc ≡ x / 4 * 4
aligned x h =
    omega (
      arith,
      bit_and_step x 0xfffffffc,
      bit_and_step (x / 2) 0x7ffffffe,
      bit_and_mask 30 (x / 2 / 2),
    )

abbrev pub with_mem : ℕ → ℕ → Core → Core
with_mem addr v c = record c { mem = update c.mem addr (some v) }

-- The word at an address; memory that was not written is 0.
abbrev pub load_word : Core → ℕ → ℕ
load_word c addr = get_or (c.mem addr) 0

module _ (st : State) (r1 r2 r3 : ℕ) (h1 : r1 < 256) (h2 : r2 < 256) (h3 : r3 < 256) where
  -- With 32-bit words a and b in the first two registers and a 32-bit offset for which a + offset
  -- - b is not negative and a multiple of four, and a 32-bit value in the third register, `mstore`
  -- succeeds in every mode and sets exactly the word at that address modulo 2^32 (register
  -- addresses below 256).
  pub mstore_lem :
      (instr : Instruction) (a b off v : ℕ)
      → Holds st r1 (pos a)
      → Holds st r2 (pos b)
      → Holds st r3 (pos v)
      → a < 2 ^ 32
      → off < 2 ^ 32
      → v < 2 ^ 32
      → b ≤ a + off
      → b < 2 ^ 32
      → (a + off - b) % 4 ≡ 0
      → outcome (exec_mstore instr (word r1 ∷ word r2 ∷ word off ∷ word r3 ∷ []) st)
        ≡ some (none, with_mem ((a + off - b) % 2 ^ 32) v st.core)
  unfolding exec_mstore set_mem
  mstore_lem instr a b off v ha hb hv la lo lv le lb al =
      rw
        (
          u-word r1 (omega arith),
          u-word r2 (omega arith),
          ha,
          hb,
          u-word r3 (omega arith),
          hv,
          checked-small (pos a -ℤ pos b) (ground arith),
          at_address,
          checked-small (pos (a + off - b)) (omega arith),
          u-word v lv,
        )
        (ground arith)
    where
      at_address : pos a -ℤ pos b +ℤ pos off ≡ pos (a + off - b)
      at_address = ground arith

  -- With a 32-bit word in the base register and a 32-bit offset, `mload` succeeds in every mode
  -- and writes the word at the address modulo 2^32 rounded down to a multiple of four (0 where
  -- nothing was stored) to the first target, and then the address modulo four to the second; it
  -- changes nothing else but what is recorded (register addresses below 256).
  pub exec_mload_lem :
      (a off : ℕ)
      → Holds st r1 (pos a)
      → a < 2 ^ 32
      → off < 2 ^ 32
      → Changes (exec_mload (word r1 ∷ word off ∷ word r2 ∷ word r3 ∷ [])) st none (
          with_reg r3
            (word ((a + off) % 4))
            (with_reg r2 (word (load_word st.core ((a + off) % 2 ^ 32 / 4 * 4))) st.core))
  unfolding exec_mload get_mem
  exec_mload_lem a off ha la lo = rw (
    u-word r1 (omega arith),
    ha,
    u-word r2 (omega arith),
    u-word r3 (omega arith),
    sum,
    checked-small (pos (a + off)) (omega arith),
    aligned ((a + off) % 2 ^ 32) (omega arith),
    add-small (pos a) (pos off) (rw sum (omega arith)),
  )
    where
      sum : pos a +ℤ pos off ≡ pos (a + off)
      sum = ground arith

  pub mload_lem :
      (a off : ℕ)
      → Holds st r1 (pos a)
      → a < 2 ^ 32
      → off < 2 ^ 32
      → outcome (exec_mload (word r1 ∷ word off ∷ word r2 ∷ word r3 ∷ []) st)
        ≡ some (
          none,
          with_reg r3
              (word ((a + off) % 4))
              (with_reg r2 (word (load_word st.core ((a + off) % 2 ^ 32 / 4 * 4))) st.core),
        )
  mload_lem a off ha la lo = changes-outcome _ st _ _ (exec_mload_lem a off ha la lo)

pub load_label_lem :
    (st : State) (w : ℕ) (hw : w < 256) (v : Elem)
    → outcome (exec_load_label (word w ∷ v ∷ []) st) ≡ some (none, with_reg w v st.core)
unfolding exec_load_label
load_label_lem st w hw v = ground (arith, u-word w (omega arith))
