-- ===== src/Riscv/LoadSpec.antt =====
-- The loads of RISC-V on a memory of little-endian words.
use powdr.Prelude.{ℕ, ◌+◌, ◌*◌, ◌^◌, ◌%◌, ◌/◌, ◌<◌, ◌≡◌, refl, arith, ◌⊎◌, inl, inr}
use powdr.Prelude.Int.{as_u32, as_i8}
use powdr.Executor.State.{Core}
use powdr.Executor.Laws.Memory.{load_word}
use powdr.Riscv.Instr.{Register, RiscvInstr}

pub data LoadOp : Type 0 where
  lw lb lbu lhu : LoadOp

-- The byte at an address: words are little-endian.
abbrev pub byte_at : Core → ℕ → ℕ
byte_at c addr = load_word c (addr / 4 * 4) / 2 ^ (8 * (addr % 4)) % 2 ^ 8

unfoldable pub loaded : LoadOp → Core → ℕ → ℕ
loaded LoadOp.lw c a =
    byte_at c a
    + 2 ^ 8 * byte_at c (a + 1)
    + 2 ^ 16 * byte_at c (a + 2)
    + 2 ^ 24 * byte_at c (a + 3)
loaded LoadOp.lb c a = as_u32 (as_i8 (byte_at c a))
loaded LoadOp.lbu c a = byte_at c a
loaded LoadOp.lhu c a = byte_at c a + 2 ^ 8 * byte_at c (a + 1)

abbrev pub load_instr : LoadOp → Register → Register → ℕ → RiscvInstr
load_instr LoadOp.lw = RiscvInstr.lw
load_instr LoadOp.lb = RiscvInstr.lb
load_instr LoadOp.lbu = RiscvInstr.lbu
load_instr LoadOp.lhu = RiscvInstr.lhu

-- The alignment that an access needs.
abbrev pub access_size : LoadOp → ℕ
access_size LoadOp.lw = 4
access_size LoadOp.lb = 1
access_size LoadOp.lbu = 1
access_size LoadOp.lhu = 2

abbrev pub byte_of : ℕ → ℕ → ℕ
byte_of w k = w / 2 ^ (8 * k) % 2 ^ 8

pub half_word :
    (w k : ℕ)
    → (k ≡ 0) ⊎ (k ≡ 2)
    → byte_of w k + 2 ^ 8 * byte_of w (k + 1) ≡ w / 2 ^ (k * 8) % 2 ^ 16
half_word w k (inl e) = rw e (omega arith)
half_word w k (inr e) = rw e (omega arith)

pub whole_word :
    (w : ℕ)
    → w < 2 ^ 32
    → byte_of w 0 + 2 ^ 8 * byte_of w 1 + 2 ^ 16 * byte_of w 2 + 2 ^ 24 * byte_of w 3 ≡ w
whole_word w h = omega arith

-- Bytes at the same word.
pub byte_at-add :
    (c : Core) (x j : ℕ)
    → x % 4 + j < 4
    → byte_at c (x + j) ≡ byte_of (load_word c (x / 4 * 4)) (x % 4 + j)
byte_at-add c x j h =
    let e : (x + j) / 4 * 4 ≡ x / 4 * 4 = omega arith in
    let f : (x + j) % 4 ≡ x % 4 + j = omega arith in rw (e, f) refl
