-- ===== src/Riscv/Load.antt =====
-- What the code generated for the loads does.
use native.Mathlib.Nat.{div-le_self}
use powdr.Prelude.{
  ℕ, ◌⊎◌, ◌+◌, ◌*◌, ◌^◌, ◌%◌, ◌/◌, ◌<◌, ◌≤◌, ◌≡◌, refl, sym, List, [], ◌∷◌, arith, inr,
}
use powdr.Prelude.Bits.{bit_and_mask}
use powdr.Prelude.Int.{pos, ◌*ℤ◌, ◌+ℤ◌}
use powdr.Executor.State.{State, Core}
use powdr.Executor.Names.{Instruction}
use powdr.Executor.Instr.Bitwise.{binary_result, shift_result}
use powdr.Executor.Instr.Extend.{extend_byte}
use powdr.Executor.Run.{Program, Statement}
use powdr.Executor.Laws.{word, with_reg, Holds}
use powdr.Executor.Laws.Memory.{load_word}
use powdr.Riscv.Instr.{Register, tmp1, tmp2}
use powdr.Riscv.Asm.{only_if_no_write_to_zero, only_if_no_write_to_zero_vec, stm}
use powdr.Riscv.CodeGen.{process_instruction}
use powdr.Riscv.Sequence.{IsReady}
use powdr.Riscv.Sequence.Statements.{At, At-zero, At-write_ne, At-write_self, and-Does, shr-Does}
use powdr.Riscv.Sequence.Unary.{affine-Does, sign_extend_byte-Does, mload-Does}
use powdr.Riscv.LoadSpec.{
  LoadOp, byte_at, loaded, load_instr, access_size, half_word, whole_word, byte_at-add,
}
use powdr.Riscv.Runs.{Runs, guarded, last_statement, statement_then, hidden_then, last_of_two}
use powdr.Riscv.Alu.Correct.{Generates, Leaves, generated}

module _ (prog : Program) (c : Core) (ready : IsReady c) (rd rs : Register) (ld : rd < 32)
    (ls : rs < 32) (a off : ℕ) (ha : At c rs (pos a)) (la : a < 2 ^ 32) (lo : off < 2 ^ 32)
    (fits : load_word c ((a + off) % 2 ^ 32 / 4 * 4) < 2 ^ 32) where
  abbrev address : ℕ
  address = (a + off) % 2 ^ 32

  abbrev word_there : ℕ
  word_there = load_word c (address / 4 * 4)

  abbrev place : ℕ
  place = (a + off) % 4

  abbrev read : Core
  read = with_reg tmp2 (word place) (with_reg tmp1 (word word_there) c)

  abbrev scaled : Core
  scaled = with_reg tmp2 (word (place * 8)) read

  abbrev shifted : ℕ
  shifted = word_there / 2 ^ (place * 8)

  abbrev extracted : Core
  extracted = with_reg tmp1 (word shifted) scaled

  scale : pos place *ℤ pos 8 +ℤ pos 0 ≡ pos (place * 8)
  scale = ground arith

  shifted-lt : shifted < 2 ^ 32
  shifted-lt =
      let l : shifted ≤ word_there = div-le_self word_there (2 ^ (place * 8)) in omega arith

  -- The statements that all loads of less than a word begin with leave the wanted bytes in `tmp1`.
  extract-then :
      (ss : List Statement) (v : ℕ)
      → Runs prog ss extracted rd v
      → Runs prog
          (stm Instruction.mload (rs ∷ off ∷ tmp1 ∷ tmp2 ∷ [])
            ∷ stm Instruction.affine (tmp2 ∷ tmp2 ∷ 8 ∷ 0 ∷ [])
            ∷ stm Instruction.shr (tmp1 ∷ tmp2 ∷ 0 ∷ tmp1 ∷ [])
            ∷ ss)
          c
          rd
          v
  unfolding shift_result
  extract-then ss v h =
      hidden_then prog _ _ c tmp1 tmp2 rd _ _ v (omega arith) (omega arith)
        (mload-Does prog c ready rs tmp1 tmp2 (omega arith) (omega arith) (omega arith) a off ha la
          lo)
        (statement_then prog _ _ read tmp2 rd _ v (inr (omega arith))
          (rw (sym scale) (
            affine-Does prog read ready tmp2 tmp2 (omega arith) (omega arith) (pos place) 8 0
              (At-write_self (with_reg tmp1 (word word_there) c) tmp2 _ (omega arith)) (omega arith)
              (omega arith) (ground arith) (ground arith)))
          (statement_then prog _ _ scaled tmp1 rd _ v (inr (omega arith))
            (shr-Does prog scaled ready tmp1 tmp2 tmp1 (omega arith) (omega arith) (omega arith)
              word_there (place * 8) 0 shifted
              (At-write_ne read tmp2 tmp1 _ _ (omega arith) (
                At-write_ne (with_reg tmp1 (word word_there) c) tmp2 tmp1 _ _ (omega arith)
                  (At-write_self c tmp1 _ (omega arith))))
              (At-write_self read tmp2 _ (omega arith)) fits (omega arith) (ground arith))
            h))

  holds_shifted : At extracted tmp1 (pos shifted)
  holds_shifted = At-write_self scaled tmp1 _ (omega arith)

  at_place : address % 4 ≡ place
  at_place = omega arith

  byte_there : byte_at c address ≡ shifted % 2 ^ 8
  byte_there = let e : 8 * (address % 4) ≡ place * 8 = omega arith in rw e refl

  half_there : address % 2 ≡ 0 → loaded LoadOp.lhu c address ≡ shifted % 2 ^ 16
  unfolding loaded
  half_there al =
      let aligned : (place ≡ 0) ⊎ (place ≡ 2) = grind arith in
      rw (byte_at-add c address 1 (omega arith), at_place) (half_word word_there place aligned)

  word_at : address % 4 ≡ 0 → loaded LoadOp.lw c address ≡ word_there
  unfolding loaded
  word_at al =
      rw
        (
          byte_at-add c address 1 (omega arith),
          byte_at-add c address 2 (omega arith),
          byte_at-add c address 3 (omega arith),
          al,
        )
        (whole_word word_there fits)

  pub lbu-Runs :
      Runs prog
        (only_if_no_write_to_zero_vec rd (
          stm Instruction.mload (rs ∷ off ∷ tmp1 ∷ tmp2 ∷ [])
          ∷ stm Instruction.affine (tmp2 ∷ tmp2 ∷ 8 ∷ 0 ∷ [])
          ∷ stm Instruction.shr (tmp1 ∷ tmp2 ∷ 0 ∷ tmp1 ∷ [])
          ∷ stm Instruction.and_ (tmp1 ∷ 0 ∷ 0xff ∷ rd ∷ [])
          ∷ []))
        c
        rd
        (loaded LoadOp.lbu c address)
  unfolding loaded binary_result
  lbu-Runs = guarded prog _ c rd _ (λ _. extract-then _ _ (
      last_statement prog _ extracted rd _ (
        rw (byte_there, sym (bit_and_mask 8 shifted))
          (and-Does prog extracted ready tmp1 0 rd (omega arith) (omega arith) (omega arith) shifted
            0 0xff holds_shifted (At-zero extracted) shifted-lt (omega arith)))))

  pub lhu-Runs :
      address % 2 ≡ 0
      → Runs prog
          (only_if_no_write_to_zero_vec rd (
            stm Instruction.mload (rs ∷ off ∷ tmp1 ∷ tmp2 ∷ [])
            ∷ stm Instruction.affine (tmp2 ∷ tmp2 ∷ 8 ∷ 0 ∷ [])
            ∷ stm Instruction.shr (tmp1 ∷ tmp2 ∷ 0 ∷ tmp1 ∷ [])
            ∷ stm Instruction.and_ (tmp1 ∷ 0 ∷ 0x0000ffff ∷ rd ∷ [])
            ∷ []))
          c
          rd
          (loaded LoadOp.lhu c address)
  unfolding binary_result
  lhu-Runs al = guarded prog _ c rd _ (λ _. extract-then _ _ (
      last_statement prog _ extracted rd _ (
        rw (half_there al, sym (bit_and_mask 16 shifted))
          (and-Does prog extracted ready tmp1 0 rd (omega arith) (omega arith) (omega arith) shifted
            0 0xffff holds_shifted (At-zero extracted) shifted-lt (omega arith)))))

  pub lb-Runs :
      Runs prog
        (only_if_no_write_to_zero_vec rd (
          stm Instruction.mload (rs ∷ off ∷ tmp1 ∷ tmp2 ∷ [])
          ∷ stm Instruction.affine (tmp2 ∷ tmp2 ∷ 8 ∷ 0 ∷ [])
          ∷ stm Instruction.shr (tmp1 ∷ tmp2 ∷ 0 ∷ tmp1 ∷ [])
          ∷ stm Instruction.sign_extend_byte (tmp1 ∷ rd ∷ [])
          ∷ []))
        c
        rd
        (loaded LoadOp.lb c address)
  unfolding loaded extend_byte
  lb-Runs = guarded prog _ c rd _ (λ _. extract-then _ _ (
      last_statement prog _ extracted rd _ (
        rw byte_there (
          sign_extend_byte-Does prog extracted ready tmp1 rd (omega arith) (omega arith) shifted
            holds_shifted shifted-lt))))

  pub lw-Runs :
      address % 4 ≡ 0
      → Runs prog
          (only_if_no_write_to_zero rd (stm Instruction.mload (rs ∷ off ∷ rd ∷ tmp1 ∷ [])))
          c
          rd
          (loaded LoadOp.lw c address)
  unfolding only_if_no_write_to_zero
  lw-Runs al = guarded prog _ c rd _ (λ _.
      last_of_two prog _ c tmp1 rd (loaded LoadOp.lw c address) place (omega arith) (
        rw (word_at al) (
          mload-Does prog c ready rs rd tmp1 (omega arith) (omega arith) (omega arith) a off ha la
            lo)))

load-Generates :
    (prog : Program) (handler : ℕ) (op : LoadOp) (c : Core)
    → IsReady c
    → (rd rs : Register) → rd < 32
    → rs < 32
    → (a off : ℕ) → At c rs (pos a)
    → a < 2 ^ 32
    → off < 2 ^ 32
    → (a + off) % 2 ^ 32 % access_size op ≡ 0
    → load_word c ((a + off) % 2 ^ 32 / 4 * 4) < 2 ^ 32
    → Generates prog handler (load_instr op rd rs off) c rd (loaded op c ((a + off) % 2 ^ 32))
unfolding process_instruction
load-Generates prog handler LoadOp.lw c ready rd rs ld ls a off ha la lo al fits =
    (_, refl, lw-Runs prog c ready rd rs ld ls a off ha la lo fits al)
load-Generates prog handler LoadOp.lb c ready rd rs ld ls a off ha la lo al fits =
    (_, refl, lb-Runs prog c ready rd rs ld ls a off ha la lo fits)
load-Generates prog handler LoadOp.lbu c ready rd rs ld ls a off ha la lo al fits =
    (_, refl, lbu-Runs prog c ready rd rs ld ls a off ha la lo fits)
load-Generates prog handler LoadOp.lhu c ready rd rs ld ls a off ha la lo al fits =
    (_, refl, lhu-Runs prog c ready rd rs ld ls a off ha la lo fits al)

-- For lw, lb, lbu and lhu at an aligned address in which a 32-bit word stands: the emitted
-- statements, run by the executor from any state, in any mode, whose program counter is a 32-bit
-- word and whose base register holds a 32-bit word, with a 32-bit offset, succeed, set rd (unless
-- it is x0) to the bytes at the address modulo 2^32, least first, sign-extended for lb, keep every
-- other x register, and change no memory, program counter or line.
pub load_lem :
    (prog : Program) (handler : ℕ) (op : LoadOp) (st : State) (rd rs r : Register) (a off : ℕ)
    → IsReady st.core
    → rd < 32
    → rs < 32
    → r < 32
    → Holds st rs (pos a)
    → a < 2 ^ 32
    → off < 2 ^ 32
    → (a + off) % 2 ^ 32 % access_size op ≡ 0
    → load_word st.core ((a + off) % 2 ^ 32 / 4 * 4) < 2 ^ 32
    → Leaves prog handler (load_instr op rd rs off) st rd (loaded op st.core ((a + off) % 2 ^ 32)) r
load_lem prog handler op st rd rs r a off ready ld ls l ha la lo al fits =
    generated prog handler _ st rd _ r l
      (load-Generates prog handler op st.core ready rd rs ld ls a off ha la lo al fits)
