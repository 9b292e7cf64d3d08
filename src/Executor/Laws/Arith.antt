-- ===== src/Executor/Laws/Arith.antt =====
-- The laws of Executor/Instr/Arith.antt and Executor/Instr/Extend.antt.
use powdr.Executor.Instr.Arith.{
  exec_set_reg, exec_affine, exec_divremu, exec_mul, div_word, rem_word,
}
use powdr.Executor.Instr.Extend.{
  exec_sign_extend_byte, exec_sign_extend_16_bits, exec_to_signed, extend_byte, extend_16,
}
use powdr.Prelude.{
  ℕ, ◌-◌, ◌==◌, if◌then◌else◌, ◌*◌, ◌^◌, ◌%◌, ◌/◌, ◌<◌, ◌≡◌, [], ◌∷◌, none, some, arith,
}
use powdr.Prelude.Int.{ℤ, pos, ◌+ℤ◌, ◌*ℤ◌, as_i32}
use powdr.Executor.Elem.{Elem, binary}
use powdr.Executor.State.{State, outcome}
use powdr.Executor.Proc.{get_fixed}
use powdr.Executor.Laws.{
  word, Holds, with_reg, Changes, changes-outcome, u-word, IsSmall, add-small, mul-small,
  set_zero_test-small,
}

quotient : (y x : ℕ) → div_word y x ≡ (if x == 0 then 2 ^ 32 - 1 else y / x)
unfolding div_word
quotient y x = ground arith

remainder : (y x : ℕ) → rem_word y x ≡ (if x == 0 then y else y % x)
unfolding rem_word
remainder y x = ground arith

module _ (st : State) (r1 r2 w1 w2 : ℕ) (h1 : r1 < 256) (h2 : r2 < 256) (hw1 : w1 < 256)
    (hw2 : w2 < 256) where
  -- On registers that hold 32-bit words y and x, `divremu` succeeds in every mode, writes y / x
  -- and then y % x to its targets, or 2^32 - 1 and then y if x is zero, and changes nothing else
  -- but what is recorded (register addresses below 256).
  pub exec_divremu_lem :
      (y x : ℕ)
      → Holds st r1 (pos y)
      → Holds st r2 (pos x)
      → y < 2 ^ 32
      → x < 2 ^ 32
      → Changes (exec_divremu (word r1 ∷ word r2 ∷ word w1 ∷ word w2 ∷ [])) st none (
          with_reg w2
            (word (if x == 0 then y else y % x))
            (with_reg w1 (word (if x == 0 then 2 ^ 32 - 1 else y / x)) st.core))
  unfolding exec_divremu div_word rem_word
  exec_divremu_lem y x hy hx ly lx =
      rw
        (
          u-word r1 (omega arith),
          u-word r2 (omega arith),
          hy,
          hx,
          u-word w1 (omega arith),
          u-word w2 (omega arith),
          u-word y ly,
          u-word x lx,
          set_zero_test-small (pos x) _ (omega arith),
        )
        (ground arith)

  pub divremu_lem :
      (y x : ℕ)
      → Holds st r1 (pos y)
      → Holds st r2 (pos x)
      → y < 2 ^ 32
      → x < 2 ^ 32
      → outcome (exec_divremu (word r1 ∷ word r2 ∷ word w1 ∷ word w2 ∷ []) st)
        ≡ some (none, with_reg w2 (word (rem_word y x)) (with_reg w1 (word (div_word y x)) st.core))
  divremu_lem y x hy hx ly lx =
      rw (quotient y x, remainder y x) (changes-outcome _ st _ _ (exec_divremu_lem y x hy hx ly lx))

  -- On registers that hold 32-bit words, `mul` succeeds in every mode, writes the low and then the
  -- high word of the 64-bit product to its targets, and changes nothing else but what is recorded
  -- (register addresses below 256).
  pub exec_mul_lem :
      (x y : ℕ)
      → Holds st r1 (pos x)
      → Holds st r2 (pos y)
      → x < 2 ^ 32
      → y < 2 ^ 32
      → Changes (exec_mul (word r1 ∷ word r2 ∷ word w1 ∷ word w2 ∷ [])) st none (
          with_reg w2
            (word (x * y / 2 ^ 32 % 2 ^ 32))
            (with_reg w1 (word (x * y % 2 ^ 32)) st.core))
  unfolding exec_mul
  exec_mul_lem x y hx hy lx ly = ground (
    arith,
    u-word r1 (omega arith),
    u-word r2 (omega arith),
    u-word w1 (omega arith),
    u-word w2 (omega arith),
    u-word x (omega arith),
    u-word y (omega arith),
  )

  pub mul_word_lem :
      (x y : ℕ)
      → Holds st r1 (pos x)
      → Holds st r2 (pos y)
      → x < 2 ^ 32
      → y < 2 ^ 32
      → outcome (exec_mul (word r1 ∷ word r2 ∷ word w1 ∷ word w2 ∷ []) st)
        ≡ some (
          none,
          with_reg w2
              (word (x * y / 2 ^ 32 % 2 ^ 32))
              (with_reg w1 (word (x * y % 2 ^ 32)) st.core),
        )
  mul_word_lem x y hx hy lx ly = changes-outcome _ st _ _ (exec_mul_lem x y hx hy lx ly)

module _ (st : State) (r w : ℕ) (h : r < 256) (hw : w < 256) where
  pub affine_lem :
      (x f o : ℤ)
      → Holds st r x
      → IsSmall (x *ℤ f)
      → IsSmall (x *ℤ f +ℤ o)
      → outcome (exec_affine (word r ∷ word w ∷ binary f ∷ binary o ∷ []) st)
        ≡ some (none, with_reg w (binary (x *ℤ f +ℤ o)) st.core)
  unfolding exec_affine
  affine_lem x f o hx s1 s2 = rw (
    u-word r (omega arith),
    hx,
    u-word w (omega arith),
    mul-small x f s1,
    add-small (x *ℤ f) o s2,
  )

  pub sign_extend_byte_lem :
      (x : ℕ)
      → Holds st r (pos x)
      → x < 2 ^ 32
      → outcome (exec_sign_extend_byte (word r ∷ word w ∷ []) st)
        ≡ some (none, with_reg w (word (extend_byte x)) st.core)
  unfolding exec_sign_extend_byte
  sign_extend_byte_lem x hx lx =
      ground (arith, u-word r (omega arith), u-word w (omega arith), u-word x (omega arith))

  pub sign_extend_16_bits_lem :
      (x : ℕ)
      → Holds st r (pos x)
      → x < 2 ^ 32
      → outcome (exec_sign_extend_16_bits (word r ∷ word w ∷ []) st)
        ≡ some (none, with_reg w (word (extend_16 x)) st.core)
  unfolding exec_sign_extend_16_bits
  sign_extend_16_bits_lem x hx lx =
      ground (arith, u-word r (omega arith), u-word w (omega arith), u-word x (omega arith))

  pub to_signed_lem :
      (x : ℕ)
      → Holds st r (pos x)
      → x < 2 ^ 32
      → outcome (exec_to_signed (word r ∷ word w ∷ []) st)
        ≡ some (none, with_reg w (binary (as_i32 x)) st.core)
  unfolding exec_to_signed
  to_signed_lem x hx lx = rw (u-word r (omega arith), hx, u-word w (omega arith), u-word x lx)

pub set_reg_lem :
    (st : State) (w : ℕ) (hw : w < 256) (v : Elem) (pc : ℕ)
    → st.core.curr_pc ≡ word pc
    → pc < 2 ^ 32
    → outcome (exec_set_reg (word w ∷ v ∷ []) st) ≡ some (none, with_reg w v st.core)
unfolding exec_set_reg get_fixed
set_reg_lem st w hw v pc e h = ground (arith, u-word w (omega arith), u-word pc (omega arith))
