-- ===== src/Prelude/Bits.antt =====
-- `&`, `|` and `^` on the native numbers as arithmetic: one equation for the lowest digit, and
-- what follows from it by induction on the width.
use Prim.Native.Nat.{ℕ, zero, suc, ◌+◌, ◌-◌, ◌*◌, ◌/◌, ◌%◌, ◌^◌, ◌≤◌, ◌<◌, min, max, differ}
use Prim.Native.Nat.{bit_and, bit_or, bit_xor, digits, bitwise}
use Prim.Native.Nat.{bit_and-bitwise, bit_or-bitwise, bit_xor-bitwise}
use mathlib.Core.Path.{◌≡◌, refl, ap}
use mathlib.Core.Path.{◌∙◌}
use native.Mathlib.Nat.{
  le_refl, pow-suc, one-le-pow, mod-lt, div-add-mod, mod-eq_of_lt, mul-add-mod_self_left,
}
use native.Mathlib.Omega.{arith}

module _ (base : ℕ → ℕ) (op : ℕ → ℕ → ℕ) where
  -- Two amounts of fuel that both suffice give the same digits.
  same_digits : (a b k l : ℕ) → a ≤ k → a ≤ l → digits base op k a b ≡ digits base op l a b
  same_digits zero b zero zero hk hl = refl
  same_digits zero b zero (suc l) hk hl = refl
  same_digits zero b (suc k) zero hk hl = refl
  same_digits zero b (suc k) (suc l) hk hl = refl
  same_digits (suc a) b zero l hk hl = absurd (omega arith)
  same_digits (suc a) b (suc k) zero hk hl = absurd (omega arith)
  same_digits (suc a) b (suc k) (suc l) hk hl =
      let half : suc a / 2 ≤ k = omega arith in
      let half' : suc a / 2 ≤ l = omega arith in
      ap (λ t. t * 2 + op (suc a % 2) (b % 2)) (same_digits (suc a / 2) (b / 2) k l half half')

  lowest_digit :
      (a b : ℕ)
      → bitwise base op (suc a) b ≡ bitwise base op (suc a / 2) (b / 2) * 2 + op (suc a % 2) (b % 2)
  lowest_digit a b =
      let enough : suc a / 2 ≤ a = omega arith in
      ap (λ t. t * 2 + op (suc a % 2) (b % 2))
        (same_digits (suc a / 2) (b / 2) a (suc a / 2) enough (le_refl _))

differ_digit : (x y : ℕ) → x < 2 → y < 2 → differ x y ≡ (x + y) % 2
differ_digit zero y hx hy = omega arith
differ_digit (suc zero) zero hx hy = refl
differ_digit (suc zero) (suc zero) hx hy = refl
differ_digit (suc zero) (suc (suc y)) hx hy = absurd (omega arith)
differ_digit (suc (suc x)) y hx hy = absurd (omega arith)

pub bit_xor_step : (a b : ℕ) → bit_xor a b ≡ bit_xor (a / 2) (b / 2) * 2 + (a % 2 + b % 2) % 2
bit_xor_step zero b = simp bit_xor-bitwise (omega arith)
bit_xor_step (suc a) b =
    let digit : differ (suc a % 2) (b % 2) ≡ (suc a % 2 + b % 2) % 2 =
      differ_digit (suc a % 2) (b % 2) (omega arith) (omega arith) in
    simp bit_xor-bitwise (omega (arith, lowest_digit (λ y. y) differ a b, digit))

-- The digit of a disjunction is the greater one, that of a conjunction the smaller one.
pub bit_or_step : (a b : ℕ) → bit_or a b ≡ bit_or (a / 2) (b / 2) * 2 + max (a % 2) (b % 2)
bit_or_step (suc a) b = simp bit_or-bitwise (lowest_digit (λ y. y) max a b)
bit_or_step zero b = simp bit_or-bitwise (omega arith)

pub bit_and_step : (a b : ℕ) → bit_and a b ≡ bit_and (a / 2) (b / 2) * 2 + min (a % 2) (b % 2)
bit_and_step (suc a) b = simp bit_and-bitwise (lowest_digit (λ _. 0) min a b)
bit_and_step zero b = simp bit_and-bitwise (omega arith)

-- Both numbers fit `k` bits; so does the result.
pub bit_and-lt : (k a b : ℕ) → a < 2 ^ k → bit_and a b < 2 ^ k
bit_and-lt zero zero b h = simp bit_and-bitwise (omega arith)
bit_and-lt zero (suc a) b h = absurd (omega arith)
bit_and-lt (suc k) a b h = ground (
  arith,
  bit_and_step a b,
  pow-suc 2 k,
  bit_and-lt k (a / 2) (b / 2) (omega (arith, pow-suc 2 k)),
)

pub bit_xor-lt : (k a b : ℕ) → a < 2 ^ k → b < 2 ^ k → bit_xor a b < 2 ^ k
bit_xor-lt zero zero b h q = simp bit_xor-bitwise q
bit_xor-lt zero (suc a) b h q = absurd (omega arith)
bit_xor-lt (suc k) a b h q = ground (
  arith,
  bit_xor_step a b,
  pow-suc 2 k,
  bit_xor-lt k (a / 2) (b / 2) (omega (arith, pow-suc 2 k)) (omega (arith, pow-suc 2 k)),
)

pub bit_or-lt : (k a b : ℕ) → a < 2 ^ k → b < 2 ^ k → bit_or a b < 2 ^ k
bit_or-lt zero zero b h q = simp bit_or-bitwise q
bit_or-lt zero (suc a) b h q = absurd (omega arith)
bit_or-lt (suc k) a b h q = ground (
  arith,
  bit_or_step a b,
  pow-suc 2 k,
  bit_or-lt k (a / 2) (b / 2) (omega (arith, pow-suc 2 k)) (omega (arith, pow-suc 2 k)),
)

and_nothing : (fuel a : ℕ) → a < fuel → bit_and a 0 ≡ 0
and_nothing zero a below = absurd (omega arith)
and_nothing (suc fuel) zero below = refl
and_nothing (suc fuel) (suc a) below =
    let half : suc a / 2 < fuel = omega arith in
    let rest : bit_and (suc a / 2) 0 ≡ 0 = and_nothing fuel (suc a / 2) half in
    omega (arith, rest, bit_and_step (suc a) 0)

-- The remainder by 2 * m, from that of the half by m.
mod-double : (a m : ℕ) → 0 < m → a % (2 * m) ≡ a / 2 % m * 2 + a % 2
mod-double a m h =
    ap (λ (t : ℕ). t % (2 * m)) {x = a} {y = 2 * m * (a / 2 / m) + (a / 2 % m * 2 + a % 2)}
      (omega (arith, div-add-mod (a / 2) m))
    ∙ mul-add-mod_self_left (2 * m) (a / 2 / m) (a / 2 % m * 2 + a % 2)
    ∙ mod-eq_of_lt (omega (arith, mod-lt (a / 2) h))

-- A mask of `k` low bits is the remainder by `2 ^ k`.
pub bit_and_mask : (k a : ℕ) → bit_and a (2 ^ k - 1) ≡ a % 2 ^ k
bit_and_mask zero a = omega (arith, and_nothing (suc a) a (omega arith))
bit_and_mask (suc k) a = ground (
  arith,
  bit_and_step a (2 ^ suc k - 1),
  pow-suc 2 k,
  one-le-pow k 2,
  ap (λ (t : ℕ). a % t) {x = 2 ^ suc k} {y = 2 * 2 ^ k} (omega (arith, pow-suc 2 k)),
  mod-double a (2 ^ k),
  bit_and_mask k (a / 2),
)

-- The exclusive or with `k` ones is the complement.
pub bit_xor_ones : (k a : ℕ) → a < 2 ^ k → bit_xor (2 ^ k - 1) a ≡ 2 ^ k - 1 - a
bit_xor_ones zero zero h = simp bit_xor-bitwise
bit_xor_ones zero (suc a) h = absurd (omega arith)
bit_xor_ones (suc k) a h = ground (
  arith,
  bit_xor_step (2 ^ suc k - 1) a,
  pow-suc 2 k,
  one-le-pow k 2,
  bit_xor_ones k (a / 2) (omega (arith, pow-suc 2 k)),
)

pub zero-bit_xor : (a : ℕ) → bit_xor 0 a ≡ a
zero-bit_xor a = simp bit_xor-bitwise

pub bit_xor_zero : (a : ℕ) → bit_xor a 0 ≡ a
bit_xor_zero a = xor_nothing a a (le_refl a)
  where
    xor_nothing : (fuel a : ℕ) → a ≤ fuel → bit_xor a 0 ≡ a
    xor_nothing zero zero le = simp bit_xor-bitwise
    xor_nothing zero (suc a) le = absurd (omega arith)
    xor_nothing (suc fuel) a le =
        let rest = xor_nothing fuel (a / 2) (omega arith) in omega (arith, rest, bit_xor_step a 0)

pub bit_or_zero : (a : ℕ) → bit_or a 0 ≡ a
bit_or_zero a = or_nothing a a (le_refl a)
  where
    or_nothing : (fuel a : ℕ) → a ≤ fuel → bit_or a 0 ≡ a
    or_nothing zero zero le = simp bit_or-bitwise
    or_nothing zero (suc a) le = absurd (omega arith)
    or_nothing (suc fuel) a le =
        let rest = or_nothing fuel (a / 2) (omega arith) in omega (arith, rest, bit_or_step a 0)
