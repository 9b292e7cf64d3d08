-- ===== src/Witgen/PaddedBits/Masking.antt =====
-- One bit of a word under the masks of executor/src/witgen/data_structures/padded_bitvec.rs.
use powdr.Prelude.{
  ℕ, zero, suc, ◌-◌, ◌*◌, ◌/◌, ◌%◌, ◌^◌, ◌<◌, ◌≡◌, ap, sym, ◌∙◌, arith, ◌==◌, false, if◌then◌else◌,
  bit_and, bit_or,
}
use powdr.Prelude.Bits.{bit_and_step, bit_or_step, bit_and_mask, bit_or_zero}
use native.Mathlib.Nat.{pow-suc, one-le-pow, pow-le-pow_right, div-div-eq-div-mul, mod-eq_of_lt}

abbrev pub bit_of : ℕ → ℕ → ℕ
bit_of w j = w / 2 ^ j % 2

bit_of-suc : (w j : ℕ) → bit_of w (suc j) ≡ bit_of (w / 2) j
bit_of-suc w j =
    ap (λ (t : ℕ). t % 2)
      (ap (λ (t : ℕ). w / t) {x = 2 ^ suc j} {y = 2 * 2 ^ j} (omega (arith, pow-suc 2 j))
        ∙ sym (div-div-eq-div-mul w 2 (2 ^ j)))

pub pow-lt : (k n : ℕ) → k < n → 2 ^ k < 2 ^ n
pow-lt k n h =
    let more = pow-le-pow_right {n = 2} (omega arith) {i = suc k} {j = n} h in
    omega (arith, more, pow-suc 2 k, one-le-pow k 2 (omega arith))

pub and-bit_of : (j w : ℕ) → bit_and w (2 ^ j) ≡ bit_of w j * 2 ^ j
and-bit_of zero w = omega (arith, bit_and_mask 1 w)
and-bit_of (suc j) w =
    let rest = and-bit_of j (w / 2) in
    let halves : 2 ^ suc j / 2 ≡ 2 ^ j = omega (arith, pow-suc 2 j) in
    let even : 2 ^ suc j % 2 ≡ 0 = omega (arith, pow-suc 2 j) in
    let step : bit_and w (2 ^ suc j) ≡ bit_and (w / 2) (2 ^ j) * 2 =
      omega (arith, bit_and_step w (2 ^ suc j), ap (bit_and (w / 2)) halves, even) in
    rw (step, rest, bit_of-suc w j, pow-suc 2 j) (omega arith)

half-bit_of : (a b j : ℕ) → a / 2 ≡ b → bit_of a (suc j) ≡ bit_of b j
half-bit_of a b j h = bit_of-suc a j ∙ ap (λ t. bit_of t j) h

pub or-bit_of : (j k w : ℕ) → bit_of (bit_or w (2 ^ k)) j ≡ (if j == k then 1 else bit_of w j)
or-bit_of zero zero w = ground (arith, bit_or_step w 1)
or-bit_of zero (suc k) w = ground (arith, bit_or_step w (2 ^ suc k), pow-suc 2 k)
or-bit_of (suc j) zero w =
    let off : (suc j == 0) ≡ false = ground arith in
    let half : bit_or w 1 / 2 ≡ w / 2 = omega (arith, bit_or_step w 1, bit_or_zero (w / 2)) in
    rw off (half-bit_of (bit_or w 1) (w / 2) j half ∙ sym (bit_of-suc w j))
or-bit_of (suc j) (suc k) w =
    let same : (suc j == suc k) ≡ (j == k) = ground arith in
    let halves : 2 ^ suc k / 2 ≡ 2 ^ k = omega (arith, pow-suc 2 k) in
    let half : bit_or w (2 ^ suc k) / 2 ≡ bit_or (w / 2) (2 ^ k) =
      omega (arith, bit_or_step w (2 ^ suc k), ap (bit_or (w / 2)) halves) in
    rw (same, bit_of-suc w j)
      (half-bit_of (bit_or w (2 ^ suc k)) (bit_or (w / 2) (2 ^ k)) j half ∙ or-bit_of j k (w / 2))

-- All the bits of a width but one.
pub clear-bit_of :
    (n j k w : ℕ)
    → j < n
    → k < n
    → w < 2 ^ n
    → bit_of (bit_and w (2 ^ n - 1 - 2 ^ k)) j ≡ (if j == k then 0 else bit_of w j)
clear-bit_of zero j k w hj hk hw = absurd (omega arith)
clear-bit_of (suc n) zero zero w hj hk hw =
    ground (arith, bit_and_step w (2 ^ suc n - 1 - 1), pow-suc 2 n, one-le-pow n 2 (omega arith))
clear-bit_of (suc n) zero (suc k) w hj hk hw = ground (
  arith,
  bit_and_step w (2 ^ suc n - 1 - 2 ^ suc k),
  pow-suc 2 n,
  pow-suc 2 k,
  pow-lt k n (omega arith),
)
clear-bit_of (suc n) (suc j) zero w hj hk hw =
    let off : (suc j == 0) ≡ false = ground arith in
    let halves : (2 ^ suc n - 1 - 1) / 2 ≡ 2 ^ n - 1 =
      omega (arith, pow-suc 2 n, one-le-pow n 2 (omega arith)) in
    let low : w / 2 % 2 ^ n ≡ w / 2 = mod-eq_of_lt (omega (arith, pow-suc 2 n)) in
    let half : bit_and w (2 ^ suc n - 1 - 1) / 2 ≡ w / 2 = omega (
      arith,
      bit_and_step w (2 ^ suc n - 1 - 1),
      ap (bit_and (w / 2)) halves,
      bit_and_mask n (w / 2),
      low,
    ) in
    rw off (half-bit_of (bit_and w (2 ^ suc n - 1 - 1)) (w / 2) j half ∙ sym (bit_of-suc w j))
clear-bit_of (suc n) (suc j) (suc k) w hj hk hw =
    let same : (suc j == suc k) ≡ (j == k) = ground arith in
    let halves : (2 ^ suc n - 1 - 2 ^ suc k) / 2 ≡ 2 ^ n - 1 - 2 ^ k =
      omega (arith, pow-suc 2 n, pow-suc 2 k, pow-lt k n (omega arith)) in
    let half : bit_and w (2 ^ suc n - 1 - 2 ^ suc k) / 2 ≡ bit_and (w / 2) (2 ^ n - 1 - 2 ^ k) =
      omega (arith, bit_and_step w (2 ^ suc n - 1 - 2 ^ suc k), ap (bit_and (w / 2)) halves) in
    rw (same, bit_of-suc w j)
      (half-bit_of (bit_and w (2 ^ suc n - 1 - 2 ^ suc k)) (bit_and (w / 2) (2 ^ n - 1 - 2 ^ k)) j
          half
        ∙ clear-bit_of n j k (w / 2) (omega arith) (omega arith) (omega (arith, pow-suc 2 n)))
