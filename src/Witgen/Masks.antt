-- ===== src/Witgen/Masks.antt =====
-- Masks of executor/src/witgen/range_constraints.rs: which numbers a mask admits.
use powdr.Prelude.{
  ℕ, zero, suc, ◌+◌, ◌-◌, ◌*◌, ◌/◌, ◌%◌, ◌^◌, ◌≤◌, ◌<◌, ◌≡◌, refl, ap, sym, ◌∙◌, arith, false,
  bit_and, bit_or, ◌==◌,
}
use powdr.Witgen.RangeConstraint.{num_bits_loop, num_bits, mask_from_bits, all_ones}
use powdr.Prelude.Bits.{bit_and_step, bit_or_step, bit_and_mask}
use powdr.Goldilocks.Power.{pow_add}
use Prim.Native.Nat.{bit_and-bitwise}
use native.Mathlib.Numerals.{unary_clauses}
use native.Mathlib.Nat.{mod-eq_of_lt, pow-suc, one-le-pow, div-eq_of_lt-le}

-- `x & m == x`
unfoldable pub IsWithin : ℕ → ℕ → Type 0
IsWithin m x = bit_and x m ≡ x

-- The lowest digit and the rest.
IsWithin-half : (m x : ℕ) → IsWithin m x → IsWithin (m / 2) (x / 2)
unfolding IsWithin
IsWithin-half m x h = omega (arith, bit_and_step x m, h)

IsWithin-digit : (m x : ℕ) → IsWithin m x → x % 2 ≤ m % 2
unfolding IsWithin
IsWithin-digit m x h = ground (arith, bit_and_step x m, h)

IsWithin-join : (m x : ℕ) → IsWithin (m / 2) (x / 2) → x % 2 ≤ m % 2 → IsWithin m x
unfolding IsWithin
IsWithin-join m x h d = ground (arith, bit_and_step x m, h)

zero-IsWithin : (m : ℕ) → IsWithin m 0
unfolding IsWithin
zero-IsWithin m = simp bit_and-bitwise

pub IsWithin-le : (fuel m x : ℕ) → x ≤ fuel → IsWithin m x → x ≤ m
IsWithin-le zero m x le h = omega arith
IsWithin-le (suc fuel) m x le h =
    let rest : x / 2 ≤ m / 2 =
      IsWithin-le fuel (m / 2) (x / 2) (omega arith) (IsWithin-half m x h) in
    omega (arith, IsWithin-digit m x h)

pub IsWithin-or_left : (fuel a b x : ℕ) → x ≤ fuel → IsWithin a x → IsWithin (bit_or a b) x
IsWithin-or_left zero a b zero le h = zero-IsWithin (bit_or a b)
IsWithin-or_left zero a b (suc x) le h = absurd (omega arith)
IsWithin-or_left (suc fuel) a b x le h =
    let rest = IsWithin-or_left fuel (a / 2) (b / 2) (x / 2) (omega arith) (IsWithin-half a x h) in
    let half : bit_or a b / 2 ≡ bit_or (a / 2) (b / 2) = omega (arith, bit_or_step a b) in
    IsWithin-join (bit_or a b) x (rw half rest)
      (omega (arith, bit_or_step a b, IsWithin-digit a x h))

pub IsWithin-or_right : (fuel a b x : ℕ) → x ≤ fuel → IsWithin b x → IsWithin (bit_or a b) x
IsWithin-or_right zero a b zero le h = zero-IsWithin (bit_or a b)
IsWithin-or_right zero a b (suc x) le h = absurd (omega arith)
IsWithin-or_right (suc fuel) a b x le h =
    let rest = IsWithin-or_right fuel (a / 2) (b / 2) (x / 2) (omega arith) (IsWithin-half b x h) in
    let half : bit_or a b / 2 ≡ bit_or (a / 2) (b / 2) = omega (arith, bit_or_step a b) in
    IsWithin-join (bit_or a b) x (rw half rest)
      (omega (arith, bit_or_step a b, IsWithin-digit b x h))

pub IsWithin-and :
    (fuel a b x : ℕ) → x ≤ fuel → IsWithin a x → IsWithin b x → IsWithin (bit_and a b) x
IsWithin-and zero a b zero le h q = zero-IsWithin (bit_and a b)
IsWithin-and zero a b (suc x) le h q = absurd (omega arith)
IsWithin-and (suc fuel) a b x le h q =
    let rest =
      IsWithin-and fuel (a / 2) (b / 2) (x / 2) (omega arith) (IsWithin-half a x h)
        (IsWithin-half b x q) in
    let half : bit_and a b / 2 ≡ bit_and (a / 2) (b / 2) = omega (arith, bit_and_step a b) in
    IsWithin-join (bit_and a b) x (rw half rest)
      (ground (arith, bit_and_step a b, IsWithin-digit a x h, IsWithin-digit b x q))

-- The sum with a carry, against the sum of the masks with a carry.
abbrev sum_mask : ℕ → ℕ → ℕ → ℕ
sum_mask a b carry = bit_or (bit_or (a + b + carry) a) b

sum_mask-half :
    (a b c : ℕ) → sum_mask a b c / 2 ≡ sum_mask (a / 2) (b / 2) ((a % 2 + b % 2 + c) / 2)
sum_mask-half a b c =
    let e : (a + b + c) / 2 ≡ a / 2 + b / 2 + (a % 2 + b % 2 + c) / 2 = omega arith in
    let inner : bit_or (a + b + c) a / 2
        ≡ bit_or (a / 2 + b / 2 + (a % 2 + b % 2 + c) / 2) (a / 2) =
      omega (arith, bit_or_step (a + b + c) a, ap (λ t. bit_or t (a / 2)) e) in
    omega (arith, bit_or_step (bit_or (a + b + c) a) b, ap (λ t. bit_or t (b / 2)) inner)

sum_mask-digit :
    (a b c x y d : ℕ)
    → x % 2 ≤ a % 2
    → y % 2 ≤ b % 2
    → d ≤ c
    → c ≤ 1
    → (x + y + d) % 2 ≤ sum_mask a b c % 2
sum_mask-digit a b c x y d hx hy hd hc =
    ground (arith, bit_or_step (bit_or (a + b + c) a) b, bit_or_step (a + b + c) a)

sum-IsWithin_carry :
    (fuel a b c x y d : ℕ)
    → x + y + d ≤ fuel
    → IsWithin a x
    → IsWithin b y
    → d ≤ c
    → c ≤ 1
    → IsWithin (sum_mask a b c) (x + y + d)
sum-IsWithin_carry zero a b c zero zero zero le hx hy hd hc = zero-IsWithin (sum_mask a b c)
sum-IsWithin_carry zero a b c zero zero (suc d) le hx hy hd hc = absurd (omega arith)
sum-IsWithin_carry zero a b c zero (suc y) d le hx hy hd hc = absurd (omega arith)
sum-IsWithin_carry zero a b c (suc x) y d le hx hy hd hc = absurd (omega arith)
sum-IsWithin_carry (suc fuel) a b c x y d le hx hy hd hc =
    let dx = IsWithin-digit a x hx in
    let dy = IsWithin-digit b y hy in
    let rest =
      sum-IsWithin_carry fuel (a / 2) (b / 2) ((a % 2 + b % 2 + c) / 2) (x / 2) (y / 2)
        ((x % 2 + y % 2 + d) / 2) (omega arith) (IsWithin-half a x hx) (IsWithin-half b y hy)
        (omega arith) (omega arith) in
    let split : (x + y + d) / 2 ≡ x / 2 + y / 2 + (x % 2 + y % 2 + d) / 2 = omega arith in
    IsWithin-join (sum_mask a b c) (x + y + d) (rw (sum_mask-half a b c, split) rest)
      (sum_mask-digit a b c x y d dx dy hd hc)

-- What two masks admit adds up to something that the sum of the masks, or one of them, covers.
pub sum-IsWithin :
    (a b x y : ℕ) → IsWithin a x → IsWithin b y → IsWithin (bit_or (bit_or (a + b) a) b) (x + y)
sum-IsWithin a b x y hx hy =
    simp unary_clauses at
      (sum-IsWithin_carry (x + y) a b 0 x y 0 (omega arith) hx hy (omega arith) (omega arith))

pub ones-IsWithin : (k x : ℕ) → x < 2 ^ k → IsWithin (2 ^ k - 1) x
unfolding IsWithin
ones-IsWithin k x h = bit_and_mask k x ∙ mod-eq_of_lt h

pub self-IsWithin : (fuel x : ℕ) → x ≤ fuel → IsWithin x x
self-IsWithin zero zero le = zero-IsWithin 0
self-IsWithin zero (suc x) le = absurd (omega arith)
self-IsWithin (suc fuel) x le =
    IsWithin-join x x (self-IsWithin fuel (x / 2) (omega arith)) (omega arith)

pub shift-IsWithin : (e m x : ℕ) → IsWithin m x → IsWithin (m * 2 ^ e) (x * 2 ^ e)
shift-IsWithin zero m x h =
    let em : m * 2 ^ 0 ≡ m = omega arith in let ex : x * 2 ^ 0 ≡ x = omega arith in rw (em, ex) h
shift-IsWithin (suc e) m x h =
    let rest = shift-IsWithin e m x h in
    let em : m * 2 ^ suc e / 2 ≡ m * 2 ^ e = rw pow-suc (omega arith) in
    let ex : x * 2 ^ suc e / 2 ≡ x * 2 ^ e = rw pow-suc (omega arith) in
    IsWithin-join (m * 2 ^ suc e) (x * 2 ^ suc e) (rw (em, ex) rest) (rw pow-suc (omega arith))

-- The mask of the bits of a bound.
num_bits_loop-lt : (fuel n : ℕ) → n < 2 ^ fuel → n < 2 ^ num_bits_loop fuel n
unfolding num_bits_loop
num_bits_loop-lt zero n h = h
num_bits_loop-lt (suc fuel) n h =
    let rest = num_bits_loop-lt fuel (n / 2) (omega (arith, pow-suc 2 fuel)) in
    ground (arith, pow-suc 2 (num_bits_loop fuel (n / 2)))

pub num_bits_loop-le : (fuel n : ℕ) → num_bits_loop fuel n ≤ fuel
unfolding num_bits_loop
num_bits_loop-le zero n = omega arith
num_bits_loop-le (suc fuel) n = ground (arith, num_bits_loop-le fuel (n / 2))

-- All ones of the whole width, with some shifted out.
ones-shifted : (r n m : ℕ) → 0 < n → suc r * n ≡ suc m → m / n ≡ r
ones-shifted r n m h e = div-eq_of_lt-le n (omega arith) (omega arith)

mask_from_bits_lem : (k : ℕ) → k ≤ 64 → mask_from_bits k ≡ 2 ^ k - 1
unfolding mask_from_bits
mask_from_bits_lem zero h = refl
mask_from_bits_lem (suc k) h =
    let positive : 0 < 2 ^ suc k = one-le-pow (suc k) 2 (omega arith) in
    let whole : 2 ^ (suc k + (64 - suc k)) ≡ 2 ^ 64 =
      ap (λ (t : ℕ). 2 ^ t) {x = suc k + (64 - suc k)} {y = 64} (omega arith) in
    let nonzero : (suc k == 0) ≡ false = ground arith in
    let some_ones : suc (2 ^ suc k - 1) ≡ 2 ^ suc k = omega arith in
    rw nonzero (
      ones-shifted (2 ^ suc k - 1) (2 ^ (64 - suc k)) all_ones
        (one-le-pow (64 - suc k) 2 (omega arith))
        (rw (some_ones, sym (pow_add 2 (suc k) (64 - suc k)), whole) refl))

-- Every value up to a bound lies within the mask of the bound's bits.
pub num_bits-IsWithin : (m x : ℕ) → m < 2 ^ 64 → x ≤ m → IsWithin (mask_from_bits (num_bits m)) x
num_bits-IsWithin m x h le =
    rw (mask_from_bits_lem (num_bits m) (num_bits_loop-le 64 m))
      (ones-IsWithin (num_bits m) x (omega (arith, num_bits_loop-lt 64 m h)))

-- Masked by n, a value that `m` admits is one that m & n admits.
pub and-IsWithin : (fuel m n x : ℕ) → x ≤ fuel → IsWithin m x → IsWithin (bit_and m n) (bit_and x n)
and-IsWithin zero m n zero le h =
    let nothing : bit_and 0 n ≡ 0 = simp bit_and-bitwise in rw nothing (zero-IsWithin (bit_and m n))
and-IsWithin zero m n (suc x) le h = absurd (omega arith)
and-IsWithin (suc fuel) m n x le h =
    let rest = and-IsWithin fuel (m / 2) (n / 2) (x / 2) (omega arith) (IsWithin-half m x h) in
    let half : bit_and m n / 2 ≡ bit_and (m / 2) (n / 2) = omega (arith, bit_and_step m n) in
    let half' : bit_and x n / 2 ≡ bit_and (x / 2) (n / 2) = omega (arith, bit_and_step x n) in
    IsWithin-join (bit_and m n) (bit_and x n) (rw (half, half') rest)
      (omega (arith, bit_and_step m n, bit_and_step x n, IsWithin-digit m x h))

pub bit_and-le : (fuel x n : ℕ) → x ≤ fuel → bit_and x n ≤ x
bit_and-le zero zero n le = simp bit_and-bitwise (omega arith)
bit_and-le zero (suc x) n le = absurd (omega arith)
bit_and-le (suc fuel) x n le =
    let rest = bit_and-le fuel (x / 2) (n / 2) (omega arith) in
    omega (arith, bit_and_step x n, rest)
