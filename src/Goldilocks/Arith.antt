-- ===== src/Goldilocks/Arith.antt =====
-- The word operations of number/src/goldilocks.rs against arithmetic modulo the prime.
use powdr.Prelude.{ℕ, ◌+◌, ◌-◌, ◌%◌, ◌^◌, ◌<◌, ◌≡◌, false, arith}
use powdr.Goldilocks.{order, wrap, neg, add_carry, add, sub_borrow, sub, reduce_low, reduce128}

pub wrap_lem : (x : ℕ) → x < 2 ^ 64 → wrap x ≡ x % order
unfolding wrap
wrap_lem x h = ground arith

-- The sum of two canonical elements is the sum modulo the prime.
pub add_lem : (a b : ℕ) → a < order → b < order → add a b ≡ (a + b) % order
unfolding add
add_lem a b ha hb = ground arith

-- Adding two canonical elements, the correction by EPSILON after a carry never carries again, as
-- the source's comment says.
pub add-no_second_carry : (a b : ℕ) → a < order → b < order → (add_carry a b).over ≡ false
unfolding add_carry
add-no_second_carry a b ha hb = ground arith

-- The difference of two canonical elements is the difference modulo the prime.
pub sub_lem : (a b : ℕ) → a < order → b < order → sub a b ≡ (a + order - b) % order
unfolding sub
sub_lem a b ha hb = ground arith

-- Subtracting two canonical elements, the second step never borrows again.
pub sub-no_second_borrow : (a b : ℕ) → a < order → b < order → (sub_borrow a b).over ≡ false
unfolding sub_borrow
sub-no_second_borrow a b ha hb = ground arith

-- The negation of a canonical element is its additive inverse modulo the prime.
pub neg_lem : (a : ℕ) → a < order → (a + neg a) % order ≡ 0
unfolding neg
neg_lem a h = ground arith

pub reduce_low-lt : (x : ℕ) → reduce_low x < 2 ^ 64
unfolding reduce_low
reduce_low-lt x = ground arith

-- For every x below 2^128, `reduce128` returns the remainder of x by the prime.
pub reduce128_lem : (x : ℕ) → x < 2 ^ 128 → reduce128 x ≡ x % order
unfolding reduce128
reduce128_lem x h = ground arith
