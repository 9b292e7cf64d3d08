-- ===== src/Goldilocks/Convert.antt =====
-- The conversions of number/src/goldilocks.rs and number/src/traits.rs.
use powdr.Prelude.{ℕ, ◌+◌, ◌-◌, ◌/◌, ◌%◌, ◌^◌, ◌<◌, ◌≤◌, ◌≡◌, arith, none, some, ltb, if◌then◌else◌}
use powdr.Prelude.Int.{ℤ, pos, negsuc, pos_part, neg_part}
use powdr.Goldilocks.{order, from_u64, from_i64, to_signed_integer, checked_from}

pub from_u64_lem : (n : ℕ) → n < 2 ^ 64 → from_u64 n ≡ n % order
unfolding from_u64
from_u64_lem n h = ground arith

-- An i64 becomes its residue, and a negative one the negation of its absolute value.
pub from_i64-negsuc : (n : ℕ) → n < 2 ^ 63 → from_i64 (negsuc n) ≡ order - (n + 1)
unfolding from_i64
from_i64-negsuc n h = omega arith

abbrev pub IsI64 : ℤ → Type 0
IsI64 x = (pos_part x < 2 ^ 63) × (neg_part x ≤ 2 ^ 63)

pub from_i64-lt : (x : ℤ) → IsI64 x → from_i64 x < order
unfolding from_i64
from_i64-lt (pos n) h = omega arith
from_i64-lt (negsuc n) h = omega arith

-- An integer of absolute value at most (p - 1) / 2 becomes a field element that reads back, as a
-- signed integer, as the same integer.
pub to_signed_integer-from_i64 :
    (x : ℤ)
    → pos_part x ≤ (order - 1) / 2
    → neg_part x ≤ (order - 1) / 2
    → to_signed_integer (from_i64 x) ≡ x
unfolding to_signed_integer from_i64
to_signed_integer-from_i64 (pos n) h k = ground arith
to_signed_integer-from_i64 (negsuc n) h k = ground arith

pub checked_from_lem : (n : ℕ) → checked_from n ≡ (if ltb n order then some n else none)
unfolding checked_from
checked_from_lem n = ground arith
