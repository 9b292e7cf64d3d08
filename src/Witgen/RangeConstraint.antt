-- ===== src/Witgen/RangeConstraint.antt =====
-- executor/src/witgen/range_constraints.rs: a bit mask together with an interval that may wrap.
--
-- T is the Goldilocks field: an element is its canonical word and T::Integer is a u64.
use powdr.Prelude.{
  ℕ, zero, suc, ◌+◌, ◌-◌, ◌*◌, ◌/◌, ◌%◌, ◌^◌, Bool, ltb, leb, ◌==◌, ◌&&◌, ◌||◌, if◌then◌else◌,
  Option, none, some, bit_and, bit_or,
}
use powdr.Prelude.Int.{negsuc}
use powdr.Goldilocks.{order, wrap, add, sub, from_i64}
use Prim.Native.Nat

pub record RangeConstraint : Type 0 where
  pub mask : ℕ
  pub min : ℕ
  pub max : ℕ

-- A pair (min, max).
pub record Interval : Type 0 where
  pub lo : ℕ
  pub hi : ℕ

-- `!T::Integer::zero()`
abbrev pub all_ones : ℕ
all_ones = 2 ^ 64 - 1

-- `num_bits` of a u64, on fuel: 64 minus the leading zeros.
unfoldable pub num_bits_loop : ℕ → ℕ → ℕ
num_bits_loop zero n = 0
num_bits_loop (suc fuel) n = let rest = num_bits_loop fuel (n / 2) in if n == 0 then 0 else suc rest

abbrev pub num_bits : ℕ → ℕ
num_bits n = num_bits_loop 64 n

-- For at most 64 bits, of which the source has an assertion; `num_bits` gives no more.
unfoldable pub mask_from_bits : ℕ → ℕ
mask_from_bits bits = if bits == 0 then 0 else all_ones / 2 ^ (64 - bits)

-- `log2_exact` of number/src/lib.rs; the trailing zeros are none for zero.
unfoldable pub trailing_zeros_loop : ℕ → ℕ → ℕ
trailing_zeros_loop zero n = 0
trailing_zeros_loop (suc fuel) n =
    let rest = trailing_zeros_loop fuel (n / 2) in if n % 2 == 0 then suc rest else 0

unfoldable pub trailing_zeros : ℕ → Option ℕ
unfolding trailing_zeros_loop
trailing_zeros n = if n == 0 then none else some (trailing_zeros_loop 64 n)

unfoldable pub log2_exact : ℕ → Option ℕ
log2_exact n = elim (trailing_zeros n) [
  | none ↦ none
  | some zeros ↦ if n == 1 * 2 ^ zeros then some zeros else none
]

unfoldable pub from_mask : ℕ → RangeConstraint
unfolding wrap
from_mask mask = record {
  mask = mask;
  min = 0;
  max = wrap (Prim.Native.Nat.min mask (from_i64 (negsuc 0)));
}

-- `none` is the failed assertion of `mask_from_bits`.
unfoldable pub from_max_bit : ℕ → Option RangeConstraint
from_max_bit max_bit =
    if leb (max_bit + 1) 64 then some (from_mask (mask_from_bits (max_bit + 1))) else none

unfoldable pub from_value : ℕ → RangeConstraint
from_value value = record { mask = value; min = value; max = value }

unfoldable pub from_range : ℕ → ℕ → RangeConstraint
from_range min max = record {
  mask = if leb min max then mask_from_bits (num_bits max) else all_ones;
  min = min;
  max = max;
}

unfoldable pub unconstrained : RangeConstraint
unconstrained = from_mask all_ones

-- The test on the interval, in the shape `allows_value` gives it.
unfoldable pub in_range : ℕ → ℕ → ℕ → Bool
in_range min max v = if leb min max then leb min v && leb v max else leb min v || leb v max

unfoldable pub allows_value : RangeConstraint → ℕ → Bool
allows_value r v = in_range r.min r.max v && (bit_and v r.mask == v)

-- The free function; T::modulus() is the prime.
unfoldable pub range_width : ℕ → ℕ → ℕ
range_width min max = if add max 1 == min then order else add (sub max min) 1

unfoldable pub try_to_single_value : RangeConstraint → Option ℕ
try_to_single_value r = if r.min == r.max then some r.min else none

-- The two halves; `none` is a failed assertion.
unfoldable pub bisect : RangeConstraint → Option (RangeConstraint × RangeConstraint)
unfolding wrap
bisect r = elim (try_to_single_value r) [
  | some _ ↦ none
  | none ↦
      let half_width = wrap (range_width r.min r.max / 2) in
      if ltb 0 half_width
      then some (
        record { mask = r.mask; min = r.min; max = sub (add r.min half_width) 1 },
        record { mask = r.mask; min = add r.min half_width; max = r.max },
      )
      else none
]

unfoldable pub combine_sum : RangeConstraint → RangeConstraint → RangeConstraint
combine_sum a b =
    let fits = leb (range_width a.min a.max + range_width b.min b.max) order in
    record {
      mask =
          if leb order (a.mask + b.mask)
          then all_ones
          else bit_or (bit_or ((a.mask + b.mask) % 2 ^ 64) a.mask) b.mask;
      min = if fits then add a.min b.min else 1;
      max = if fits then add a.max b.max else 0;
    }
