-- ===== src/Witgen/Combine.antt =====
-- executor/src/witgen/range_constraints.rs: what is known of a value that two constraints hold
-- for, that one of two holds for, and of a multiple.
use powdr.Prelude.{
  ℕ, ◌*◌, ◌%◌, ◌^◌, ltb, leb, ◌&&◌, if◌then◌else◌, Option, none, some, bit_and, bit_or, get_or,
}
use powdr.Goldilocks.{order, wrap, add, neg, mul, is_in_lower_half}
use powdr.Witgen.RangeConstraint.{
  RangeConstraint, Interval, from_mask, from_range, range_width, log2_exact,
}
use Prim.Native.Nat

unfoldable pub shifted_interval : Interval → ℕ → Interval
shifted_interval i shift = record { lo = add i.lo shift; hi = add i.hi shift }

-- The intersection when the shift makes neither interval wrap: `none` if it does not, and
-- `some none` when the intersection is empty.
unfoldable pub intersect_shifted : Interval → Interval → ℕ → Option (Option Interval)
unfolding shifted_interval
intersect_shifted a b shift =
    let a_shifted = shifted_interval a (neg shift) in
    let b_shifted = shifted_interval b (neg shift) in
    let min = Prim.Native.Nat.max a_shifted.lo b_shifted.lo in
    let max = Prim.Native.Nat.min a_shifted.hi b_shifted.hi in
    if leb a_shifted.lo a_shifted.hi && leb b_shifted.lo b_shifted.hi
    then some (
        if leb min max then some (shifted_interval (record { lo = min; hi = max }) shift) else none)
    else none

unfoldable pub interval_intersection : Interval → Interval → Option Interval
interval_intersection a b = elim (intersect_shifted a b a.lo) [
  | some found ↦ found
  | none ↦ elim (intersect_shifted a b b.lo) [
    | some found ↦ found
    | none ↦ if leb (range_width a.lo a.hi) (range_width b.lo b.hi) then some a else some b
  ]
]

-- The interval of `conjunction` adjusted by the mask.
unfoldable pub adjust_range : ℕ → Interval → Interval
unfolding wrap
adjust_range mask i =
    if ltb mask order
    then if leb i.lo i.hi
      then record {
        lo = Prim.Native.Nat.min (wrap mask) i.lo;
        hi = Prim.Native.Nat.min (wrap mask) i.hi;
      }
      else if ltb mask i.lo
      then record { lo = 0; hi = Prim.Native.Nat.min (wrap mask) i.hi }
      else i
    else i

unfoldable pub conjunction : RangeConstraint → RangeConstraint → RangeConstraint
conjunction a b =
    let mask = bit_and a.mask b.mask in
    let found =
      get_or
        (interval_intersection (record { lo = a.min; hi = a.max })
          (record { lo = b.min; hi = b.max }))
        (record { lo = 0; hi = 0 }) in
    let range = adjust_range mask found in
    record {
      mask =
          if leb range.lo range.hi then bit_and mask (from_range range.lo range.hi).mask else mask;
      min = range.lo;
      max = range.hi;
    }

unfoldable pub disjunction : RangeConstraint → RangeConstraint → RangeConstraint
disjunction a b =
    let mask = bit_or a.mask b.mask in
    let min = Prim.Native.Nat.min a.min b.min in
    let max = Prim.Native.Nat.max a.max b.max in
    if leb a.min a.max
    then if leb b.min b.max then record { mask = mask; min = min; max = max } else from_mask mask
    else if leb b.min b.max
    then from_mask mask
    else if leb min max
    then from_mask mask
    else record { mask = mask; min = min; max = max }

unfoldable pub range_multiple : ℕ → ℕ → ℕ → Interval
range_multiple min max factor =
    if leb (range_width min max * factor) order
    then record { lo = mul min factor; hi = mul max factor }
    else record { lo = 1; hi = 0 }

unfoldable pub shifted_mask : ℕ → ℕ → Option ℕ
shifted_mask mask factor = elim (log2_exact factor) [
  | none ↦ none
  | some exponent ↦
      if ltb (mask * 2 ^ exponent) order then some (mask * 2 ^ exponent % 2 ^ 64) else none
]

unfoldable pub multiple : RangeConstraint → ℕ → RangeConstraint
multiple r factor =
    let range =
      if is_in_lower_half factor
      then range_multiple r.min r.max factor
      else range_multiple (neg r.max) (neg r.min) (neg factor) in
    record {
      mask = get_or (shifted_mask r.mask factor) (from_range range.lo range.hi).mask;
      min = range.lo;
      max = range.hi;
    }

-- `-self`
unfoldable pub negated : RangeConstraint → RangeConstraint
negated r = from_range (neg r.max) (neg r.min)
