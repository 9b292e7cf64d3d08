-- ===== src/Witgen/Splits.antt =====
-- `bisect` of executor/src/witgen/range_constraints.rs and its two halves.
use powdr.Prelude.{
  Bool, ℕ, ◌/◌, ◌≤◌, ◌<◌, ◌≡◌, ◌≢◌, true, false, refl, arith, ltb, ◌==◌, ◌&&◌, ◌||◌, some, bit_and,
  lt→ltb,
}
use powdr.Goldilocks.{order, wrap, add, sub}
use powdr.Goldilocks.Arith.{add_lem, sub_lem, wrap_lem}
use powdr.Witgen.RangeConstraint.{
  RangeConstraint, in_range, allows_value, range_width, try_to_single_value, bisect,
}
use powdr.Witgen.Intervals.{distance, range_width_lem}
use powdr.Witgen.Sums.{IsValid}

half_lem :
    (min max : ℕ)
    → min < order
    → max < order
    → min ≢ max
    → (0 < wrap (range_width min max / 2)) × (wrap (range_width min max / 2) ≤ distance min max)
half_lem min max hmin hmax differ =
    let w = range_width_lem min max hmin hmax in
    let e = wrap_lem (range_width min max / 2) (omega arith) in (omega arith, omega arith)

-- An interval cut after its first `half` elements.
cut :
    (min max half v : ℕ)
    → min < order
    → max < order
    → v < order
    → 0 < half
    → half ≤ distance min max
    → (in_range min max v
        ≡ (in_range min (sub (add min half) 1) v || in_range (add min half) max v))
      × ((in_range min (sub (add min half) 1) v && in_range (add min half) max v) ≡ false)
unfolding in_range
cut min max half v hmin hmax hv positive le =
    let h : half < order = omega arith in
    let middle = add_lem min half hmin h in
    let below : add min half < order = omega arith in
    let last = sub_lem (add min half) 1 below (omega arith) in (ground arith, ground arith)

parted :
    (r p q m : Bool)
    → r ≡ (p || q)
    → (p && q) ≡ false
    → ((r && m) ≡ ((p && m) || (q && m))) × (((p && m) && (q && m)) ≡ false)
parted r p q m h k = (ground arith, ground arith)

-- On a well-formed range constraint whose ends differ, `bisect` does not panic, and of its two
-- halves exactly one allows an element that the constraint allows, and neither allows any other.
pub bisect-partition :
    (r : RangeConstraint) (v : ℕ)
    → IsValid r
    → v < order
    → r.min ≢ r.max
    → (low : RangeConstraint) × (high : RangeConstraint) × (bisect r ≡ some (low, high))
      × (allows_value r v ≡ (allows_value low v || allows_value high v))
      × ((allows_value low v && allows_value high v) ≡ false)
unfolding bisect allows_value try_to_single_value
bisect-partition r v valid hv differ =
    let half = wrap (range_width r.min r.max / 2) in
    let (positive, le) = half_lem r.min r.max valid.min_fits valid.max_fits differ in
    let (covers, disjoint) = cut r.min r.max half v valid.min_fits valid.max_fits hv positive le in
    let low : RangeConstraint = record {
      mask = r.mask;
      min = r.min;
      max = sub (add r.min half) 1;
    } in
    let high : RangeConstraint = record { mask = r.mask; min = add r.min half; max = r.max } in
    let many : (r.min == r.max) ≡ false = ground arith in
    let enough : ltb 0 half ≡ true = lt→ltb 0 half positive in
    let (same, none_twice) =
      parted (in_range r.min r.max v) (in_range r.min (sub (add r.min half) 1) v)
        (in_range (add r.min half) r.max v) (bit_and v r.mask == v) covers disjoint in
    (low, high, rw (many, enough, bisect, try_to_single_value) refl, same, none_twice)
