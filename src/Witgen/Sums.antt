-- ===== src/Witgen/Sums.antt =====
-- `combine_sum` of executor/src/witgen/range_constraints.rs, and the values a constraint allows.
use powdr.Prelude.{
  ℕ, ◌+◌, ◌%◌, ◌^◌, ◌<◌, ◌≡◌, true, arith, leb, if◌then◌else◌, bit_or, inl, inr, Bool-cases, leb→le,
}
use powdr.Goldilocks.{order, add}
use powdr.Goldilocks.Arith.{add_lem}
use powdr.Witgen.RangeConstraint.{
  RangeConstraint, in_range, allows_value, range_width, combine_sum, all_ones,
}
use powdr.Witgen.Masks.{IsWithin, IsWithin-le, sum-IsWithin, ones-IsWithin}
use powdr.Witgen.Intervals.{add-in_range, full-in_range}

-- Elements of the field, and a 64-bit mask.
pub record IsValid (r : RangeConstraint) : Type 0 where
  pub mask_fits : r.mask < 2 ^ 64
  pub min_fits : r.min < order
  pub max_fits : r.max < order

pub allows→in_range :
    (r : RangeConstraint) (v : ℕ) → allows_value r v ≡ true → in_range r.min r.max v ≡ true
unfolding allows_value
allows→in_range r v h = ground arith

pub allows→within : (r : RangeConstraint) (v : ℕ) → allows_value r v ≡ true → IsWithin r.mask v
unfolding allows_value IsWithin
allows→within r v h = ground arith

pub allows_both :
    (r : RangeConstraint) (v : ℕ)
    → in_range r.min r.max v ≡ true
    → IsWithin r.mask v
    → allows_value r v ≡ true
unfolding allows_value IsWithin
allows_both r v h q = ground arith

sum_mask-IsWithin :
    (a b x y : ℕ)
    → a < 2 ^ 64
    → b < 2 ^ 64
    → x < order
    → y < order
    → IsWithin a x
    → IsWithin b y
    → IsWithin
        (if leb order (a + b) then all_ones else bit_or (bit_or ((a + b) % 2 ^ 64) a) b)
        (add x y)
sum_mask-IsWithin a b x y ha hb hx hy p q = elim (Bool-cases (leb order (a + b))) [
  | inl e ↦ rw (e, add_lem x y hx hy) (ones-IsWithin 64 ((x + y) % order) (omega arith))
  | inr e ↦
      let below : a + b < order = ground (arith, e) in
      let small_x = IsWithin-le x a x (omega arith) p in
      let small_y = IsWithin-le y b y (omega arith) q in
      let sum : (x + y) % order ≡ x + y = omega arith in
      let masks : (a + b) % 2 ^ 64 ≡ a + b = omega arith in
      rw (e, add_lem x y hx hy, sum, masks) (sum-IsWithin a b x y p q)
]

-- If two well-formed range constraints allow two values, then their `combine_sum` allows the sum.
pub combine_sum-allows :
    (a b : RangeConstraint) (x y : ℕ)
    → IsValid a
    → IsValid b
    → x < order
    → y < order
    → allows_value a x ≡ true
    → allows_value b y ≡ true
    → allows_value (combine_sum a b) (add x y) ≡ true
unfolding combine_sum
combine_sum-allows a b x y va vb hx hy p q =
    let range : in_range (combine_sum a b).min (combine_sum a b).max (add x y) ≡ true =
      elim (Bool-cases (leb (range_width a.min a.max + range_width b.min b.max) order)) [
        | inl e ↦ rw e (
            add-in_range a.min a.max b.min b.max x y va.min_fits va.max_fits vb.min_fits vb.max_fits
              hx hy (allows→in_range a x p) (allows→in_range b y q) (leb→le _ order e))
        | inr e ↦ rw e (full-in_range (add x y))
      ] in
    allows_both (combine_sum a b) (add x y) range (
      sum_mask-IsWithin a.mask b.mask x y va.mask_fits vb.mask_fits hx hy (allows→within a x p)
        (allows→within b y q))
