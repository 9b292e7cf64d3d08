-- ===== src/Witgen/Validity.antt =====
-- Well-formed constraints of executor/src/witgen/range_constraints.rs: bounds that are elements of the
-- field, a mask that is a 64-bit word.
use powdr.Prelude.{
  ℕ, ◌+◌, ◌-◌, ◌*◌, ◌%◌, ◌^◌, ◌≤◌, ◌<◌, ◌≡◌, arith, leb, ◌&&◌, if◌then◌else◌, Option, some, none,
  bit_and, bit_or, get_or, Bool-cases, inl, inr,
}
use powdr.Prelude.Bits.{bit_and-lt, bit_or-lt}
use powdr.Goldilocks.{order, wrap, neg, mul, is_in_lower_half}
use powdr.Witgen.RangeConstraint.{
  RangeConstraint, Interval, combine_sum, from_mask, from_value, from_range, range_width,
  mask_from_bits, num_bits, all_ones, unconstrained, log2_exact,
}
use powdr.Witgen.Combine.{
  disjunction, conjunction, multiple, range_multiple, shifted_mask, negated, shifted_interval,
  intersect_shifted, interval_intersection, adjust_range,
}
use powdr.Witgen.Masks.{num_bits_loop-le}
use powdr.Goldilocks.Power.{mul_lem}
use powdr.Witgen.Intersections.{Fits, add-lt, neg-lt, shift-Fits, max-lt, min-lt, adjust_range-Fits}
use powdr.Witgen.Multiples.{multiple_range, shifted_case, get_or-cases}
use powdr.Witgen.Sums.{IsValid}
use Prim.Native.Nat
use native.Mathlib.Nat.{div-le_self, mod-lt}

pub from_mask-IsValid : (m : ℕ) → m < 2 ^ 64 → IsValid (from_mask m)
unfolding from_mask wrap
from_mask-IsValid m h = record { mask_fits = h; min_fits = omega arith; max_fits = ground arith }

all_ones-IsValid : IsValid (from_mask all_ones)
all_ones-IsValid = from_mask-IsValid all_ones (omega arith)

pub unconstrained-IsValid : IsValid unconstrained
unfolding unconstrained
unconstrained-IsValid = all_ones-IsValid

pub from_value-IsValid : (v : ℕ) → v < order → IsValid (from_value v)
unfolding from_value
from_value-IsValid v h = record { mask_fits = omega (arith, h); min_fits = h; max_fits = h }

mask_from_bits-lt : (k : ℕ) → k ≤ 64 → mask_from_bits k < 2 ^ 64
unfolding mask_from_bits
mask_from_bits-lt k h = ground (arith, div-le_self all_ones (2 ^ (64 - k)))

from_range-IsValid : (a b : ℕ) → a < order → b < order → IsValid (from_range a b)
unfolding from_range
from_range-IsValid a b ha hb = record {
  mask_fits = ground (arith, mask_from_bits-lt (num_bits b) (num_bits_loop-le 64 b));
  min_fits = ha;
  max_fits = hb;
}

pub combine_sum-IsValid :
    (a b : RangeConstraint) → IsValid a → IsValid b → IsValid (combine_sum a b)
unfolding combine_sum
combine_sum-IsValid a b va vb =
    let low = add-lt a.min b.min va.min_fits vb.min_fits in
    let high = add-lt a.max b.max va.max_fits vb.max_fits in
    let m = (a.mask + b.mask) % 2 ^ 64 in
    let first = bit_or-lt 64 m a.mask (omega arith) va.mask_fits in
    let second = bit_or-lt 64 (bit_or m a.mask) b.mask first vb.mask_fits in
    record { mask_fits = ground arith; min_fits = ground arith; max_fits = ground arith }

pub disjunction-IsValid :
    (a b : RangeConstraint) → IsValid a → IsValid b → IsValid (disjunction a b)
unfolding disjunction from_mask wrap
disjunction-IsValid a b va vb =
    let m = bit_or-lt 64 a.mask b.mask va.mask_fits vb.mask_fits in
    record {
      mask_fits = ground (arith, m);
      min_fits = ground (arith, va.min_fits, vb.min_fits);
      max_fits = ground (arith, va.max_fits, vb.max_fits);
    }

pub mul-lt : (a b : ℕ) → a < order → b < order → mul a b < order
mul-lt a b ha hb = rw (mul_lem a b ha hb) (mod-lt (a * b) (omega arith))

range_multiple-Fits : (a b f : ℕ) → a < order → b < order → f < order → Fits (range_multiple a b f)
unfolding range_multiple
range_multiple-Fits a b f ha hb hf =
    let low = mul-lt a f ha hf in
    let high = mul-lt b f hb hf in record { lo_fits = ground arith; hi_fits = ground arith }

multiple_range-Fits :
    (r : RangeConstraint) (f : ℕ) → IsValid r → f < order → Fits (multiple_range r f)
multiple_range-Fits r f valid hf = elim (Bool-cases (is_in_lower_half f)) [
  | inl e ↦ rw e (range_multiple-Fits r.min r.max f valid.min_fits valid.max_fits hf)
  | inr e ↦ rw e (
      range_multiple-Fits (neg r.max) (neg r.min) (neg f) (neg-lt r.max valid.max_fits)
        (neg-lt r.min valid.min_fits) (neg-lt f hf))
]

shifted_mask-lt : (m f s : ℕ) → shifted_mask m f ≡ some s → s < 2 ^ 64
unfolding shifted_mask
shifted_mask-lt m f s found =
    let (e, exact, below, value) = shifted_case (log2_exact f) m s found in omega arith

pub multiple-IsValid :
    (r : RangeConstraint) (f : ℕ) → IsValid r → f < order → IsValid (multiple r f)
unfolding multiple
multiple-IsValid r f valid hf =
    let fits = multiple_range-Fits r f valid hf in
    record {
      mask_fits =
          get_or-cases (shifted_mask r.mask f) _ (λ s. s < 2 ^ 64) (shifted_mask-lt r.mask f)
            (from_range-IsValid _ _ fits.lo_fits fits.hi_fits).mask_fits;
      min_fits = fits.lo_fits;
      max_fits = fits.hi_fits;
    }

negated-IsValid : (r : RangeConstraint) → IsValid r → IsValid (negated r)
unfolding negated
negated-IsValid r v =
    from_range-IsValid (neg r.max) (neg r.min) (neg-lt r.max v.max_fits) (neg-lt r.min v.min_fits)

-- A result of the search, or the empty interval in its place.
shifted-Fits :
    (a b : Interval) (s : ℕ) (d : Interval)
    → Fits a
    → Fits b
    → s < order
    → Fits d
    → Fits (get_or (get_or (intersect_shifted a b s) (some d)) d)
unfolding intersect_shifted
shifted-Fits a b s d fa fb hs fd =
    let i = shifted_interval a (neg s) in
    let j = shifted_interval b (neg s) in
    let fi = shift-Fits a (neg s) fa (neg-lt s hs) in
    let fj = shift-Fits b (neg s) fb (neg-lt s hs) in
    elim (Bool-cases (leb i.lo i.hi && leb j.lo j.hi)) [
      | inr e ↦ rw e fd
      | inl e ↦
          elim (Bool-cases (leb (Prim.Native.Nat.max i.lo j.lo) (Prim.Native.Nat.min i.hi j.hi))) [
            | inr q ↦ rw (e, q) fd
            | inl q ↦
                let met : Fits (record {
                  lo = Prim.Native.Nat.max i.lo j.lo;
                  hi = Prim.Native.Nat.min i.hi j.hi;
                }) =
                  record {
                    lo_fits = max-lt i.lo j.lo order fi.lo_fits fj.lo_fits;
                    hi_fits = min-lt i.hi j.hi order fi.hi_fits fj.hi_fits;
                  } in
                rw (e, q) (shift-Fits _ s met hs)
          ]
    ]

search-Fits :
    (search : Option (Option Interval)) (next : Option Interval) (d : Interval)
    → Fits (get_or (get_or search (some d)) d)
    → Fits (get_or next d)
    → Fits (get_or (elim search [ some found ↦ found | none ↦ next ]) d)
search-Fits none next d h q = q
search-Fits (some found) next d h q = h

smaller-Fits :
    (a b d : Interval)
    → Fits a
    → Fits b
    → Fits
        (get_or (if leb (range_width a.lo a.hi) (range_width b.lo b.hi) then some a else some b) d)
smaller-Fits a b d fa fb = elim (Bool-cases (leb (range_width a.lo a.hi) (range_width b.lo b.hi))) [
  | inl e ↦ rw e fa
  | inr e ↦ rw e fb
]

interval_intersection-Fits :
    (a b d : Interval) → Fits a → Fits b → Fits d → Fits (get_or (interval_intersection a b) d)
unfolding interval_intersection
interval_intersection-Fits a b d fa fb fd =
    search-Fits (intersect_shifted a b a.lo) _ d (shifted-Fits a b a.lo d fa fb fa.lo_fits fd) (
      search-Fits (intersect_shifted a b b.lo) _ d (shifted-Fits a b b.lo d fa fb fb.lo_fits fd)
        (smaller-Fits a b d fa fb))

conjunction-IsValid : (a b : RangeConstraint) → IsValid a → IsValid b → IsValid (conjunction a b)
unfolding conjunction
conjunction-IsValid a b va vb =
    let empty : Interval = record { lo = 0; hi = 0 } in
    let found =
      get_or
        (interval_intersection (record { lo = a.min; hi = a.max })
          (record { lo = b.min; hi = b.max }))
        empty in
    let fits : Fits found =
      interval_intersection-Fits _ _ empty (record { lo_fits = va.min_fits; hi_fits = va.max_fits })
        (record { lo_fits = vb.min_fits; hi_fits = vb.max_fits })
        (record { lo_fits = omega arith; hi_fits = omega arith }) in
    let mask = bit_and a.mask b.mask in
    let mask_fits = bit_and-lt 64 a.mask b.mask va.mask_fits in
    let range = adjust_range mask found in
    let adjusted = adjust_range-Fits mask found fits in
    let both = bit_and-lt 64 mask (from_range range.lo range.hi).mask mask_fits in
    record { mask_fits = ground arith; min_fits = adjusted.lo_fits; max_fits = adjusted.hi_fits }

-- From well-formed constraints, that is with bounds in the field and a 64-bit mask, `combine_sum`,
-- `conjunction`, `disjunction`, `multiple` and the negation give well-formed ones; so do
-- `from_mask` of a 64-bit mask and `from_range` of elements.
pub operations-IsValid :
    (a b : RangeConstraint) (factor m low high : ℕ)
    → IsValid a
    → IsValid b
    → factor < order
    → m < 2 ^ 64
    → low < order
    → high < order
    → IsValid (combine_sum a b)
      × IsValid (conjunction a b)
      × IsValid (disjunction a b)
      × IsValid (multiple a factor)
      × IsValid (negated a)
      × IsValid (from_mask m)
      × IsValid (from_range low high)
operations-IsValid a b factor m low high va vb hf hm hl hh = (
  combine_sum-IsValid a b va vb,
  conjunction-IsValid a b va vb,
  disjunction-IsValid a b va vb,
  multiple-IsValid a factor va hf,
  negated-IsValid a va,
  from_mask-IsValid m hm,
  from_range-IsValid low high hl hh,
)
