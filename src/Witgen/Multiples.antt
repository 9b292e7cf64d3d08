-- ===== src/Witgen/Multiples.antt =====
-- `multiple` of executor/src/witgen/range_constraints.rs, for factors in either half of the field.
use powdr.Prelude.{
  ℕ, zero, suc, ◌+◌, ◌*◌, ◌/◌, ◌%◌, ◌^◌, ◌≤◌, ◌<◌, ◌≡◌, ◌∙◌, true, refl, arith, leb, ltb, ◌==◌,
  if◌then◌else◌, inl, inr, Bool-cases, leb→le, ltb→lt, Option, some, none, get_or, ap, sym,
}
use powdr.Goldilocks.{order, neg, mul, is_in_lower_half}
use powdr.Goldilocks.Power.{mul_lem, mod-mul_left}
use powdr.Witgen.RangeConstraint.{
  RangeConstraint, Interval, in_range, allows_value, range_width, from_range, trailing_zeros,
  log2_exact,
}
use powdr.Witgen.Combine.{range_multiple, shifted_mask, multiple}
use powdr.Witgen.Masks.{IsWithin, IsWithin-le, ones-IsWithin, num_bits-IsWithin, shift-IsWithin}
use powdr.Witgen.Intervals.{
  distance, in_range→distance, distance→in_range, range_width_lem, full-in_range,
}
use powdr.Witgen.Intersections.{neg-lt}
use powdr.Witgen.Sums.{IsValid, allows→in_range, allows→within, allows_both}
use native.Mathlib.Nat.{mul-le-mul_right, mod-lt}

distance-mul_step :
    (a b d f : ℕ) → b ≡ (a + d) % order → distance (a * f % order) (b * f % order) ≡ d * f % order
distance-mul_step a b d f e =
    let moved : b * f % order ≡ (a * f + d * f) % order = rw e (
      mod-mul_left (a + d) f order
      ∙ ap (λ (t : ℕ). t % order) {x = (a + d) * f} {y = a * f + d * f} (omega arith)) in
    omega (arith, moved)

distance-mul :
    (a b f : ℕ)
    → a < order
    → b < order
    → distance (a * f % order) (b * f % order) ≡ distance a b * f % order
distance-mul a b f ha hb = distance-mul_step a b (distance a b) f (omega arith)

scaled-le : (d w f : ℕ) → d ≤ w → (w + 1) * f ≤ order → d * f % order ≤ w * f % order
scaled-le d w zero h q = omega arith
scaled-le d w (suc f) h q =
    let df : d * suc f ≤ w * suc f = mul-le-mul_right (suc f) h in
    let below : w * suc f + suc f ≤ order = omega arith in omega (arith, df, below)

-- A multiple of an interval that stays within one turn of the field.
mul-in_range :
    (a b f v : ℕ)
    → a < order
    → b < order
    → f < order
    → v < order
    → range_width a b * f ≤ order
    → in_range a b v ≡ true
    → in_range (mul a f) (mul b f) (mul v f) ≡ true
mul-in_range a b f v ha hb hf hv w h =
    let d = in_range→distance a b v ha hb hv h in
    let da = distance-mul a v f ha hv in
    let db = distance-mul a b f ha hb in
    let closer =
      scaled-le (distance a v) (distance a b) f d (rw (range_width_lem a b ha hb) at w) in
    rw (mul_lem a f ha hf, mul_lem b f hb hf, mul_lem v f hv hf)
      (distance→in_range (a * f % order) (b * f % order) (v * f % order)
        (mod-lt (a * f) (omega arith)) (mod-lt (b * f) (omega arith)) (mod-lt (v * f) (omega arith))
        (rw (da, db) closer))

-- Both factors negated, the product stays.
opposite :
    (v v' f f' i j : ℕ) → v + v' ≡ order * i → f + f' ≡ order * j → v' * f' % order ≡ v * f % order
opposite v v' f f' i j e q =
    let across : v' * f' + v * f' ≡ order * (i * f') = omega (arith, ap (λ t. t * f') e) in
    let along : v * f + v * f' ≡ order * (v * j) = omega (arith, ap (λ t. v * t) q) in
    omega (arith, across, along)

neg-turns : (a : ℕ) → a < order → a + neg a ≡ order * ((a + neg a) / order)
unfolding neg
neg-turns a h = ground arith

neg-mul : (v f : ℕ) → v < order → f < order → mul (neg v) (neg f) ≡ mul v f
neg-mul v f hv hf =
    mul_lem (neg v) (neg f) (neg-lt v hv) (neg-lt f hf)
    ∙ opposite v (neg v) f (neg f) _ _ (neg-turns v hv) (neg-turns f hf)
    ∙ sym (mul_lem v f hv hf)

neg-in_range :
    (a b v : ℕ)
    → a < order
    → b < order
    → v < order
    → in_range a b v ≡ true
    → in_range (neg b) (neg a) (neg v) ≡ true
unfolding neg in_range
neg-in_range a b v ha hb hv h = ground arith

range_multiple-in_range :
    (a b f v : ℕ)
    → a < order
    → b < order
    → f < order
    → v < order
    → in_range a b v ≡ true
    → in_range (range_multiple a b f).lo (range_multiple a b f).hi (mul v f) ≡ true
unfolding range_multiple
range_multiple-in_range a b f v ha hb hf hv h =
    elim (Bool-cases (leb (range_width a b * f) order)) [
      | inl e ↦ rw e (mul-in_range a b f v ha hb hf hv (leb→le _ order e) h)
      | inr e ↦ rw e (full-in_range (mul v f))
    ]

range_multiple-lt :
    (a b f : ℕ) → a < order → b < order → f < order → (range_multiple a b f).hi < order
unfolding range_multiple
range_multiple-lt a b f ha hb hf =
    let product : mul b f < order = rw (mul_lem b f hb hf) (mod-lt (b * f) (omega arith)) in
    ground arith

-- The interval of `multiple`.
abbrev pub multiple_range : RangeConstraint → ℕ → Interval
multiple_range r f =
    if is_in_lower_half f
    then range_multiple r.min r.max f
    else range_multiple (neg r.max) (neg r.min) (neg f)

multiple_range-in_range :
    (r : RangeConstraint) (f v : ℕ)
    → IsValid r
    → f < order
    → v < order
    → in_range r.min r.max v ≡ true
    → in_range (multiple_range r f).lo (multiple_range r f).hi (mul v f) ≡ true
multiple_range-in_range r f v valid hf hv h = elim (Bool-cases (is_in_lower_half f)) [
  | inl e ↦ rw e (range_multiple-in_range r.min r.max f v valid.min_fits valid.max_fits hf hv h)
  | inr e ↦
      let moved =
        range_multiple-in_range (neg r.max) (neg r.min) (neg f) (neg v)
          (neg-lt r.max valid.max_fits) (neg-lt r.min valid.min_fits) (neg-lt f hf) (neg-lt v hv)
          (neg-in_range r.min r.max v valid.min_fits valid.max_fits hv h) in
      rw e (rw (neg-mul v f hv hf) at moved)
]

multiple_range-lt :
    (r : RangeConstraint) (f : ℕ) → IsValid r → f < order → (multiple_range r f).hi < order
multiple_range-lt r f valid hf = elim (Bool-cases (is_in_lower_half f)) [
  | inl e ↦ rw e (range_multiple-lt r.min r.max f valid.min_fits valid.max_fits hf)
  | inr e ↦ rw e (
      range_multiple-lt (neg r.max) (neg r.min) (neg f) (neg-lt r.max valid.max_fits)
        (neg-lt r.min valid.min_fits) (neg-lt f hf))
]

-- The mask that `from_range` reads off an interval admits what the interval does.
from_range-IsWithin :
    (i : Interval) (v : ℕ)
    → i.hi < order
    → v < order
    → in_range i.lo i.hi v ≡ true
    → IsWithin (from_range i.lo i.hi).mask v
unfolding from_range in_range
from_range-IsWithin i v hi hv h = elim (Bool-cases (leb i.lo i.hi)) [
  | inl e ↦ rw e (num_bits-IsWithin i.hi v (omega (arith, hi)) (ground arith))
  | inr e ↦ rw e (ones-IsWithin 64 v (omega (arith, hv)))
]

exact_case :
    (t : Option ℕ) (n e : ℕ)
    → elim t [ none ↦ none | some z ↦ if n == 1 * 2 ^ z then some z else none ] ≡ some e
    → n ≡ 2 ^ e
exact_case none n e h = grind arith
exact_case (some z) n e h = elim (Bool-cases (n == 1 * 2 ^ z)) [
  | inr q ↦ grind arith
  | inl q ↦ let same : z ≡ e = grind arith in rw (sym same) (ground arith)
]

log2_exact-pow : (n e : ℕ) → log2_exact n ≡ some e → n ≡ 2 ^ e
unfolding log2_exact
log2_exact-pow n e h = exact_case (trailing_zeros n) n e h

pub shifted_case :
    (t : Option ℕ) (m s : ℕ)
    → elim t [
      | none ↦ none
      | some e ↦ if ltb (m * 2 ^ e) order then some (m * 2 ^ e % 2 ^ 64) else none
    ]
      ≡ some s
    → (e : ℕ) × (t ≡ some e) × (m * 2 ^ e < order) × (s ≡ m * 2 ^ e)
shifted_case none m s h = grind arith
shifted_case (some e) m s h = elim (Bool-cases (ltb (m * 2 ^ e) order)) [
  | inr q ↦ grind arith
  | inl q ↦
      let below = ltb→lt (m * 2 ^ e) order q in
      let same : m * 2 ^ e % 2 ^ 64 ≡ s = grind arith in (e, refl, below, omega arith)
]

-- A mask times a power of two, while it is below the prime.
shifted_mask-IsWithin :
    (m f v s : ℕ)
    → f < order
    → v < order
    → IsWithin m v
    → shifted_mask m f ≡ some s
    → IsWithin s (mul v f)
unfolding shifted_mask
shifted_mask-IsWithin m f v s hf hv h found =
    let (e, exact, below, value) = shifted_case (log2_exact f) m s found in
    let power = log2_exact-pow f e exact in
    let small : v * 2 ^ e ≤ m * 2 ^ e =
      mul-le-mul_right (2 ^ e) (IsWithin-le v m v (omega arith) h) in
    let product : v * 2 ^ e % order ≡ v * 2 ^ e = omega arith in
    rw (mul_lem v f hv hf, power, product, value) (shift-IsWithin e m v h)

pub get_or-cases :
    (found : Option ℕ) (d : ℕ) (P : ℕ → Type 0)
    → ((s : ℕ) → found ≡ some s → P s)
    → P d
    → P (get_or found d)
get_or-cases none d P h q = q
get_or-cases (some s) d P h q = h s refl

-- If a well-formed range constraint allows a value, then `multiple` of it by a factor, in either
-- half of the field, allows the product.
pub multiple-allows :
    (r : RangeConstraint) (factor v : ℕ)
    → IsValid r
    → factor < order
    → v < order
    → allows_value r v ≡ true
    → allows_value (multiple r factor) (mul v factor) ≡ true
unfolding multiple
multiple-allows r factor v valid hf hv h =
    let range = multiple_range-in_range r factor v valid hf hv (allows→in_range r v h) in
    let product : mul v factor < order =
      rw (mul_lem v factor hv hf) (mod-lt (v * factor) (omega arith)) in
    allows_both (multiple r factor) (mul v factor) range (
      get_or-cases (shifted_mask r.mask factor) _ (λ s. IsWithin s (mul v factor))
        (λ s e. shifted_mask-IsWithin r.mask factor v s hf hv (allows→within r v h) e)
        (from_range-IsWithin (multiple_range r factor) (mul v factor)
          (multiple_range-lt r factor valid hf) product range))
