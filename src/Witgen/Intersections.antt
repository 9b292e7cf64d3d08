-- ===== src/Witgen/Intersections.antt =====
-- `conjunction` and `disjunction` of executor/src/witgen/range_constraints.rs against the values
-- that both, or one, of the constraints allow.
use powdr.Prelude.{
  Bool, ℕ, ◌+◌, ◌%◌, ◌^◌, ◌≤◌, ◌<◌, ◌≡◌, true, refl, arith, leb, ◌&&◌, if◌then◌else◌, bit_and, inl,
  inr, ◌⊎◌, Bool-cases, Option, some, none,
}
use powdr.Prelude.Bits.{bit_and-lt}
use powdr.Goldilocks.{order, add, neg}
use powdr.Goldilocks.Arith.{add_lem}
use powdr.Witgen.RangeConstraint.{
  RangeConstraint, Interval, in_range, allows_value, range_width, from_range, num_bits,
  mask_from_bits,
}
use powdr.Witgen.Combine.{
  shifted_interval, intersect_shifted, interval_intersection, adjust_range, conjunction,
}
use powdr.Witgen.Masks.{IsWithin, IsWithin-le, IsWithin-and, num_bits-IsWithin}
use powdr.Witgen.Intervals.{in_range→distance, distance→in_range}
use powdr.Witgen.Sums.{IsValid, allows→in_range, allows→within, allows_both}
use Prim.Native.Nat

abbrev Contains : Interval → ℕ → Type 0
Contains i v = in_range i.lo i.hi v ≡ true

-- Both ends are elements.
pub record Fits (i : Interval) : Type 0 where
  pub lo_fits : i.lo < order
  pub hi_fits : i.hi < order

-- A shift moves membership with it.
in_range-shift :
    (a b s v : ℕ)
    → a < order
    → b < order
    → s < order
    → v < order
    → in_range a b v ≡ true
    → in_range (add a s) (add b s) (add v s) ≡ true
in_range-shift a b s v ha hb hs hv h =
    let d = in_range→distance a b v ha hb hv h in
    rw (add_lem a s ha hs, add_lem b s hb hs, add_lem v s hv hs)
      (distance→in_range ((a + s) % order) ((b + s) % order) ((v + s) % order) (omega arith)
        (omega arith) (omega arith) (omega arith))

pub neg-lt : (s : ℕ) → s < order → neg s < order
unfolding neg
neg-lt s h = ground arith

add-neg_back : (s v : ℕ) → s < order → v < order → add (add v (neg s)) s ≡ v
unfolding neg
add-neg_back s v hs hv =
    let n : neg s < order = neg-lt s hs in
    let first = add_lem v (neg s) hv n in
    let below : add v (neg s) < order = omega arith in
    let second = add_lem (add v (neg s)) s below hs in ground arith

pub add-lt : (a b : ℕ) → a < order → b < order → add a b < order
add-lt a b ha hb = omega (arith, add_lem a b ha hb)

neg-shift :
    (i : Interval) (s v : ℕ)
    → Fits i
    → s < order
    → v < order
    → Contains i v
    → Contains (shifted_interval i (neg s)) (add v (neg s))
unfolding shifted_interval
neg-shift i s v f hs hv h =
    in_range-shift i.lo i.hi (neg s) v f.lo_fits f.hi_fits (neg-lt s hs) hv h

pub shift-Fits : (i : Interval) (s : ℕ) → Fits i → s < order → Fits (shifted_interval i s)
unfolding shifted_interval
shift-Fits i s f hs = record {
  lo_fits = add-lt i.lo s f.lo_fits hs;
  hi_fits = add-lt i.hi s f.hi_fits hs;
}

-- Intervals that do not wrap.
in_range-le : (a b v : ℕ) → leb a b ≡ true → in_range a b v ≡ true → v ≤ b
unfolding in_range
in_range-le a b v e h = ground arith

plain-Contains :
    (a b c d v : ℕ)
    → leb a b ≡ true
    → leb c d ≡ true
    → in_range a b v ≡ true
    → in_range c d v ≡ true
    → leb (Prim.Native.Nat.max a c) (Prim.Native.Nat.min b d) ≡ true
unfolding in_range
plain-Contains a b c d v p q h k = ground arith

plain-intersection :
    (a b c d v : ℕ)
    → leb a b ≡ true
    → leb c d ≡ true
    → in_range a b v ≡ true
    → in_range c d v ≡ true
    → in_range (Prim.Native.Nat.max a c) (Prim.Native.Nat.min b d) v ≡ true
unfolding in_range
plain-intersection a b c d v p q h k = ground arith

-- What the search says of a value in both intervals: it is in the one found.
abbrev Finds : ℕ → Option Interval → Type 0
Finds v found = (i : Interval) × (found ≡ some i) × Fits i × Contains i v

pub max-lt : (a b n : ℕ) → a < n → b < n → Prim.Native.Nat.max a b < n
max-lt a b n h q = omega arith

pub min-lt : (a b n : ℕ) → a < n → b < n → Prim.Native.Nat.min a b < n
min-lt a b n h q = omega arith

both_left : (a b : Bool) → (a && b) ≡ true → a ≡ true
both_left a b h = ground arith

both_right : (a b : Bool) → (a && b) ≡ true → b ≡ true
both_right a b h = ground arith

-- A search with one shift says nothing or finds the value.
intersect_shifted-Finds :
    (a b : Interval) (s v : ℕ)
    → Fits a
    → Fits b
    → s < order
    → v < order
    → Contains a v
    → Contains b v
    → (intersect_shifted a b s ≡ none)
      ⊎ ((found : Option Interval) × (intersect_shifted a b s ≡ some found) × Finds v found)
unfolding intersect_shifted
intersect_shifted-Finds a b s v fa fb hs hv p q =
    let i = shifted_interval a (neg s) in
    let j = shifted_interval b (neg s) in
    let w = add v (neg s) in
    elim (Bool-cases (leb i.lo i.hi && leb j.lo j.hi)) [
      | inr e ↦ inl (rw e refl)
      | inl e ↦
          let e1 = both_left (leb i.lo i.hi) (leb j.lo j.hi) e in
          let e2 = both_right (leb i.lo i.hi) (leb j.lo j.hi) e in
          let p' = neg-shift a s v fa hs hv p in
          let q' = neg-shift b s v fb hs hv q in
          let fi = shift-Fits a (neg s) fa (neg-lt s hs) in
          let fj = shift-Fits b (neg s) fb (neg-lt s hs) in
          let found : Interval = record {
            lo = Prim.Native.Nat.max i.lo j.lo;
            hi = Prim.Native.Nat.min i.hi j.hi;
          } in
          let fits : Fits found = record {
            lo_fits = max-lt i.lo j.lo order fi.lo_fits fj.lo_fits;
            hi_fits = min-lt i.hi j.hi order fi.hi_fits fj.hi_fits;
          } in
          let nonempty = plain-Contains i.lo i.hi j.lo j.hi w e1 e2 p' q' in
          let inside = plain-intersection i.lo i.hi j.lo j.hi w e1 e2 p' q' in
          let back : add w s ≡ v = add-neg_back s v hs hv in
          let moved : Contains (shifted_interval found s) (add w s) =
            in_range-shift found.lo found.hi s w fits.lo_fits fits.hi_fits hs
              (add-lt v (neg s) hv (neg-lt s hs)) inside in
          inr (
            some (shifted_interval found s),
            rw (e, nonempty) refl,
            (shifted_interval found s, refl, shift-Fits found s fits hs, rw back at moved),
          )
    ]

smaller-Finds :
    (a b : Interval) (v : ℕ)
    → Fits a
    → Fits b
    → Contains a v
    → Contains b v
    → Finds v (if leb (range_width a.lo a.hi) (range_width b.lo b.hi) then some a else some b)
smaller-Finds a b v fa fb p q =
    elim (Bool-cases (leb (range_width a.lo a.hi) (range_width b.lo b.hi))) [
      | inl w ↦ rw w (a, refl, fa, p)
      | inr w ↦ rw w (b, refl, fb, q)
    ]

-- The result of a search that says something is the result; otherwise the next one is asked.
search-Finds :
    (search : Option (Option Interval)) (next : Option Interval) (v : ℕ)
    → (search ≡ none) ⊎ ((found : Option Interval) × (search ≡ some found) × Finds v found)
    → Finds v next
    → Finds v (elim search [ some found ↦ found | none ↦ next ])
search-Finds search next v (inl e) h = rw e h
search-Finds search next v (inr (found, e, r)) h = rw e r

interval_intersection-Finds :
    (a b : Interval) (v : ℕ)
    → Fits a
    → Fits b
    → v < order
    → Contains a v
    → Contains b v
    → Finds v (interval_intersection a b)
unfolding interval_intersection
interval_intersection-Finds a b v fa fb hv p q =
    search-Finds (intersect_shifted a b a.lo) _ v
      (intersect_shifted-Finds a b a.lo v fa fb fa.lo_fits hv p q)
      (search-Finds (intersect_shifted a b b.lo) _ v
        (intersect_shifted-Finds a b b.lo v fa fb fb.lo_fits hv p q)
        (smaller-Finds a b v fa fb p q))

adjust_range-Contains :
    (mask : ℕ) (i : Interval) (v : ℕ)
    → mask < 2 ^ 64
    → Fits i
    → v < order
    → v ≤ mask
    → Contains i v
    → Contains (adjust_range mask i) v
unfolding adjust_range in_range
adjust_range-Contains mask i v hm f hv le h = ground arith

pub adjust_range-Fits : (mask : ℕ) (i : Interval) → Fits i → Fits (adjust_range mask i)
unfolding adjust_range
adjust_range-Fits mask i f = record { lo_fits = ground arith; hi_fits = ground arith }

intersection_mask :
    (mask : ℕ) (i : Interval) (v : ℕ)
    → mask < 2 ^ 64
    → Fits i
    → v < order
    → IsWithin mask v
    → Contains i v
    → IsWithin (if leb i.lo i.hi then bit_and mask (from_range i.lo i.hi).mask else mask) v
unfolding from_range
intersection_mask mask i v hm f hv h c = elim (Bool-cases (leb i.lo i.hi)) [
  | inl e ↦
      let below : v ≤ i.hi = in_range-le i.lo i.hi v e c in
      let bits = num_bits-IsWithin i.hi v (omega (arith, f.hi_fits)) below in
      rw e (IsWithin-and v mask (mask_from_bits (num_bits i.hi)) v (omega arith) h bits)
  | inr e ↦ rw e h
]

-- A value that two well-formed range constraints both allow is allowed by their `conjunction`.
pub conjunction-allows :
    (a b : RangeConstraint) (v : ℕ)
    → IsValid a
    → IsValid b
    → v < order
    → allows_value a v ≡ true
    → allows_value b v ≡ true
    → allows_value (conjunction a b) v ≡ true
unfolding conjunction
conjunction-allows a b v va vb hv p q =
    let i : Interval = record { lo = a.min; hi = a.max } in
    let j : Interval = record { lo = b.min; hi = b.max } in
    let fi : Fits i = record { lo_fits = va.min_fits; hi_fits = va.max_fits } in
    let fj : Fits j = record { lo_fits = vb.min_fits; hi_fits = vb.max_fits } in
    let mask = bit_and a.mask b.mask in
    let mask_fits = bit_and-lt 64 a.mask b.mask va.mask_fits in
    let within : IsWithin mask v =
      IsWithin-and v a.mask b.mask v (omega arith) (allows→within a v p) (allows→within b v q) in
    let small = IsWithin-le v mask v (omega arith) within in
    let (found, e, fits, inside) =
      interval_intersection-Finds i j v fi fj hv (allows→in_range a v p) (allows→in_range b v q) in
    let range = adjust_range-Contains mask found v mask_fits fits hv small inside in
    allows_both (conjunction a b) v (rw e range) (
      rw e (
        intersection_mask mask (adjust_range mask found) v mask_fits
          (adjust_range-Fits mask found fits) hv within range))
