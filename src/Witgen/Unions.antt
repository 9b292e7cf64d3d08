-- ===== src/Witgen/Unions.antt =====
-- `from_mask` and `disjunction` of executor/src/witgen/range_constraints.rs against the values that
-- a mask admits, or that one of two constraints allows.
use powdr.Prelude.{ℕ, ◌^◌, ◌≤◌, ◌<◌, ◌≡◌, true, arith, bit_or, inl, inr, ◌⊎◌}
use powdr.Prelude.Bits.{bit_or-lt}
use powdr.Goldilocks.{order, wrap, from_i64}
use powdr.Witgen.RangeConstraint.{RangeConstraint, in_range, allows_value, from_mask}
use powdr.Witgen.Combine.{disjunction}
use powdr.Witgen.Masks.{IsWithin, IsWithin-le, IsWithin-or_left, IsWithin-or_right}
use powdr.Witgen.Sums.{IsValid, allows→in_range, allows→within, allows_both}

mask-or-lt : (a b : RangeConstraint) → IsValid a → IsValid b → bit_or a.mask b.mask < 2 ^ 64
mask-or-lt a b va vb = bit_or-lt 64 a.mask b.mask va.mask_fits vb.mask_fits

from_mask-in_range :
    (m v : ℕ)
    → m < 2 ^ 64
    → v < order
    → v ≤ m
    → in_range (from_mask m).min (from_mask m).max v ≡ true
unfolding from_mask wrap from_i64 in_range
from_mask-in_range m v hm hv le = ground arith

pub from_mask-allows :
    (m v : ℕ) → m < 2 ^ 64 → v < order → IsWithin m v → allows_value (from_mask m) v ≡ true
unfolding from_mask
from_mask-allows m v hm hv h =
    let small = IsWithin-le v m v (omega arith) h in
    allows_both (from_mask m) v (from_mask-in_range m v hm hv small) h

disjunction-mask : (a b : RangeConstraint) → (disjunction a b).mask ≡ bit_or a.mask b.mask
unfolding disjunction from_mask
disjunction-mask a b = ground arith

disjunction-in_range :
    (a b : RangeConstraint) (v : ℕ)
    → IsValid a
    → IsValid b
    → v < order
    → v ≤ bit_or a.mask b.mask
    → (in_range a.min a.max v ≡ true) ⊎ (in_range b.min b.max v ≡ true)
    → in_range (disjunction a b).min (disjunction a b).max v ≡ true
unfolding disjunction from_mask wrap from_i64 in_range
disjunction-in_range a b v va vb hv le h =
    ground (arith, va.min_fits, va.max_fits, vb.min_fits, vb.max_fits, mask-or-lt a b va vb)

-- A value that one of two well-formed range constraints allows is allowed by their `disjunction`.
pub disjunction-allows :
    (a b : RangeConstraint) (v : ℕ)
    → IsValid a
    → IsValid b
    → v < order
    → (allows_value a v ≡ true) ⊎ (allows_value b v ≡ true)
    → allows_value (disjunction a b) v ≡ true
disjunction-allows a b v va vb hv h =
    let within : IsWithin (bit_or a.mask b.mask) v = elim h [
      | inl p ↦ IsWithin-or_left v a.mask b.mask v (omega arith) (allows→within a v p)
      | inr q ↦ IsWithin-or_right v a.mask b.mask v (omega arith) (allows→within b v q)
    ] in
    let ranges : (in_range a.min a.max v ≡ true) ⊎ (in_range b.min b.max v ≡ true) = elim h [
      | inl p ↦ inl (allows→in_range a v p)
      | inr q ↦ inr (allows→in_range b v q)
    ] in
    let small = IsWithin-le v (bit_or a.mask b.mask) v (omega arith) within in
    allows_both (disjunction a b) v (disjunction-in_range a b v va vb hv small ranges)
      (rw (disjunction-mask a b) within)
