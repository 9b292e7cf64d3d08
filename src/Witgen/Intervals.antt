-- ===== src/Witgen/Intervals.antt =====
-- Intervals of executor/src/witgen/range_constraints.rs: membership as a distance from the lower
-- end, modulo the prime.
use powdr.Prelude.{ℕ, ◌+◌, ◌-◌, ◌%◌, ◌≤◌, ◌<◌, ◌≡◌, true, arith}
use powdr.Goldilocks.{order, add, sub}
use powdr.Goldilocks.Arith.{add_lem, sub_lem}
use powdr.Witgen.RangeConstraint.{in_range, range_width}

-- The way from `a` up to `b`.
abbrev pub distance : ℕ → ℕ → ℕ
distance a b = (b + order - a) % order

pub in_range→distance :
    (min max v : ℕ)
    → min < order
    → max < order
    → v < order
    → in_range min max v ≡ true
    → distance min v ≤ distance min max
unfolding in_range
in_range→distance min max v hmin hmax hv h = ground arith

pub distance→in_range :
    (min max v : ℕ)
    → min < order
    → max < order
    → v < order
    → distance min v ≤ distance min max
    → in_range min max v ≡ true
unfolding in_range
distance→in_range min max v hmin hmax hv h = ground arith

pub range_width_lem :
    (min max : ℕ) → min < order → max < order → range_width min max ≡ distance min max + 1
unfolding range_width
range_width_lem min max hmin hmax =
    let next = add_lem max 1 hmax (omega arith) in
    let d = sub_lem max min hmax hmin in
    let below : sub max min < order = omega arith in
    let sum = add_lem (sub max min) 1 below (omega arith) in ground arith

pub full-in_range : (v : ℕ) → in_range 1 0 v ≡ true
unfolding in_range
full-in_range v = ground arith

-- The sum of two intervals that together are not longer than the field.
pub add-in_range :
    (a b c d x y : ℕ)
    → a < order
    → b < order
    → c < order
    → d < order
    → x < order
    → y < order
    → in_range a b x ≡ true
    → in_range c d y ≡ true
    → range_width a b + range_width c d ≤ order
    → in_range (add a c) (add b d) (add x y) ≡ true
add-in_range a b c d x y ha hb hc hd hx hy p q w =
    let dx = in_range→distance a b x ha hb hx p in
    let dy = in_range→distance c d y hc hd hy q in
    let w' : distance a b + distance c d + 2 ≤ order =
      omega (arith, range_width_lem a b ha hb, range_width_lem c d hc hd) in
    rw (add_lem a c ha hc, add_lem b d hb hd, add_lem x y hx hy)
      (distance→in_range ((a + c) % order) ((b + d) % order) ((x + y) % order) (omega arith)
        (omega arith) (omega arith) (omega arith))
