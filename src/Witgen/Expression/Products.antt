-- ===== src/Witgen/Expression/Products.antt =====
-- Products, quotients and masks of executor/src/witgen/jit/symbolic_expression.rs.
use powdr.Prelude.{
  ℕ, ◌<◌, ◌≡◌, ◌⊎◌, ◌||◌, refl, true, false, arith, some, if◌then◌else◌, Bool-cases, inl, inr, Bool,
}
use powdr.Goldilocks.{order, neg, mul}
use powdr.Witgen.RangeConstraint.{unconstrained, all_ones}
use powdr.Witgen.Masks.{ones-IsWithin}
use powdr.Witgen.Unions.{from_mask-allows}
use powdr.Witgen.Validity.{mul-lt, unconstrained-IsValid}
use powdr.Witgen.Expression.{
  BinaryOperator, SymbolicExpression, binary_operation, is_known, negate_expression, mul_symbolic,
  mul_expressions,
}
use powdr.Witgen.Expression.Meaning.{Known, Denotes, apply_operator}
use powdr.Witgen.Expression.Operators.{
  Denotes-known, Denotes-lt, both_concrete-cases, constant, concrete-value,
  negate_expression-Denotes, mul-minus_one, minus_one-mul, mul-one, one-mul, mul-zero, zero-mul,
}

unconstrained-Known : (v : ℕ) → v < order → Known unconstrained v
unfolding unconstrained
unconstrained-Known v h = record {
  canonical = h;
  valid = unconstrained-IsValid;
  allowed = from_mask-allows all_ones v (omega arith) h (ones-IsWithin 64 v (omega (arith, h)));
}

pub or-cases : (a b : Bool) → (a || b) ≡ true → (a ≡ true) ⊎ (b ≡ true)
or-cases true b h = inl refl
or-cases false b h = inr h

module _ {S : Type 0} (env : S → ℕ) where
  -- A node without a range of its own.
  pub free_node :
      (op : BinaryOperator) (l r : SymbolicExpression S) (x y v : ℕ)
      → Denotes env l x
      → Denotes env r y
      → apply_operator op x y ≡ some v
      → v < order
      → Denotes env (binary_operation l op r unconstrained) v
  unfolding Denotes
  free_node op l r x y v dx dy e h = (x, y, dx, dy, e, unconstrained-Known v h)

  zero_product :
      (l r : SymbolicExpression S) (x y : ℕ)
      → Denotes env l x
      → Denotes env r y
      → (is_known l 0 || is_known r 0) ≡ true
      → mul x y ≡ 0
  zero_product l r x y dx dy h = elim (or-cases (is_known l 0) (is_known r 0) h) [
    | inl e ↦ rw (Denotes-known env l 0 x dx e) (zero-mul y (Denotes-lt env r y dy))
    | inr e ↦ rw (Denotes-known env r 0 y dy e) (mul-zero x (Denotes-lt env l x dx))
  ]

  mul_minus_ones :
      (l r : SymbolicExpression S) (x y : ℕ)
      → Denotes env l x
      → Denotes env r y
      → Denotes env
          (if is_known l (neg 1)
            then negate_expression r
            else if is_known r (neg 1)
            then negate_expression l
            else binary_operation l BinaryOperator.times r unconstrained)
          (mul x y)
  mul_minus_ones l r x y dx dy =
      let x_lt = Denotes-lt env l x dx in
      let y_lt = Denotes-lt env r y dy in
      elim (Bool-cases (is_known l (neg 1))) [
        | inl e ↦
            let turned : mul x y ≡ neg y =
              rw (Denotes-known env l (neg 1) x dx e) (minus_one-mul y y_lt) in
            rw (e, turned) (negate_expression-Denotes env r y dy)
        | inr e ↦ elim (Bool-cases (is_known r (neg 1))) [
          | inl q ↦
              let turned : mul x y ≡ neg x =
                rw (Denotes-known env r (neg 1) y dy q) (mul-minus_one x x_lt) in
              rw (e, q, turned) (negate_expression-Denotes env l x dx)
          | inr q ↦
              rw (e, q)
                (free_node BinaryOperator.times l r x y (mul x y) dx dy refl (mul-lt x y x_lt y_lt))
        ]
      ]

  mul_symbolic-Denotes :
      (l r : SymbolicExpression S) (x y : ℕ)
      → Denotes env l x
      → Denotes env r y
      → Denotes env (mul_symbolic l r) (mul x y)
  unfolding mul_symbolic
  mul_symbolic-Denotes l r x y dx dy =
      let x_lt = Denotes-lt env l x dx in
      let y_lt = Denotes-lt env r y dy in
      elim (Bool-cases (is_known l 0 || is_known r 0)) [
        | inl e ↦ rw (e, zero_product l r x y dx dy e) (constant env 0 (omega arith))
        | inr e ↦ elim (Bool-cases (is_known l 1)) [
          | inl one ↦
              let same : mul x y ≡ y = rw (Denotes-known env l 1 x dx one) (one-mul y y_lt) in
              rw (e, one, same) dy
          | inr one ↦ elim (Bool-cases (is_known r 1)) [
            | inl q ↦
                let same : mul x y ≡ x = rw (Denotes-known env r 1 y dy q) (mul-one x x_lt) in
                rw (e, one, q, same) dx
            | inr q ↦ rw (e, one, q) (mul_minus_ones l r x y dx dy)
          ]
        ]
      ]

  pub mul_expressions-Denotes :
      (l r : SymbolicExpression S) (x y : ℕ)
      → Denotes env l x
      → Denotes env r y
      → Denotes env (mul_expressions l r) (mul x y)
  unfolding mul_expressions
  mul_expressions-Denotes l r x y dx dy = elim (both_concrete-cases env l r) [
    | inl e ↦ rw (e, mul_expressions) (mul_symbolic-Denotes l r x y dx dy)
    | inr (a, b, e, el, er) ↦
        let ax = concrete-value env a x (rw el at dx) in
        let by = concrete-value env b y (rw er at dy) in
        rw (e, ax, by, mul_expressions)
          (constant env (mul x y) (mul-lt x y (Denotes-lt env l x dx) (Denotes-lt env r y dy)))
  ]
