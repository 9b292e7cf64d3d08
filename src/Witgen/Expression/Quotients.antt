-- ===== src/Witgen/Expression/Quotients.antt =====
-- Quotients of executor/src/witgen/jit/symbolic_expression.rs.
use powdr.Prelude.{
  ℕ, ◌-◌, ◌*◌, ◌/◌, ◌%◌, ◌≤◌, ◌<◌, ◌≡◌, ◌≢◌, ◌∙◌, ◌==◌, refl, false, arith, some, none,
  if◌then◌else◌, Bool-cases, inl, inr, ap, sym,
}
use powdr.Goldilocks.{order, neg, mul, div, inverse_chain, exp_acc, exp_power_of_2, square, pow}
use powdr.Goldilocks.Power.{mul_lem, div-eq, inverse_chain-lt, quotient-lt, mul-div}
use powdr.Witgen.RangeConstraint.{unconstrained}
use powdr.Witgen.Expression.{
  BinaryOperator, SymbolicExpression, concrete, binary_operation, is_known, both_concrete,
  negate_expression, divide_constants, field_div, integer_div,
}
use powdr.Witgen.Expression.Meaning.{Denotes}
use powdr.Witgen.Expression.Operators.{
  Denotes-known, Denotes-lt, both_concrete-cases, constant, concrete-value,
  negate_expression-Denotes, mul-minus_one, mul-one, zero-mul,
}
use powdr.Witgen.Expression.Products.{free_node}
use native.Mathlib.Nat.{div-le_self, div-mul-le_self, mod-add-div'}

one-inverse : inverse_chain 1 ≡ 1
unfolding inverse_chain exp_acc exp_power_of_2 square mul
one-inverse = refl

minus_one-inverse : inverse_chain (neg 1) ≡ neg 1
unfolding inverse_chain exp_acc exp_power_of_2 square mul neg
minus_one-inverse = refl

pub some-injective : (a b : ℕ) → some a ≡ some b → a ≡ b
some-injective a b h = grind arith

zero-div : (y : ℕ) → y < order → y ≢ 0 → div 0 y ≡ some 0
zero-div y h ne = div-eq 0 y ne ∙ ap some (zero-mul (inverse_chain y) (inverse_chain-lt y h))

div-one : (x : ℕ) → x < order → div x 1 ≡ some x
div-one x h = div-eq x 1 (omega arith) ∙ ap some (rw one-inverse (mul-one x h))

div-minus_one : (x : ℕ) → x < order → div x (neg 1) ≡ some (neg x)
unfolding neg
div-minus_one x h =
    div-eq x (neg 1) (omega arith) ∙ ap some (rw minus_one-inverse (mul-minus_one x h))

-- An integer quotient times the divisor is no field multiple of it unless it is exact.
not_quotient : (a b q : ℕ) → a < order → b < order → 0 < a % b → mul q b ≡ a → q ≢ a / b
not_quotient a b q ha hb remains back same =
    let le : a / b * b ≤ a = div-mul-le_self a b in
    let small : a / b < order = omega (arith, div-le_self a b) in
    let product : mul (a / b) b ≡ a = rw same at back in
    let exact : a / b * b ≡ a = omega (arith, mul_lem (a / b) b small hb, product, le) in
    omega (arith, exact, mod-add-div' a b)

module _ {S : Type 0} (env : S → ℕ) where
  -- The value of the quotient, whichever shape the code gives it.
  field_symbolic :
      (l r : SymbolicExpression S) (x y q : ℕ)
      → Denotes env l x
      → Denotes env r y
      → y ≢ 0
      → div x y ≡ some q
      → (e : SymbolicExpression S) × ((if is_known l 0
            then some (concrete 0)
            else if is_known r 1
            then some l
            else if is_known r (neg 1)
            then some (negate_expression l)
            else some (binary_operation l BinaryOperator.field_quotient r unconstrained))
          ≡ some e)
        × Denotes env e q
  field_symbolic l r x y q dx dy ne h =
      let x_lt = Denotes-lt env l x dx in
      let y_lt = Denotes-lt env r y dy in
      elim (Bool-cases (is_known l 0)) [
        | inl e ↦ (
          concrete 0,
          rw e refl,
          let nothing : div x y ≡ some 0 = rw (Denotes-known env l 0 x dx e) (zero-div y y_lt ne) in
              let same : q ≡ 0 = some-injective q 0 (sym h ∙ nothing) in
              rw same (constant env 0 (omega arith)),
        )
        | inr e ↦ elim (Bool-cases (is_known r 1)) [
          | inl p ↦ (
            l,
            rw (e, p) refl,
            let unit : div x y ≡ some x = rw (Denotes-known env r 1 y dy p) (div-one x x_lt) in
                let same : q ≡ x = some-injective q x (sym h ∙ unit) in rw same dx,
          )
          | inr p ↦ elim (Bool-cases (is_known r (neg 1))) [
            | inl u ↦ (
              negate_expression l,
              rw (e, p, u) refl,
              let unit : div x y ≡ some (neg x) =
                    rw (Denotes-known env r (neg 1) y dy u) (div-minus_one x x_lt) in
                  let same : q ≡ neg x = some-injective q (neg x) (sym h ∙ unit) in
                  rw same (negate_expression-Denotes env l x dx),
            )
            | inr u ↦ (
              _,
              rw (e, p, u) refl,
              free_node env BinaryOperator.field_quotient l r x y q dx dy h
                  (quotient-lt x y q x_lt y_lt h),
            )
          ]
        ]
      ]

  divide_constants-div :
      (x y q : ℕ) → y ≢ 0 → div x y ≡ some q → divide_constants {S = S} x y ≡ some (concrete q)
  unfolding divide_constants
  divide_constants-div x y q ne h =
      let nonzero : (y == 0) ≡ false = ground arith in rw (nonzero, h, divide_constants) refl

  -- For symbolic expressions with values x and y under an assignment that makes their range
  -- constraints true, y not zero, `field_div` succeeds and its result has the field's quotient of
  -- x by y as value.
  pub field_div-Denotes :
      (l r : SymbolicExpression S) (x y q : ℕ)
      → Denotes env l x
      → Denotes env r y
      → y ≢ 0
      → div x y ≡ some q
      → (e : SymbolicExpression S) × (field_div l r ≡ some e) × Denotes env e q
  unfolding field_div
  field_div-Denotes l r x y q dx dy ne h = elim (both_concrete-cases env l r) [
    | inl c ↦ rw (c, field_div) (field_symbolic l r x y q dx dy ne h)
    | inr (a, b, c, el, er) ↦
        let ax = concrete-value env a x (rw el at dx) in
        let by = concrete-value env b y (rw er at dy) in
        (
          concrete q,
          rw (c, ax, by, field_div) (divide_constants-div x y q ne h),
          constant env q (quotient-lt x y q (Denotes-lt env l x dx) (Denotes-lt env r y dy) h),
        )
  ]

  integer_symbolic :
      (l r : SymbolicExpression S) (x y : ℕ)
      → Denotes env l x
      → Denotes env r y
      → y ≢ 0
      → (e : SymbolicExpression S) × ((if is_known r 1
            then some l
            else some (binary_operation l BinaryOperator.integer_quotient r unconstrained))
          ≡ some e)
        × Denotes env e (x / y)
  integer_symbolic l r x y dx dy ne =
      let x_lt = Denotes-lt env l x dx in
      let below : x / y < order = omega (arith, div-le_self x y) in
      let nonzero : (y == 0) ≡ false = ground arith in
      elim (Bool-cases (is_known r 1)) [
        | inl e ↦
            let same : x / y ≡ x = rw (Denotes-known env r 1 y dy e) (omega arith) in
            (l, rw e refl, rw same dx)
        | inr e ↦ (
          _,
          rw e refl,
          free_node env BinaryOperator.integer_quotient l r x y (x / y) dx dy (rw nonzero refl)
              below,
        )
      ]

  -- For symbolic expressions, not both constants, with values x and y under an assignment that
  -- makes their range constraints true, y not zero, `integer_div` succeeds and its result has the
  -- integer quotient of x by y as value.
  pub integer_div-Denotes :
      (l r : SymbolicExpression S) (x y : ℕ)
      → Denotes env l x
      → Denotes env r y
      → y ≢ 0
      → both_concrete l r ≡ none
      → (e : SymbolicExpression S) × (integer_div l r ≡ some e) × Denotes env e (x / y)
  unfolding integer_div
  integer_div-Denotes l r x y dx dy ne c = rw (c, integer_div) (integer_symbolic l r x y dx dy ne)

  -- Of two constants a and b, canonical and with b nonzero, where `pow b (p - 1)` is 1 (Fermat's
  -- theorem) and the division leaves a remainder, `integer_div` gives an element that times b is
  -- a, which is not the integer quotient.
  pub integer_div-not_integer :
      (a b : ℕ)
      → a < order
      → b < order
      → b ≢ 0
      → pow b (order - 1) ≡ 1
      → 0 < a % b
      → (q : ℕ) × (integer_div {S = S} (concrete a) (concrete b) ≡ some (concrete q))
        × (mul q b ≡ a)
        × (q ≢ a / b)
  unfolding integer_div both_concrete
  integer_div-not_integer a b ha hb ne fermat remains =
      let (q, h, back) = mul-div a b ha hb ne fermat in
      (q, divide_constants-div a b q ne h, back, not_quotient a b q ha hb remains back)
