-- ===== src/Witgen/Expression/Operators.antt =====
-- The sum and the negation of executor/src/witgen/jit/symbolic_expression.rs on values.
use powdr.Prelude.{
  ℕ, ◌-◌, ◌<◌, ◌≡◌, ◌⊎◌, ◌∙◌, refl, true, arith, some, none, Bool-cases, inl, inr, ap, sym,
}
use powdr.Goldilocks.{order, add, neg, mul}
use powdr.Goldilocks.Arith.{add_lem}
use powdr.Goldilocks.Power.{mul_lem}
use powdr.Witgen.RangeConstraint.{combine_sum}
use powdr.Witgen.Combine.{multiple}
use powdr.Witgen.Sums.{combine_sum-allows}
use powdr.Witgen.Multiples.{multiple-allows}
use powdr.Witgen.Intersections.{add-lt, neg-lt}
use powdr.Witgen.Validity.{combine_sum-IsValid, multiple-IsValid}
use powdr.Witgen.Expression.{
  BinaryOperator, SymbolicExpression, concrete, symbol, binary_operation, neg_operation,
  and_operation, range_constraint, is_known, try_to_number, both_concrete, add_expressions,
  negate_expression,
}
use powdr.Witgen.Expression.Meaning.{Denotes, Denotes-range}

zero-add : (y : ℕ) → y < order → add 0 y ≡ y
zero-add y h = omega (arith, add_lem 0 y (omega arith) h)

add-zero : (x : ℕ) → x < order → add x 0 ≡ x
add-zero x h = omega (arith, add_lem x 0 h (omega arith))

neg-neg : (x : ℕ) → x < order → neg (neg x) ≡ x
unfolding neg
neg-neg x h = ground arith

pub mul-minus_one : (v : ℕ) → v < order → mul v (neg 1) ≡ neg v
unfolding neg
mul-minus_one v h = mul_lem v (order - 1) h (omega arith) ∙ ground arith

pub minus_one-mul : (v : ℕ) → v < order → mul (neg 1) v ≡ neg v
unfolding neg
minus_one-mul v h = mul_lem (order - 1) v (omega arith) h ∙ ground arith

pub mul-one : (v : ℕ) → v < order → mul v 1 ≡ v
mul-one v h = omega (arith, mul_lem v 1 h (omega arith))

pub one-mul : (v : ℕ) → v < order → mul 1 v ≡ v
one-mul v h = omega (arith, mul_lem 1 v (omega arith) h)

pub zero-mul : (v : ℕ) → v < order → mul 0 v ≡ 0
zero-mul v h = omega (arith, mul_lem 0 v (omega arith) h)

pub mul-zero : (v : ℕ) → v < order → mul v 0 ≡ 0
mul-zero v h = omega (arith, mul_lem v 0 h (omega arith))

module _ {S : Type 0} (env : S → ℕ) where
  pub Denotes-lt : (e : SymbolicExpression S) (v : ℕ) → Denotes env e v → v < order
  Denotes-lt e v d = (Denotes-range env e v d).canonical

  pub Denotes-known :
      (e : SymbolicExpression S) (n v : ℕ) → Denotes env e v → is_known e n ≡ true → v ≡ n
  unfolding Denotes is_known try_to_number
  Denotes-known (concrete m) n v (same, below) h = ground arith
  Denotes-known (symbol s rc) n v d h = absurd (ground arith)
  Denotes-known (binary_operation l op r rc) n v d h = absurd (ground arith)
  Denotes-known (neg_operation e rc) n v d h = absurd (ground arith)
  Denotes-known (and_operation e m rc) n v d h = absurd (ground arith)

  pub both_concrete-cases :
      (l r : SymbolicExpression S)
      → (both_concrete l r ≡ none)
        ⊎ ((a : ℕ) × (b : ℕ) × (both_concrete l r ≡ some (a, b))
            × (l ≡ concrete a)
            × (r ≡ concrete b))
  unfolding both_concrete
  both_concrete-cases (concrete a) (concrete b) = inr (a, b, refl, refl, refl)
  both_concrete-cases (concrete a) (symbol s rc) = inl refl
  both_concrete-cases (concrete a) (binary_operation l op r rc) = inl refl
  both_concrete-cases (concrete a) (neg_operation e rc) = inl refl
  both_concrete-cases (concrete a) (and_operation e m rc) = inl refl
  both_concrete-cases (symbol s rc) r = inl refl
  both_concrete-cases (binary_operation l op k rc) r = inl refl
  both_concrete-cases (neg_operation e rc) r = inl refl
  both_concrete-cases (and_operation e m rc) r = inl refl

  -- A constant denotes itself alone.
  pub concrete-value : (a v : ℕ) → Denotes env (concrete a) v → a ≡ v
  unfolding Denotes
  concrete-value a v (same, below) = same

  pub constant : (n : ℕ) → n < order → Denotes env (concrete n) n
  unfolding Denotes
  constant n h = (refl, h)

  sum_node :
      (l r : SymbolicExpression S) (x y : ℕ)
      → Denotes env l x
      → Denotes env r y
      → Denotes env
          (binary_operation l BinaryOperator.plus r
            (combine_sum (range_constraint l) (range_constraint r)))
          (add x y)
  unfolding Denotes
  sum_node l r x y dx dy =
      let kx = Denotes-range env l x dx in
      let ky = Denotes-range env r y dy in
      (
        x,
        y,
        dx,
        dy,
        refl,
        record {
          canonical = add-lt x y kx.canonical ky.canonical;
          valid = combine_sum-IsValid (range_constraint l) (range_constraint r) kx.valid ky.valid;
          allowed =
              combine_sum-allows (range_constraint l) (range_constraint r) x y kx.valid ky.valid
                kx.canonical ky.canonical kx.allowed ky.allowed;
        },
      )

  sum_rest :
      (l r : SymbolicExpression S) (x y : ℕ)
      → Denotes env l x
      → Denotes env r y
      → Denotes env
          (elim (both_concrete l r) [
            | some (a, b) ↦ concrete (add a b)
            | none ↦
                binary_operation l BinaryOperator.plus r
                  (combine_sum (range_constraint l) (range_constraint r))
          ])
          (add x y)
  sum_rest l r x y dx dy = elim (both_concrete-cases l r) [
    | inl e ↦ rw e (sum_node l r x y dx dy)
    | inr (a, b, e, el, er) ↦
        let ax = concrete-value a x (rw el at dx) in
        let by = concrete-value b y (rw er at dy) in
        rw (e, ax, by) (constant (add x y) (add-lt x y (Denotes-lt l x dx) (Denotes-lt r y dy)))
  ]

  pub add_expressions-Denotes :
      (l r : SymbolicExpression S) (x y : ℕ)
      → Denotes env l x
      → Denotes env r y
      → Denotes env (add_expressions l r) (add x y)
  unfolding add_expressions
  add_expressions-Denotes l r x y dx dy = elim (Bool-cases (is_known l 0)) [
    | inl e ↦
        let nothing : add x y ≡ y =
          rw (Denotes-known l 0 x dx e) (zero-add y (Denotes-lt r y dy)) in
        rw (e, nothing) dy
    | inr e ↦ elim (Bool-cases (is_known r 0)) [
      | inl q ↦
          let nothing : add x y ≡ x =
            rw (Denotes-known r 0 y dy q) (add-zero x (Denotes-lt l x dx)) in
          rw (e, q, nothing) dx
      | inr q ↦ rw (e, q) (sum_rest l r x y dx dy)
    ]
  ]

  minus_one_node :
      (e : SymbolicExpression S) (v : ℕ)
      → Denotes env e v
      → Denotes env (neg_operation e (multiple (range_constraint e) (neg 1))) (neg v)
  unfolding Denotes
  minus_one_node e v d =
      let k = Denotes-range env e v d in
      let unit : neg 1 < order = neg-lt 1 (omega arith) in
      let opposite : mul v (neg 1) ≡ neg v = mul-minus_one v k.canonical in
      let scaled =
        multiple-allows (range_constraint e) (neg 1) v k.valid unit k.canonical k.allowed in
      (
        v,
        d,
        refl,
        record {
          canonical = neg-lt v k.canonical;
          valid = multiple-IsValid (range_constraint e) (neg 1) k.valid unit;
          allowed = rw opposite at scaled;
        },
      )

  pub negate_expression-Denotes :
      (e : SymbolicExpression S) (v : ℕ)
      → Denotes env e v
      → Denotes env (negate_expression e) (neg v)
  unfolding Denotes negate_expression
  negate_expression-Denotes (concrete n) v (same, below) = (ap neg same, neg-lt v below)
  negate_expression-Denotes (symbol s rc) v d = minus_one_node (symbol s rc) v d
  negate_expression-Denotes (binary_operation l op r rc) v d =
      minus_one_node (binary_operation l op r rc) v d
  negate_expression-Denotes (and_operation e n rc) v d = minus_one_node (and_operation e n rc) v d
  negate_expression-Denotes (neg_operation e rc) v (x, dx, q, known) =
      let back : neg v ≡ x = rw (sym q) (neg-neg x (Denotes-lt e x dx)) in rw back dx
