-- ===== src/Witgen/Expression/Meaning.antt =====
-- The value of a symbolic expression, and when its range constraints are true of it.
use powdr.Prelude.{ℕ, ◌/◌, ◌<◌, ◌≡◌, ◌==◌, true, arith, Option, some, none, bit_and, if◌then◌else◌}
use powdr.Goldilocks.{order, wrap, add, sub, neg, mul, div}
use powdr.Witgen.RangeConstraint.{RangeConstraint, allows_value, from_value, in_range}
use powdr.Witgen.Sums.{IsValid, allows_both}
use powdr.Witgen.Masks.{self-IsWithin}
use powdr.Witgen.Validity.{from_value-IsValid}
use powdr.Witgen.Expression.{
  BinaryOperator, SymbolicExpression, concrete, symbol, binary_operation, neg_operation,
  and_operation, range_constraint,
}

-- The operators on elements; the quotients have no value when the divisor is zero.
abbrev pub apply_operator : BinaryOperator → ℕ → ℕ → Option ℕ
apply_operator BinaryOperator.plus x y = some (add x y)
apply_operator BinaryOperator.minus x y = some (sub x y)
apply_operator BinaryOperator.times x y = some (mul x y)
apply_operator BinaryOperator.field_quotient x y = div x y
apply_operator BinaryOperator.integer_quotient x y = if y == 0 then none else some (x / y)

-- What is known of a value: it is an element that a well-formed constraint allows.
pub record Known (rc : RangeConstraint) (v : ℕ) : Type 0 where
  pub canonical : v < order
  pub valid : IsValid rc
  pub allowed : allows_value rc v ≡ true

value-in_range : (v : ℕ) → in_range v v v ≡ true
unfolding in_range
value-in_range v = ground arith

value-Known : (v : ℕ) → v < order → Known (from_value v) v
unfolding from_value
value-Known v h = record {
  canonical = h;
  valid = from_value-IsValid v h;
  allowed = allows_both (from_value v) v (value-in_range v) (self-IsWithin v v (omega arith));
}

module _ {S : Type 0} (env : S → ℕ) where
  -- The expression has the value, and every range constraint in it is true.
  unfoldable pub Denotes : SymbolicExpression S → ℕ → Type 0
  Denotes (concrete n) v = (n ≡ v) × (v < order)
  Denotes (symbol s rc) v = (env s ≡ v) × Known rc v
  Denotes (binary_operation l op r rc) v =
      (x : ℕ) × (y : ℕ) × Denotes l x × Denotes r y × (apply_operator op x y ≡ some v) × Known rc v
  Denotes (neg_operation e rc) v = (x : ℕ) × Denotes e x × (neg x ≡ v) × Known rc v
  Denotes (and_operation e n rc) v = (x : ℕ) × Denotes e x × (wrap (bit_and x n) ≡ v) × Known rc v

  pub Denotes-range :
      (e : SymbolicExpression S) (v : ℕ) → Denotes e v → Known (range_constraint e) v
  unfolding Denotes range_constraint
  Denotes-range (concrete n) v (same, below) = rw same (value-Known v below)
  Denotes-range (symbol s rc) v (same, known) = known
  Denotes-range (binary_operation l op r rc) v (x, y, dx, dy, e, known) = known
  Denotes-range (neg_operation e rc) v (x, dx, q, known) = known
  Denotes-range (and_operation e n rc) v (x, dx, q, known) = known
