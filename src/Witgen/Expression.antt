-- ===== src/Witgen/Expression.antt =====
-- executor/src/witgen/jit/symbolic_expression.rs: expressions over values known at run time, each
-- with what is known of its range, and the operators that build and simplify them.

pub mod Meaning
pub mod Operators
pub mod Products
pub mod Quotients
pub mod Masked
pub mod Ring
use powdr.Prelude.{
  ℕ, Bool, true, false, ◌==◌, ◌||◌, not, if◌then◌else◌, Option, none, some, bit_and,
}
use powdr.Goldilocks.{wrap, add, neg, mul, div}
use powdr.Witgen.RangeConstraint.{
  RangeConstraint, from_value, from_mask, unconstrained, allows_value, combine_sum,
}
use powdr.Witgen.Combine.{multiple}

pub data BinaryOperator : Type 0 where
  plus minus times field_quotient integer_quotient : BinaryOperator

-- `UnaryOperator` and `BitOperator` have one constructor each, Neg and And.
pub data SymbolicExpression (S : Type 0) : Type 0 where
  concrete : ℕ → SymbolicExpression S
  symbol : S → RangeConstraint → SymbolicExpression S
  binary_operation :
      SymbolicExpression S
      → BinaryOperator
      → SymbolicExpression S
      → RangeConstraint
      → SymbolicExpression S
  neg_operation : SymbolicExpression S → RangeConstraint → SymbolicExpression S
  and_operation : SymbolicExpression S → ℕ → RangeConstraint → SymbolicExpression S

module _ {S : Type 0} where
  unfoldable pub try_to_number : SymbolicExpression S → Option ℕ
  try_to_number (concrete n) = some n
  try_to_number (symbol s rc) = none
  try_to_number (binary_operation l op r rc) = none
  try_to_number (neg_operation e rc) = none
  try_to_number (and_operation e n rc) = none

  -- `self.try_to_number().is_some_and(|n| n == value)`
  unfoldable pub is_known : SymbolicExpression S → ℕ → Bool
  is_known e value = elim (try_to_number e) [ some n ↦ n == value | none ↦ false ]

  abbrev pub is_known_zero : SymbolicExpression S → Bool
  is_known_zero e = is_known e 0

  abbrev pub is_known_one : SymbolicExpression S → Bool
  is_known_one e = is_known e 1

  abbrev pub is_known_minus_one : SymbolicExpression S → Bool
  is_known_minus_one e = is_known e (neg 1)

  unfoldable pub range_constraint : SymbolicExpression S → RangeConstraint
  range_constraint (concrete v) = from_value v
  range_constraint (symbol s rc) = rc
  range_constraint (binary_operation l op r rc) = rc
  range_constraint (neg_operation e rc) = rc
  range_constraint (and_operation e n rc) = rc

  unfoldable pub is_known_nonzero : SymbolicExpression S → Bool
  is_known_nonzero e = not (allows_value (range_constraint e) 0)

  unfoldable pub both_concrete : SymbolicExpression S → SymbolicExpression S → Option (ℕ × ℕ)
  both_concrete (concrete a) (concrete b) = some (a, b)
  both_concrete a b = none

  unfoldable pub add_expressions :
      SymbolicExpression S → SymbolicExpression S → SymbolicExpression S
  add_expressions l r =
      if is_known_zero l then r else if is_known_zero r then l else elim (both_concrete l r) [
        | some (a, b) ↦ concrete (add a b)
        | none ↦
            binary_operation l BinaryOperator.plus r
              (combine_sum (range_constraint l) (range_constraint r))
      ]

  unfoldable pub negate_expression : SymbolicExpression S → SymbolicExpression S
  negate_expression (concrete n) = concrete (neg n)
  negate_expression (neg_operation e rc) = e
  negate_expression e = neg_operation e (multiple (range_constraint e) (neg 1))

  -- The product when the factors are not both constants.
  unfoldable pub mul_symbolic : SymbolicExpression S → SymbolicExpression S → SymbolicExpression S
  mul_symbolic l r =
      if is_known_zero l || is_known_zero r
      then concrete 0
      else if is_known_one l
      then r
      else if is_known_one r
      then l
      else if is_known_minus_one l
      then negate_expression r
      else if is_known_minus_one r
      then negate_expression l
      else binary_operation l BinaryOperator.times r unconstrained

  unfoldable pub mul_expressions :
      SymbolicExpression S → SymbolicExpression S → SymbolicExpression S
  mul_expressions l r = elim (both_concrete l r) [
    | some (a, b) ↦ concrete (mul a b)
    | none ↦ mul_symbolic l r
  ]

  -- `assert!(b != &T::from(0))`, then `*a / *b`; `none` is the panic.
  unfoldable pub divide_constants : ℕ → ℕ → Option (SymbolicExpression S)
  divide_constants a b =
      if b == 0 then none else elim (div a b) [ some q ↦ some (concrete q) | none ↦ none ]

  unfoldable pub field_div :
      SymbolicExpression S → SymbolicExpression S → Option (SymbolicExpression S)
  field_div l r = elim (both_concrete l r) [
    | some (a, b) ↦ divide_constants a b
    | none ↦
        if is_known_zero l
        then some (concrete 0)
        else if is_known_one r
        then some l
        else if is_known_minus_one r
        then some (negate_expression l)
        else some (binary_operation l BinaryOperator.field_quotient r unconstrained)
  ]

  unfoldable pub integer_div :
      SymbolicExpression S → SymbolicExpression S → Option (SymbolicExpression S)
  integer_div l r = elim (both_concrete l r) [
    | some (a, b) ↦ divide_constants a b
    | none ↦
        if is_known_one r
        then some l
        else some (binary_operation l BinaryOperator.integer_quotient r unconstrained)
  ]

  -- `self & rhs`, where rhs is a u64.
  unfoldable pub and_symbolic : SymbolicExpression S → ℕ → SymbolicExpression S
  and_symbolic e rhs =
      if is_known_zero e || rhs == 0
      then concrete 0
      else and_operation e rhs (from_mask (bit_and (range_constraint e).mask rhs))

  unfoldable pub and_expression : SymbolicExpression S → ℕ → SymbolicExpression S
  and_expression e rhs = elim (try_to_number e) [
    | some a ↦ concrete (wrap (bit_and a rhs))
    | none ↦ and_symbolic e rhs
  ]
