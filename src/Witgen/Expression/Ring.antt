-- ===== src/Witgen/Expression/Ring.antt =====
-- The operators of executor/src/witgen/jit/symbolic_expression.rs together.
use powdr.Prelude.{ℕ, bit_and}
use powdr.Goldilocks.{wrap, add, neg, mul}
use powdr.Witgen.Expression.{
  SymbolicExpression, add_expressions, negate_expression, mul_expressions, and_expression,
}
use powdr.Witgen.Expression.Meaning.{Denotes}
use powdr.Witgen.Expression.Operators.{add_expressions-Denotes, negate_expression-Denotes}
use powdr.Witgen.Expression.Products.{mul_expressions-Denotes}
use powdr.Witgen.Expression.Masked.{and_expression-Denotes}

module _ {S : Type 0} (env : S → ℕ) where
  -- For symbolic expressions that have values under an assignment of the symbols, with every range
  -- constraint in them true, the sum, the product, the negation and the conjunction with a mask
  -- have as values the field's sum, product and negation and the masked word, and every range
  -- constraint in them is true again.
  pub operators-Denotes :
      (l r : SymbolicExpression S) (x y mask : ℕ)
      → Denotes env l x
      → Denotes env r y
      → Denotes env (add_expressions l r) (add x y)
        × Denotes env (mul_expressions l r) (mul x y)
        × Denotes env (negate_expression l) (neg x)
        × Denotes env (and_expression l mask) (wrap (bit_and x mask))
  operators-Denotes l r x y mask dx dy = (
    add_expressions-Denotes env l r x y dx dy,
    mul_expressions-Denotes env l r x y dx dy,
    negate_expression-Denotes env l x dx,
    and_expression-Denotes env l x mask dx,
  )
