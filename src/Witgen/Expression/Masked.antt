-- ===== src/Witgen/Expression/Masked.antt =====
-- `&` with a constant in executor/src/witgen/jit/symbolic_expression.rs.
use powdr.Prelude.{
  ℕ, ◌<◌, ◌≡◌, ◌⊎◌, ◌∙◌, ◌==◌, ◌||◌, refl, arith, Option, some, none, bit_and, Bool-cases, inl, inr,
  sym,
}
use powdr.Prelude.Bits.{bit_and-lt, bit_and_mask}
use powdr.Goldilocks.{order, wrap}
use powdr.Witgen.RangeConstraint.{from_mask}
use powdr.Witgen.Masks.{and-IsWithin, bit_and-le}
use powdr.Witgen.Sums.{allows→within}
use powdr.Witgen.Unions.{from_mask-allows}
use powdr.Witgen.Validity.{from_mask-IsValid}
use powdr.Witgen.Expression.{
  SymbolicExpression, concrete, symbol, binary_operation, neg_operation, and_operation,
  range_constraint, is_known, try_to_number, and_symbolic, and_expression,
}
use powdr.Witgen.Expression.Meaning.{Denotes, Denotes-range}
use powdr.Witgen.Expression.Operators.{Denotes-known, Denotes-lt, constant}
use powdr.Witgen.Expression.Products.{or-cases}
use powdr.Witgen.Expression.Quotients.{some-injective}

masked-wrap : (x rhs : ℕ) → x < order → wrap (bit_and x rhs) ≡ bit_and x rhs
unfolding wrap
masked-wrap x rhs h = ground (arith, bit_and-le x x rhs (omega arith))

masked-zero : (x rhs : ℕ) → (x ≡ 0) ⊎ (rhs ≡ 0) → wrap (bit_and x rhs) ≡ 0
unfolding wrap
masked-zero x rhs (inl e) =
    let nothing : bit_and 0 rhs ≡ 0 = omega (arith, bit_and-le 0 0 rhs (omega arith)) in
    rw (e, nothing) refl
masked-zero x rhs (inr e) =
    let nothing : bit_and x 0 ≡ 0 = bit_and_mask 0 x ∙ omega arith in rw (e, nothing) refl

module _ {S : Type 0} (env : S → ℕ) where
  try_to_number-value :
      (e : SymbolicExpression S) (a x : ℕ) → Denotes env e x → try_to_number e ≡ some a → x ≡ a
  unfolding Denotes try_to_number
  try_to_number-value (concrete m) a x (same, below) h = sym same ∙ some-injective m a h
  try_to_number-value (symbol s rc) a x d h = grind arith
  try_to_number-value (binary_operation l op r rc) a x d h = grind arith
  try_to_number-value (neg_operation e rc) a x d h = grind arith
  try_to_number-value (and_operation e m rc) a x d h = grind arith

  and_node :
      (e : SymbolicExpression S) (x rhs : ℕ)
      → Denotes env e x
      → Denotes env
          (and_operation e rhs (from_mask (bit_and (range_constraint e).mask rhs)))
          (wrap (bit_and x rhs))
  unfolding Denotes
  and_node e x rhs d =
      let k = Denotes-range env e x d in
      let m = (range_constraint e).mask in
      let small = bit_and-le x x rhs (omega arith) in
      let same = masked-wrap x rhs k.canonical in
      let fits = bit_and-lt 64 m rhs k.valid.mask_fits in
      let within =
        and-IsWithin x m rhs x (omega arith) (allows→within (range_constraint e) x k.allowed) in
      (
        x,
        d,
        refl,
        record {
          canonical = rw same (omega (arith, small, k.canonical));
          valid = from_mask-IsValid (bit_and m rhs) fits;
          allowed = rw same (
              from_mask-allows (bit_and m rhs) (bit_and x rhs) fits
                (omega (arith, small, k.canonical)) within);
        },
      )

  and_symbolic-Denotes :
      (e : SymbolicExpression S) (x rhs : ℕ)
      → Denotes env e x
      → Denotes env (and_symbolic e rhs) (wrap (bit_and x rhs))
  unfolding and_symbolic
  and_symbolic-Denotes e x rhs d = elim (Bool-cases (is_known e 0 || rhs == 0)) [
    | inl h ↦
        let nothing : wrap (bit_and x rhs) ≡ 0 =
          masked-zero x rhs (elim (or-cases (is_known e 0) (rhs == 0) h) [
            | inl p ↦ inl (Denotes-known env e 0 x d p)
            | inr p ↦ inr (ground arith)
          ]) in
        rw (h, nothing) (constant env 0 (omega arith))
    | inr h ↦ rw h (and_node e x rhs d)
  ]

  pub and_expression-Denotes :
      (e : SymbolicExpression S) (x rhs : ℕ)
      → Denotes env e x
      → Denotes env (and_expression e rhs) (wrap (bit_and x rhs))
  unfolding and_expression
  and_expression-Denotes e x rhs d = and_case (try_to_number e) e x rhs d refl
    where
      and_case :
          (t : Option ℕ) (e : SymbolicExpression S) (x rhs : ℕ)
          → Denotes env e x
          → try_to_number e ≡ t
          → Denotes env
              (elim t [ some a ↦ concrete (wrap (bit_and a rhs)) | none ↦ and_symbolic e rhs ])
              (wrap (bit_and x rhs))
      and_case none e x rhs d h = and_symbolic-Denotes e x rhs d
      and_case (some a) e x rhs d h =
          let same = try_to_number-value e a x d h in
          let x_lt = Denotes-lt env e x d in
          let small = bit_and-le x x rhs (omega arith) in
          let below : wrap (bit_and x rhs) < order =
            rw (masked-wrap x rhs x_lt) (omega (arith, small)) in
          rw (sym same) (constant env (wrap (bit_and x rhs)) below)
