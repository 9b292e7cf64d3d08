-- ===== src/Tests/Witgen.antt =====
-- The properties of the witness generator at concrete constraints and expressions.
use powdr.Prelude.{
  [], ◌∷◌, if◌then◌else◌, ◌==◌, ℕ, ◌-◌, ◌/◌, ◌^◌, ◌≡◌, ◌≢◌, refl, true, false, none, some, arith,
  inr, ◌&&◌, ◌||◌, bit_and,
}
use powdr.Goldilocks.{order, wrap, add, neg, mul, inverse_chain, pow, pow_loop, square}
use powdr.Goldilocks.Power.{div-eq}
use powdr.Witgen.RangeConstraint.{
  RangeConstraint, in_range, allows_value, combine_sum, bisect, from_mask, from_range,
}
use powdr.Witgen.Combine.{conjunction, disjunction, multiple, negated}
use powdr.Witgen.Sums.{IsValid, combine_sum-allows}
use powdr.Witgen.Intersections.{conjunction-allows}
use powdr.Witgen.Unions.{disjunction-allows}
use powdr.Witgen.Multiples.{multiple-allows}
use powdr.Witgen.Splits.{bisect-partition}
use powdr.Witgen.Validity.{operations-IsValid}
use powdr.Witgen.PaddedBits.{PaddedBitVec, get_bit, set_bit}
use powdr.Witgen.PaddedBits.Access.{IsPadded, in_bounds, all_words}
use powdr.Witgen.PaddedBits.Flags.{set_bit-get_bit}
use powdr.Witgen.Expression.{
  SymbolicExpression, concrete, symbol, add_expressions, mul_expressions, negate_expression,
  and_expression, field_div, integer_div, both_concrete,
}
use powdr.Witgen.Expression.Meaning.{Denotes}
use powdr.Witgen.Expression.Ring.{operators-Denotes}
use powdr.Witgen.Expression.Quotients.{
  field_div-Denotes, integer_div-Denotes, integer_div-not_integer,
}

-- Five to nine, and a range around zero that wraps.
abbrev five_to_nine : RangeConstraint
five_to_nine = record { mask = 15; min = 5; max = 9 }

abbrev around_zero : RangeConstraint
around_zero = record { mask = 2 ^ 64 - 1; min = order - 3; max = 8 }

five_to_nine-IsValid : IsValid five_to_nine
five_to_nine-IsValid = record {
  mask_fits = omega arith;
  min_fits = omega arith;
  max_fits = omega arith;
}

around_zero-IsValid : IsValid around_zero
around_zero-IsValid = record {
  mask_fits = omega arith;
  min_fits = omega arith;
  max_fits = omega arith;
}

seven_allowed : allows_value five_to_nine 7 ≡ true
unfolding allows_value in_range
seven_allowed = refl

seven_allowed_too : allows_value around_zero 7 ≡ true
unfolding allows_value in_range
seven_allowed_too = refl

minus_two_allowed : allows_value around_zero (order - 2) ≡ true
unfolding allows_value in_range
minus_two_allowed = refl

combine_sum-allows_example :
    allows_value (combine_sum five_to_nine around_zero) (add 7 (order - 2)) ≡ true
combine_sum-allows_example =
    combine_sum-allows five_to_nine around_zero 7 (order - 2) five_to_nine-IsValid
      around_zero-IsValid (omega arith) (omega arith) seven_allowed minus_two_allowed

conjunction-allows_example : allows_value (conjunction five_to_nine around_zero) 7 ≡ true
conjunction-allows_example =
    conjunction-allows five_to_nine around_zero 7 five_to_nine-IsValid around_zero-IsValid
      (omega arith) seven_allowed seven_allowed_too

disjunction-allows_example : allows_value (disjunction five_to_nine around_zero) (order - 2) ≡ true
disjunction-allows_example =
    disjunction-allows five_to_nine around_zero (order - 2) five_to_nine-IsValid around_zero-IsValid
      (omega arith) (inr minus_two_allowed)

multiple-allows_example :
    allows_value (multiple around_zero (order - 4)) (mul (order - 2) (order - 4)) ≡ true
multiple-allows_example =
    multiple-allows around_zero (order - 4) (order - 2) around_zero-IsValid (omega arith)
      (omega arith) minus_two_allowed

bisect-partition_example :
    (low : RangeConstraint) × (high : RangeConstraint) × (bisect around_zero ≡ some (low, high))
    × (allows_value around_zero 7 ≡ (allows_value low 7 || allows_value high 7))
    × ((allows_value low 7 && allows_value high 7) ≡ false)
bisect-partition_example =
    bisect-partition around_zero 7 around_zero-IsValid (omega arith) (omega arith)

operations-IsValid_example :
    IsValid (combine_sum five_to_nine around_zero)
    × IsValid (conjunction five_to_nine around_zero)
    × IsValid (disjunction five_to_nine around_zero)
    × IsValid (multiple five_to_nine 6)
    × IsValid (negated five_to_nine)
    × IsValid (from_mask 255)
    × IsValid (from_range 9 2)
operations-IsValid_example =
    operations-IsValid five_to_nine around_zero 6 255 9 2 five_to_nine-IsValid around_zero-IsValid
      (omega arith) (omega arith) (omega arith) (omega arith)

-- Symbols are numbers and stand for themselves.
abbrev itself : ℕ → ℕ
itself n = n

abbrev seven : SymbolicExpression ℕ
seven = symbol 7 five_to_nine

abbrev minus_two : SymbolicExpression ℕ
minus_two = symbol (order - 2) around_zero

seven-Denotes : Denotes itself seven 7
unfolding Denotes
seven-Denotes = (
  refl,
  record { canonical = omega arith; valid = five_to_nine-IsValid; allowed = seven_allowed },
)

minus_two-Denotes : Denotes itself minus_two (order - 2)
unfolding Denotes
minus_two-Denotes = (
  refl,
  record { canonical = omega arith; valid = around_zero-IsValid; allowed = minus_two_allowed },
)

operators-Denotes_example :
    Denotes itself (add_expressions seven minus_two) (add 7 (order - 2))
    × Denotes itself (mul_expressions seven minus_two) (mul 7 (order - 2))
    × Denotes itself (negate_expression seven) (neg 7)
    × Denotes itself (and_expression seven 3) (wrap (bit_and 7 3))
operators-Denotes_example =
    operators-Denotes itself seven minus_two 7 (order - 2) 3 seven-Denotes minus_two-Denotes

field_div-Denotes_example :
    (e : SymbolicExpression ℕ) × (field_div minus_two seven ≡ some e)
    × Denotes itself e (mul (order - 2) (inverse_chain 7))
field_div-Denotes_example =
    field_div-Denotes itself minus_two seven (order - 2) 7 (mul (order - 2) (inverse_chain 7))
      minus_two-Denotes seven-Denotes (omega arith) (div-eq (order - 2) 7 (omega arith))

not_constants : both_concrete minus_two seven ≡ none
unfolding both_concrete
not_constants = refl

integer_div-Denotes_example :
    (e : SymbolicExpression ℕ) × (integer_div minus_two seven ≡ some e)
    × Denotes itself e ((order - 2) / 7)
integer_div-Denotes_example =
    integer_div-Denotes itself minus_two seven (order - 2) 7 minus_two-Denotes seven-Denotes
      (omega arith) not_constants

seven_power : pow 7 (order - 1) ≡ 1
unfolding pow pow_loop square mul
seven_power = refl

integer_div-not_integer_example :
    (q : ℕ) × (integer_div {S = ℕ} (concrete 12) (concrete 7) ≡ some (concrete q))
    × (mul q 7 ≡ 12)
    × (q ≢ 12 / 7)
integer_div-not_integer_example =
    integer_div-not_integer itself 12 7 (omega arith) (omega arith) (omega arith) seven_power
      (omega arith)

-- Two rows of 40 flags, the second with 35 of them, and one flag set.
abbrev two_rows : PaddedBitVec
two_rows = record {
  words = 8 ∷ 1 ∷ 0 ∷ 5 ∷ [];
  bits_per_row = 40;
  words_per_row = 2;
  rows = 2;
  bits_in_last_row = 35;
}

two_rows-IsPadded : IsPadded two_rows
unfolding all_words
two_rows-IsPadded = record {
  word_bits = refl;
  row_words = refl;
  last_row = omega arith;
  size = refl;
}

flag_33 : in_bounds two_rows 1 33 ≡ true
unfolding in_bounds
flag_33 = refl

flag_34 : in_bounds two_rows 1 34 ≡ true
unfolding in_bounds
flag_34 = refl

set_bit-get_bit_example :
    (v' : PaddedBitVec) × (set_bit two_rows 1 33 true ≡ some v')
    × IsPadded v'
    × (get_bit v' 1 34 ≡ (if 1 == 1 && 34 == 33 then some true else get_bit two_rows 1 34))
set_bit-get_bit_example = set_bit-get_bit two_rows 1 33 1 34 true two_rows-IsPadded flag_33 flag_34
