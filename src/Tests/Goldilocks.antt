-- ===== src/Tests/Goldilocks.antt =====
-- The field's properties at concrete elements.
use powdr.Prelude.{
  ℕ, ◌+◌, ◌-◌, ◌*◌, ◌^◌, ◌%◌, ◌≡◌, refl, arith, false, ◌==◌, none, some, if◌then◌else◌,
}
use powdr.Prelude.Int.{negsuc}
use powdr.Goldilocks.{
  order, add, add_carry, reduce128, mul, square, try_inverse, div, pow, pow_loop, from_i64,
  to_signed_integer,
}
use powdr.Goldilocks.Arith.{add_lem, add-no_second_carry, reduce128_lem}
use powdr.Goldilocks.Power.{mul_lem, pow_lem, try_inverse_lem, mul-div}
use powdr.Goldilocks.Convert.{to_signed_integer-from_i64}

reduce128_lem_example : reduce128 (2 ^ 127 + 12345) ≡ (2 ^ 127 + 12345) % order
reduce128_lem_example = reduce128_lem (2 ^ 127 + 12345) (omega arith)

seven_lem : pow 7 (order - 1) ≡ 1
unfolding pow pow_loop square mul
seven_lem = refl

mul-div_example : (q : ℕ) × (div 12 7 ≡ some q) × (mul q 7 ≡ 12)
mul-div_example = mul-div 12 7 (omega arith) (omega arith) (omega arith) seven_lem

pow_lem_example : pow 3 40 ≡ 3 ^ 40 % order
pow_lem_example = pow_lem 3 40 (omega arith) (omega arith)

try_inverse_lem_example : try_inverse 5 ≡ (if 5 == 0 then none else some (5 ^ (order - 2) % order))
try_inverse_lem_example = try_inverse_lem 5 (omega arith)

mul_lem_example : mul (order - 1) (order - 2) ≡ ((order - 1) * (order - 2)) % order
mul_lem_example = mul_lem (order - 1) (order - 2) (omega arith) (omega arith)

add_lem_example : add (order - 1) 5 ≡ (order - 1 + 5) % order
add_lem_example = add_lem (order - 1) 5 (omega arith) (omega arith)

add-no_second_carry_example : (add_carry (order - 1) (order - 1)).over ≡ false
add-no_second_carry_example =
    add-no_second_carry (order - 1) (order - 1) (omega arith) (omega arith)

to_signed_integer-from_i64_example : to_signed_integer (from_i64 (negsuc 41)) ≡ negsuc 41
to_signed_integer-from_i64_example =
    to_signed_integer-from_i64 (negsuc 41) (omega arith) (omega arith)
