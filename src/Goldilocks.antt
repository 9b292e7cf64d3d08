-- ===== src/Goldilocks.antt =====
-- number/src/goldilocks.rs: the 64-bit prime field, on plain words below 2^64.
--
-- An element is its word, `self.0`. The operators wrap at 2^64 as the release build does; the
-- places where the source asserts that nothing overflows are theorems of the children.
pub mod Arith
pub mod Power
pub mod Convert
use powdr.Prelude.{
  ℕ, zero, suc, ◌+◌, ◌-◌, ◌*◌, ◌/◌, ◌%◌, ◌^◌, Bool, true, false, ltb, leb, ◌==◌, if◌then◌else◌,
  Option, none, some, not,
}
use powdr.Prelude.Int.{ℤ, pos, negsuc, sub_ℕ}

abbrev pub order : ℕ
order = 0xffffffff00000001

abbrev pub epsilon : ℕ
epsilon = 2 ^ 32 - 1

-- A u64 operation that reports a carry or a borrow.
pub record Overflowing : Type 0 where
  pub value : ℕ
  pub over : Bool

abbrev pub overflowing_add : ℕ → ℕ → Overflowing
overflowing_add a b = record { value = (a + b) % 2 ^ 64; over = leb (2 ^ 64) (a + b) }

abbrev pub overflowing_sub : ℕ → ℕ → Overflowing
overflowing_sub a b = record { value = (a + 2 ^ 64 - b) % 2 ^ 64; over = ltb a b }

-- `b as u64`
abbrev pub from_bool : Bool → ℕ
from_bool true = 1
from_bool false = 0

unfoldable pub wrap : ℕ → ℕ
wrap x = if leb order x then x - order else x

unfoldable pub neg : ℕ → ℕ
neg a = if a == 0 then 0 else order - a

unfoldable pub add_carry : ℕ → ℕ → Overflowing
add_carry a b =
    let first = overflowing_add a b in overflowing_add first.value (from_bool first.over * epsilon)

unfoldable pub add : ℕ → ℕ → ℕ
unfolding add_carry wrap
add a b = wrap (add_carry a b).value

unfoldable pub sub_borrow : ℕ → ℕ → Overflowing
sub_borrow a b =
    let first = overflowing_sub a b in overflowing_sub first.value (from_bool first.over * epsilon)

unfoldable pub sub : ℕ → ℕ → ℕ
unfolding sub_borrow wrap
sub a b = wrap (sub_borrow a b).value

-- `x as u64` and `(x >> 64) as u64` of a u128.
abbrev pub split_lo : ℕ → ℕ
split_lo x = x % 2 ^ 64

abbrev pub split_hi : ℕ → ℕ
split_hi x = x / 2 ^ 64 % 2 ^ 64

-- The first half of `reduce128`: x_lo - x_hi_hi, with EPSILON taken off on a borrow.
unfoldable pub reduce_low : ℕ → ℕ
reduce_low x =
    let diff = overflowing_sub (split_lo x) (split_hi x / 2 ^ 32) in
    if diff.over then (overflowing_sub diff.value epsilon).value else diff.value

-- `add_no_canonicalize_trashing_input`, in its portable form.
unfoldable pub add_no_canonicalize : ℕ → ℕ → ℕ
add_no_canonicalize x y =
    let sum = overflowing_add x y in (sum.value + epsilon * from_bool sum.over) % 2 ^ 64

unfoldable pub reduce128 : ℕ → ℕ
unfolding wrap reduce_low add_no_canonicalize
reduce128 x =
    let x_hi_lo = split_hi x % 2 ^ 32 in
    wrap (add_no_canonicalize (reduce_low x) (x_hi_lo * epsilon % 2 ^ 64))

unfoldable pub mul : ℕ → ℕ → ℕ
unfolding reduce128
mul a b = reduce128 (a * b)

unfoldable pub square : ℕ → ℕ
square a = mul a a

-- `for _ in 0..power_log { res = res.square(); }`
unfoldable pub exp_power_of_2 : ℕ → ℕ → ℕ
exp_power_of_2 res zero = res
exp_power_of_2 res (suc rounds) = exp_power_of_2 (square res) rounds

-- `exp_acc::<N>(base, tail)`
unfoldable pub exp_acc : ℕ → ℕ → ℕ → ℕ
unfolding exp_power_of_2
exp_acc n base tail = mul (exp_power_of_2 base n) tail

-- The addition chain of `try_inverse` on a nonzero element.
unfoldable pub inverse_chain : ℕ → ℕ
unfolding exp_acc square mul
inverse_chain a =
    let t2 = mul (square a) a in
    let t3 = mul (square t2) a in
    let t6 = exp_acc 3 t3 t3 in
    let t12 = exp_acc 6 t6 t6 in
    let t24 = exp_acc 12 t12 t12 in
    let t30 = exp_acc 6 t24 t6 in
    let t31 = mul (square t30) a in let t63 = exp_acc 32 t31 t31 in mul (square t63) a

unfoldable pub try_inverse : ℕ → Option ℕ
try_inverse a = if a == 0 then none else some (inverse_chain a)

-- `self * rhs.try_inverse().unwrap()`; `none` is the panic on a division by zero.
unfoldable pub div : ℕ → ℕ → Option ℕ
div a b = elim (try_inverse b) [ none ↦ none | some i ↦ some (mul a i) ]

-- The loop of `pow`, on fuel: x and r while exp >= 2, then r * x.
unfoldable pub pow_loop : ℕ → ℕ → ℕ → ℕ → ℕ
unfolding square mul
pow_loop zero exp x r = mul r x
pow_loop (suc fuel) exp x r =
    let r' = if not (exp % 2 == 0) then mul r x else r in
    let next = pow_loop fuel (exp / 2) (square x) r' in if leb 2 exp then next else mul r x

-- A u64 exponent is below 2 after 63 halvings.
unfoldable pub pow : ℕ → ℕ → ℕ
pow a exp = if exp == 0 then 1 else if exp == 1 then a else pow_loop 64 exp a 1

unfoldable pub from_u64 : ℕ → ℕ
unfolding wrap
from_u64 n = wrap n

-- `from_noncanonical_i64`: a negative i64 is its two's complement, added with wrap-around.
unfoldable pub from_i64 : ℤ → ℕ
from_i64 (pos n) = n
from_i64 (negsuc n) = (order + (2 ^ 64 - 1 - n)) % 2 ^ 64

unfoldable pub is_in_lower_half : ℕ → Bool
is_in_lower_half a = leb a ((order - 1) / 2)

-- `to_signed_integer` of the trait FieldElement (number/src/traits.rs).
unfoldable pub to_signed_integer : ℕ → ℤ
unfolding is_in_lower_half
to_signed_integer a = if is_in_lower_half a then pos a else sub_ℕ a order

unfoldable pub checked_from : ℕ → Option ℕ
unfolding from_u64
checked_from value = if ltb value order then some (from_u64 value) else none

-- `from_str_radix`, over what the standard library's u64::from_str_radix returns.
unfoldable pub from_str_radix : Option ℕ → Option ℕ
from_str_radix none = none
from_str_radix (some n) = some n
