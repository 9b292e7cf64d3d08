-- ===== src/Executor/Elem.antt =====
-- riscv-executor/src/lib.rs, `Elem`: a register value, either a signed 64-bit integer or an element
-- of the Goldilocks field. Partial operations return `none` where the source panics.
use powdr.Goldilocks
use powdr.Prelude.{
  ℕ, ◌+◌, ◌/◌, ◌%◌, ◌^◌, Bool, true, false, ltb, leb, ◌==◌, if◌then◌else◌, Option, none, some, ◌&&◌,
}
use powdr.Prelude.Int.{
  ℤ, pos, negsuc, ◌+ℤ◌, ◌-ℤ◌, ◌*ℤ◌, checked, fits_i64, as_u64, as_i64, pos_part, neg_part, sub_ℕ,
}

pub data Elem : Type 0 where
  binary : ℤ → Elem
  field : ℕ → Elem

-- `u32::try_from` and `i32::try_from` of an integer.
abbrev pub try_u32 : ℤ → Option ℕ
try_u32 (pos n) = if ltb n (2 ^ 32) then some n else none
try_u32 (negsuc n) = none

abbrev pub try_i32 : ℤ → Option ℤ
try_i32 x = if ltb (pos_part x) (2 ^ 31) && leb (neg_part x) (2 ^ 31) then some x else none

unfoldable pub try_from_fe_as_bin : ℕ → Option Elem
try_from_fe_as_bin value =
    let integer = Goldilocks.to_signed_integer value in
    elim (try_u32 integer) [
      | some n ↦ some (binary (pos n))
      | none ↦ elim (try_i32 integer) [ some x ↦ some (binary x) | none ↦ none ]
    ]

abbrev pub from_u32_as_fe : ℕ → Elem
from_u32_as_fe value = field value

unfoldable pub from_i32_as_fe : ℤ → Elem
from_i32_as_fe value = field (Goldilocks.from_i64 value)

abbrev pub from_bool_as_fe : Bool → Elem
from_bool_as_fe true = field 1
from_bool_as_fe false = field 0

unfoldable pub into_fe : Elem → ℕ
into_fe (field f) = f
into_fe (binary b) = Goldilocks.from_i64 b

unfoldable pub as_i64_from_lower_bytes : Elem → ℤ
as_i64_from_lower_bytes (binary b) = b
as_i64_from_lower_bytes (field f) = as_i64 f

abbrev pub bin : Elem → Option ℤ
bin (binary b) = some b
bin (field f) = none

unfoldable pub u : Elem → Option ℕ
u (binary b) = try_u32 b
u (field f) = none

unfoldable pub s : Elem → Option ℤ
s (binary b) = try_i32 b
s (field f) = none

unfoldable pub is_zero : Elem → Bool
is_zero (binary (pos n)) = n == 0
is_zero (binary (negsuc n)) = false
is_zero (field f) = f == 0

abbrev pub binary? : Option ℤ → Option Elem
binary? none = none
binary? (some x) = some (binary x)

unfoldable pub add : Elem → Elem → Option Elem
add (binary a) (binary b) = binary? (checked (a +ℤ b))
add (field a) (field b) = some (field (Goldilocks.add a b))
add (binary a) (field b) = some (field (Goldilocks.add (Goldilocks.from_i64 a) b))
add (field a) (binary b) = some (field (Goldilocks.add a (Goldilocks.from_i64 b)))

unfoldable pub sub : Elem → Elem → Option Elem
sub (binary a) (binary b) = binary? (checked (a -ℤ b))
sub (field a) (field b) = some (field (Goldilocks.sub a b))
sub (binary a) (field b) = some (field (Goldilocks.sub (Goldilocks.from_i64 a) b))
sub (field a) (binary b) = some (field (Goldilocks.sub a (Goldilocks.from_i64 b)))

-- A product that does not fit an i64 is taken in the field.
unfoldable pub mul : Elem → Elem → Elem
mul (binary a) (binary b) =
    if fits_i64 (a *ℤ b)
    then binary (a *ℤ b)
    else field (Goldilocks.mul (Goldilocks.from_i64 a) (Goldilocks.from_i64 b))
mul (field a) (field b) = field (Goldilocks.mul a b)
mul (binary a) (field b) = field (Goldilocks.mul (Goldilocks.from_i64 a) b)
mul (field a) (binary b) = field (Goldilocks.mul a (Goldilocks.from_i64 b))

-- Division of signed integers truncates towards zero; it panics on zero and on overflow.
abbrev pub div_ℤ : ℤ → ℤ → Option ℤ
div_ℤ (pos a) (pos b) = if b == 0 then none else some (pos (a / b))
div_ℤ (pos a) (negsuc b) = some (sub_ℕ 0 (a / (b + 1)))
div_ℤ (negsuc a) (pos b) = if b == 0 then none else some (sub_ℕ 0 ((a + 1) / b))
div_ℤ (negsuc a) (negsuc b) = checked (pos ((a + 1) / (b + 1)))

abbrev field? : Option ℕ → Option Elem
field? none = none
field? (some f) = some (field f)

unfoldable pub div : Elem → Elem → Option Elem
div (binary a) (binary b) = binary? (div_ℤ a b)
div (field a) (field b) = field? (Goldilocks.div a b)
div (binary a) (field b) = field? (Goldilocks.div (Goldilocks.from_i64 a) b)
div (field a) (binary b) = field? (Goldilocks.div a (Goldilocks.from_i64 b))

-- The bytes b1 to b4 of a word, lowest first, and bit 31.
pub record Bytes : Type 0 where
  pub b1 : ℕ
  pub b2 : ℕ
  pub b3 : ℕ
  pub b4 : ℕ
  pub sign : ℕ

unfoldable pub decompose_lower32 : ℤ → Bytes
decompose_lower32 x =
    let v = as_u64 x in
    record {
      b1 = v % 256;
      b2 = v / 2 ^ 8 % 256;
      b3 = v / 2 ^ 16 % 256;
      b4 = v / 2 ^ 24 % 256;
      sign = v / 2 ^ 31 % 2;
    }

-- The derived equality of `Elem`: a binary value differs from every field value.
unfoldable pub same_elem : Elem → Elem → Bool
same_elem (binary (pos a)) (binary (pos b)) = a == b
same_elem (binary (negsuc a)) (binary (negsuc b)) = a == b
same_elem (field a) (field b) = a == b
same_elem _ _ = false
