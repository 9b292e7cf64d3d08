-- ===== src/Executor/Laws.antt =====
-- What each instruction does to the state: what the children share.
pub mod Words
pub mod Arith
pub mod Bitwise
pub mod Memory
pub mod Compare
pub mod Jump
pub mod Branch
use powdr.Goldilocks
use powdr.Goldilocks.Power.{div-eq, inverse_chain-IsPower}
use powdr.Goldilocks.Convert.{from_i64-lt}
use powdr.Prelude.{
  ℕ, ◌+◌, ◌-◌, ◌*◌, ◌^◌, ◌%◌, ◌/◌, ◌<◌, ◌≤◌, ◌≡◌, ◌≢◌, refl, ap, Bool, true, false, not, List, [],
  ◌∷◌, Option, none, some, ltb, leb, arith, lt→ltb, Bool-cases, ◌⊎◌, inl, inr, get_or, update, ◌==◌,
  if◌then◌else◌,
}
use powdr.Prelude.Int.{
  ℤ, pos, negsuc, ◌+ℤ◌, ◌-ℤ◌, ◌*ℤ◌, checked, fits_i64, pos_part, neg_part, sub_ℕ,
}
use powdr.Executor.Elem.{Elem, binary, field, u, is_zero, into_fe, from_u32_as_fe, from_bool_as_fe}
use powdr.Executor.Elem
use powdr.Executor.State.{State, Core, Trace, M, outcome, except_log}
use powdr.Executor.Proc.{read_reg, write_reg, record_col}
use powdr.Executor.Instr.{set_zero_test}
use powdr.Executor.Names.{KnownWitnessCol}

abbrev pub word : ℕ → Elem
word n = binary (pos n)

-- Register `r` holds `x`.
abbrev pub Holds : State → ℕ → ℤ → Type 0
Holds st r x = read_reg st.core.last r ≡ binary x

-- The state with register `w` holding `v`; register 0 is never written.
abbrev pub with_reg : ℕ → Elem → Core → Core
with_reg w v c = record c { last = if w == 0 then c.last else update c.last w (some v) }

-- From `st`, `m` succeeds and returns `a`; it leaves `core` as the part of the state that decides the
-- further execution, and changes nothing else (the clock, the register bank, the second register
-- memory) but what is recorded.
abbrev pub Changes : {A : Type 0} → M A → State → A → Core → Type 0
Changes m st a core = except_log st.log (m st) ≡ some (a, record st { core = core })

outcome-except_log :
    {A : Type 0} (log : Trace) (r : Option (A × State)) → outcome (except_log log r) ≡ outcome r
outcome-except_log log none = refl
outcome-except_log log (some (a, st)) = refl

pub changes-outcome :
    {A : Type 0} (r : Option (A × State)) (st : State) (a : A) (core : Core)
    → except_log st.log r ≡ some (a, record st { core = core })
    → outcome r ≡ some (a, core)
changes-outcome r st a core e = cc (outcome-except_log st.log r, ap outcome e)

pub u-word : (n : ℕ) → n < 2 ^ 32 → u (word n) ≡ some n
unfolding u
u-word n h = ground arith

-- An integer of at most 2^62 in absolute value, so well inside the range of an i64.
abbrev pub IsSmall : ℤ → Type 0
IsSmall x = (pos_part x ≤ 2 ^ 62) × (neg_part x ≤ 2 ^ 62)

-- What the machine requires of a difference that it compares with zero: -2^32 < x < 2^32.
abbrev pub IsDifference : ℤ → Type 0
IsDifference x = (pos_part x < 2 ^ 32) × (neg_part x < 2 ^ 32)

pub checked-small : (x : ℤ) → IsSmall x → checked x ≡ some x
checked-small (pos n) h = ground arith
checked-small (negsuc n) h = ground arith

pub add-small :
    (a b : ℤ) → IsSmall (a +ℤ b) → Elem.add (binary a) (binary b) ≡ some (binary (a +ℤ b))
unfolding Elem.add
add-small a b h = rw (checked-small (a +ℤ b) h)

pub sub-small :
    (a b : ℤ) → IsSmall (a -ℤ b) → Elem.sub (binary a) (binary b) ≡ some (binary (a -ℤ b))
unfolding Elem.sub
sub-small a b h = rw (checked-small (a -ℤ b) h)

fits-small : (x : ℤ) → IsSmall x → fits_i64 x ≡ true
fits-small (pos n) h = ground arith
fits-small (negsuc n) h = ground arith

pub mul-small : (a b : ℤ) → IsSmall (a *ℤ b) → Elem.mul (binary a) (binary b) ≡ binary (a *ℤ b)
unfolding Elem.mul
mul-small a b h = rw (fits-small (a *ℤ b) h)

-- A nonzero small value is not zero in the field.
into_fe-small : (x : ℤ) → IsSmall x → is_zero (binary x) ≡ false → into_fe (binary x) ≢ 0
unfolding into_fe is_zero Goldilocks.from_i64
into_fe-small (pos n) h e = ground arith
into_fe-small (negsuc n) h e = ground arith

-- What the zero test records.
pub zero_log : Elem → State → Trace
zero_log val st =
    let tested =
      record_col st.core.env KnownWitnessCol.xx_is_zero (from_bool_as_fe (is_zero val))
        (record_col st.core.env KnownWitnessCol.xx val st.log) in
    if is_zero val
    then tested
    else record_col st.core.env KnownWitnessCol.xx_inv
        (field (get_or (Goldilocks.div 1 (into_fe val)) 0)) tested

-- The zero test on a small value never panics, and records columns only.
pub set_zero_test-small :
    (x : ℤ) (st : State)
    → IsSmall x
    → set_zero_test (binary x) st ≡ some (tt, record st { log = zero_log (binary x) st })
unfolding set_zero_test zero_log
set_zero_test-small x st h = elim (Bool-cases (is_zero (binary x))) [
  | inl e ↦ rw e
  | inr e ↦ rw (e, div-eq 1 (into_fe (binary x)) (into_fe-small x h e))
]

pub add-field :
    (a : ℤ) (f : ℕ)
    → Elem.add (binary a) (field f) ≡ some (field (Goldilocks.add (Goldilocks.from_i64 a) f))
unfolding Elem.add
add-field a f = refl
