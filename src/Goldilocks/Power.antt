-- ===== src/Goldilocks/Power.antt =====
-- Exponentiation and the inverse of number/src/goldilocks.rs: the loop of `pow` and the addition
-- chain of `try_inverse` against powers modulo the prime.
use powdr.Prelude.{
  ℕ, zero, suc, ◌+◌, ◌-◌, ◌*◌, ◌/◌, ◌%◌, ◌^◌, ◌<◌, ◌≤◌, ◌≡◌, ◌≢◌, sym, ap, ◌∙◌, arith, tests,
  Bool-cases, inl, inr, none, some, leb, not, ◌==◌, if◌then◌else◌,
}
use powdr.Goldilocks.{
  order, mul, square, exp_power_of_2, exp_acc, inverse_chain, try_inverse, div, pow_loop, pow,
}
use powdr.Goldilocks.Arith.{reduce128_lem}
use native.Mathlib.Nat.{
  one-mul, pow-suc, pow-zero, add-suc, mod-lt, mod-eq_of_lt, mul-add-mod_self_left, div-add-mod,
  mul_comm, add-zero, mul-one,
}

-- The product of two canonical elements is the product modulo the prime.
pub mul_lem : (a b : ℕ) → a < order → b < order → mul a b ≡ (a * b) % order
unfolding mul
mul_lem a b ha hb = reduce128_lem (a * b) (grind arith)

pub mod-mul_left : (a b m : ℕ) → (a % m * b) % m ≡ (a * b) % m
mod-mul_left a b m =
    sym (mul-add-mod_self_left m (a / m * b) (a % m * b))
    ∙ ap (λ (t : ℕ). t % m) (omega (arith, ap (λ (t : ℕ). t * b) (div-add-mod a m)))

mod-mul : (a b m : ℕ) → (a % m * (b % m)) % m ≡ (a * b) % m
mod-mul a b m =
    mod-mul_left a (b % m) m
    ∙ ap (λ (t : ℕ). t % m) (mul_comm a (b % m))
    ∙ mod-mul_left b a m
    ∙ ap (λ (t : ℕ). t % m) (mul_comm b a)

pub pow_add : (a m n : ℕ) → a ^ (m + n) ≡ a ^ m * a ^ n
pow_add a m zero = rw (add-zero, pow-zero) (omega arith)
pow_add a m (suc n) =
    rw (add-suc, pow-suc a (m + n), pow-suc a n)
      (omega (arith, ap (λ (t : ℕ). t * a) (pow_add a m n)))

-- `t` is the power of `a` by `k`, modulo the prime.
abbrev pub IsPower : ℕ → ℕ → ℕ → Type 0
IsPower a k t = t ≡ a ^ k % order

IsPower-lt : (a k t : ℕ) → IsPower a k t → t < order
IsPower-lt a k t h = rw h (mod-lt (a ^ k) (omega arith))

mul-IsPower : (a i j t u : ℕ) → IsPower a i t → IsPower a j u → IsPower a (i + j) (mul t u)
mul-IsPower a i j t u ht hu =
    mul_lem t u (IsPower-lt a i t ht) (IsPower-lt a j u hu)
    ∙ rw (ht, hu, pow_add a i j) (mod-mul (a ^ i) (a ^ j) order)

square-IsPower : (a k t : ℕ) → IsPower a k t → IsPower a (k + k) (square t)
unfolding square
square-IsPower a k t h = mul-IsPower a k k t t h h

exp_power_of_2-IsPower : (a k t n : ℕ) → IsPower a k t → IsPower a (k * 2 ^ n) (exp_power_of_2 t n)
unfolding exp_power_of_2
exp_power_of_2-IsPower a k t zero h = rw (pow-zero, mul-one) h
exp_power_of_2-IsPower a k t (suc n) h =
    let e : k * 2 ^ suc n ≡ (k + k) * 2 ^ n = rw (pow-suc 2 n) (omega arith) in
    rw e (exp_power_of_2-IsPower a (k + k) (square t) n (square-IsPower a k t h))

exp_acc-IsPower :
    (a n i j t u : ℕ) → IsPower a i t → IsPower a j u → IsPower a (i * 2 ^ n + j) (exp_acc n t u)
unfolding exp_acc
exp_acc-IsPower a n i j t u ht hu =
    mul-IsPower a (i * 2 ^ n) j (exp_power_of_2 t n) u (exp_power_of_2-IsPower a i t n ht) hu

one-IsPower : (a : ℕ) → a < order → IsPower a 1 a
one-IsPower a h =
    let e : a ^ 1 ≡ a = pow-suc a 0 ∙ rw pow-zero (omega arith) in rw e (sym (mod-eq_of_lt h))

-- The exponent p - 2 is reached through the chain's ones, in binary.
pub inverse_chain-IsPower : (a : ℕ) → a < order → IsPower a (order - 2) (inverse_chain a)
unfolding inverse_chain
inverse_chain-IsPower a h =
    let p1 = one-IsPower a h in
    let p2 = mul-IsPower a 2 1 (square a) a (square-IsPower a 1 a p1) p1 in
    let t2 = mul (square a) a in
    let p3 = mul-IsPower a 6 1 (square t2) a (square-IsPower a 3 t2 p2) p1 in
    let t3 = mul (square t2) a in
    let p6 = exp_acc-IsPower a 3 7 7 t3 t3 p3 p3 in
    let t6 = exp_acc 3 t3 t3 in
    let p12 = exp_acc-IsPower a 6 63 63 t6 t6 p6 p6 in
    let t12 = exp_acc 6 t6 t6 in
    let p24 = exp_acc-IsPower a 12 4095 4095 t12 t12 p12 p12 in
    let t24 = exp_acc 12 t12 t12 in
    let p30 = exp_acc-IsPower a 6 (2 ^ 24 - 1) 63 t24 t6 p24 p6 in
    let t30 = exp_acc 6 t24 t6 in
    let p31 =
      mul-IsPower a (2 ^ 31 - 2) 1 (square t30) a (square-IsPower a (2 ^ 30 - 1) t30 p30) p1 in
    let t31 = mul (square t30) a in
    let p63 = exp_acc-IsPower a 32 (2 ^ 31 - 1) (2 ^ 31 - 1) t31 t31 p31 p31 in
    let t63 = exp_acc 32 t31 t31 in
    let e63 : ℕ = (2 ^ 31 - 1) * 2 ^ 32 + (2 ^ 31 - 1) in
    mul-IsPower a (e63 + e63) 1 (square t63) a (square-IsPower a e63 t63 p63) p1

pow_loop-IsPower :
    (a fuel exp i j x r : ℕ)
    → 1 ≤ exp
    → exp < 2 ^ suc fuel
    → IsPower a i x
    → IsPower a j r
    → IsPower a (j + i * exp) (pow_loop fuel exp x r)
unfolding pow_loop
pow_loop-IsPower a zero exp i j x r lo hi hx hr =
    let e : exp ≡ 1 = omega arith in rw (e, mul-one) (mul-IsPower a j i r x hr hx)
pow_loop-IsPower a (suc fuel) exp i j x r lo hi hx hr = elim (Bool-cases (leb 2 exp)) [
  | inl more ↦ rw more (
      rw split (
        pow_loop-IsPower a fuel (exp / 2) (i + i) _ (square x) _ (omega (tests))
          (grind (arith, pow-suc 2 (suc fuel))) (square-IsPower a i x hx) bit))
  | inr done ↦
      let e : exp ≡ 1 = ground arith in rw done (rw (e, mul-one) (mul-IsPower a j i r x hr hx))
]
  where
    low : ℕ
    low = if not (exp % 2 == 0) then i else 0

    bit : IsPower a (j + low) (if not (exp % 2 == 0) then mul r x else r)
    bit = elim (Bool-cases (exp % 2 == 0)) [
      | inl even ↦ rw (even, add-zero) hr
      | inr odd ↦ rw odd (mul-IsPower a j i r x hr hx)
    ]

    split : j + i * exp ≡ j + low + (i + i) * (exp / 2)
    split = ground (arith, ap (λ (t : ℕ). i * t) (div-add-mod exp 2))

pow-suc_suc : (a exp : ℕ) → 2 ≤ exp → pow a exp ≡ pow_loop 64 exp a 1
unfolding pow
pow-suc_suc a exp h = ground arith

one-IsPower_zero : (a : ℕ) → IsPower a 0 1
one-IsPower_zero a = rw pow-zero

-- For a canonical base and every u64 exponent, `pow`, with 64 rounds of fuel for its loop, returns
-- the power modulo the prime.
pub pow_lem : (a exp : ℕ) → a < order → exp < 2 ^ 64 → pow a exp ≡ a ^ exp % order
pow_lem a zero ha he = unfold pow in rw pow-zero
pow_lem a (suc zero) ha he = unfold pow in one-IsPower a ha
pow_lem a (suc (suc exp)) ha he = rw (pow-suc_suc a (suc (suc exp)) (omega arith)) (
    pow_loop-IsPower a 64 (suc (suc exp)) 1 0 a 1 (omega arith) (omega arith) (one-IsPower a ha)
      (one-IsPower_zero a)
    ∙ ap (λ (e : ℕ). a ^ e % order) (omega arith))

-- On a canonical element, `try_inverse` fails exactly on zero, and else returns the power by p - 2
-- modulo the prime.
pub try_inverse_lem :
    (a : ℕ) → a < order → try_inverse a ≡ (if a == 0 then none else some (a ^ (order - 2) % order))
unfolding try_inverse
try_inverse_lem a h = rw (inverse_chain-IsPower a h)

pub div-eq : (a b : ℕ) → b ≢ 0 → div a b ≡ some (mul a (inverse_chain b))
unfolding div try_inverse
div-eq a b ne = ground arith

-- Dividing a canonical element by a nonzero canonical b for which `pow b (p - 1)` is 1 (Fermat's
-- theorem) never panics, and multiplying the quotient by b gives the dividend back.
pub mul-div :
    (a b : ℕ)
    → a < order
    → b < order
    → b ≢ 0
    → pow b (order - 1) ≡ 1
    → (q : ℕ) × (div a b ≡ some q) × (mul q b ≡ a)
mul-div a b ha hb ne fermat = (mul a i, div-eq a b ne, back)
  where
    i : ℕ
    i = inverse_chain b

    i_lt : i < order
    i_lt = IsPower-lt b (order - 2) i (inverse_chain-IsPower b hb)

    unit : (i * b) % order ≡ 1
    unit =
        sym (mul_lem i b i_lt hb)
        ∙ mul-IsPower b (order - 2) 1 i b (inverse_chain-IsPower b hb) (one-IsPower b hb)
        ∙ sym (pow_lem b (order - 1) hb (omega arith))
        ∙ fermat

    back : mul (mul a i) b ≡ a
    back =
        mul_lem (mul a i) b (rw (mul_lem a i ha i_lt) (mod-lt (a * i) (omega arith))) hb
        ∙ rw (mul_lem a i ha i_lt) (mod-mul_left (a * i) b order)
        ∙ ap (λ (t : ℕ). t % order) {x = a * i * b} {y = i * b * a} (omega arith)
        ∙ sym (mod-mul_left (i * b) a order)
        ∙ rw (unit, one-mul) (mod-eq_of_lt ha)

pub inverse_chain-lt : (b : ℕ) → b < order → inverse_chain b < order
inverse_chain-lt b h = IsPower-lt b (order - 2) (inverse_chain b) (inverse_chain-IsPower b h)

-- A quotient is canonical.
pub quotient-lt : (a b q : ℕ) → a < order → b < order → div a b ≡ some q → q < order
unfolding div try_inverse
quotient-lt a zero q ha hb h = grind arith
quotient-lt a (suc b) q ha hb h =
    let i = inverse_chain (suc b) in
    let i_lt = inverse_chain-lt (suc b) hb in
    let same : mul a i ≡ q = grind (arith, div-eq (suc b)) in
    rw (sym same, mul_lem a i ha i_lt) (mod-lt (a * i) (omega arith))
