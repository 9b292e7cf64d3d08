-- ===== src/Executor/Memory/Sorted.antt =====
-- The sort of riscv-executor/src/memory.rs on operations with different keys.
use powdr.Prelude.{
  ℕ, Option, none, some, ◌++◌, suc, ◌+◌, ◌^◌, ◌≡◌, refl, ap, sym, arith, Bool, true, false, ltb,
  ◌==◌, ◌&&◌, if◌then◌else◌, List, [], ◌∷◌, length, Bool-cases, inl, inr,
}
use powdr.Executor.Memory.{add_operation, Op, key_lt, insert_op, sort_ops}

abbrev pub same_key : Op → Op → Bool
same_key a b = a.addr == b.addr && a.step == b.step

-- Each operation comes before the next.
unfoldable pub increasing : List Op → Bool
increasing [] = true
increasing (op ∷ []) = true
increasing (op ∷ next ∷ ops) = key_lt op next && increasing (next ∷ ops)

-- No operation of the list has the key.
unfoldable pub fresh : Op → List Op → Bool
fresh op [] = true
fresh op (x ∷ xs) = (if same_key op x then false else true) && fresh op xs

unfoldable pub distinct : List Op → Bool
distinct [] = true
distinct (op ∷ ops) = fresh op ops && distinct ops

length-insert_op : (op : Op) (ops : List Op) → length (insert_op op ops) ≡ suc (length ops)
unfolding insert_op
length-insert_op op [] = refl
length-insert_op op (x ∷ xs) = elim (Bool-cases (key_lt op x)) [
  | inl e ↦ rw e refl
  | inr e ↦ rw e (ap suc (length-insert_op op xs))
]

pub length-sort_ops :
    (ops sorted : List Op) → length (sort_ops sorted ops) ≡ length sorted + length ops
unfolding sort_ops
length-sort_ops [] sorted = omega arith
length-sort_ops (op ∷ ops) sorted =
    let rest = length-sort_ops ops (insert_op op sorted) in
    let one = length-insert_op op sorted in omega (arith, rest, one)

fresh-insert_op :
    (other op : Op) (ops : List Op)
    → same_key other op ≡ false
    → fresh other ops ≡ true
    → fresh other (insert_op op ops) ≡ true
unfolding fresh insert_op
fresh-insert_op other op [] h q = rw h refl
fresh-insert_op other op (x ∷ xs) h q = elim (Bool-cases (key_lt op x)) [
  | inl e ↦ rw (e, h) q
  | inr e ↦
      let later : fresh other xs ≡ true = ground arith in
      let rest = fresh-insert_op other op xs h later in rw e (ground (arith, rest))
]

-- An insertion after a smaller operation.
insert-after :
    (before op : Op) (ops : List Op)
    → increasing (before ∷ ops) ≡ true
    → key_lt before op ≡ true
    → fresh op ops ≡ true
    → increasing (before ∷ insert_op op ops) ≡ true
unfolding increasing insert_op fresh
insert-after before op [] h q f = rw q refl
insert-after before op (x ∷ xs) h q f =
    let first : key_lt before x ≡ true = ground arith in
    let rest : increasing (x ∷ xs) ≡ true = ground arith in
    elim (Bool-cases (key_lt op x)) [
      | inl e ↦ rw (e, q, e) rest
      | inr e ↦
          let follows : key_lt x op ≡ true = ground arith in
          let later : fresh op xs ≡ true = ground arith in
          rw (e, first) (insert-after x op xs rest follows later)
    ]

insert-increasing :
    (op : Op) (ops : List Op)
    → increasing ops ≡ true
    → fresh op ops ≡ true
    → increasing (insert_op op ops) ≡ true
unfolding increasing insert_op fresh
insert-increasing op [] h f = refl
insert-increasing op (x ∷ xs) h f = elim (Bool-cases (key_lt op x)) [
  | inl e ↦ rw (e, e) h
  | inr e ↦
      let follows : key_lt x op ≡ true = ground arith in
      let later : fresh op xs ≡ true = ground arith in rw e (insert-after x op xs h follows later)
]

unfoldable all_fresh : List Op → List Op → Bool
all_fresh [] sorted = true
all_fresh (op ∷ ops) sorted = fresh op sorted && all_fresh ops sorted

all_fresh-insert_op :
    (op : Op) (ops sorted : List Op)
    → fresh op ops ≡ true
    → all_fresh ops sorted ≡ true
    → all_fresh ops (insert_op op sorted) ≡ true
unfolding all_fresh fresh
all_fresh-insert_op op [] sorted f h = refl
all_fresh-insert_op op (x ∷ xs) sorted f h =
    let apart : same_key x op ≡ false = ground arith in
    let x_fresh : fresh x sorted ≡ true = ground arith in
    let here = fresh-insert_op x op sorted apart x_fresh in
    let op_fresh : fresh op xs ≡ true = ground arith in
    let later : all_fresh xs sorted ≡ true = ground arith in
    rw here (all_fresh-insert_op op xs sorted op_fresh later)

sort_ops-increasing :
    (ops sorted : List Op)
    → increasing sorted ≡ true
    → all_fresh ops sorted ≡ true
    → distinct ops ≡ true
    → increasing (sort_ops sorted ops) ≡ true
unfolding sort_ops all_fresh distinct
sort_ops-increasing [] sorted h f d = h
sort_ops-increasing (op ∷ ops) sorted h f d =
    let op_fresh : fresh op sorted ≡ true = ground arith in
    let rest_fresh : all_fresh ops sorted ≡ true = ground arith in
    let apart : fresh op ops ≡ true = ground arith in
    let rest : distinct ops ≡ true = ground arith in
    sort_ops-increasing ops (insert_op op sorted) (insert-increasing op sorted h op_fresh)
      (all_fresh-insert_op op ops sorted apart rest_fresh) rest

nothing-fresh : (ops : List Op) → all_fresh ops [] ≡ true
unfolding all_fresh fresh
nothing-fresh [] = refl
nothing-fresh (op ∷ ops) = nothing-fresh ops

-- Sorting operations with different keys puts each strictly before the next.
pub sorted-increasing : (ops : List Op) → distinct ops ≡ true → increasing (sort_ops [] ops) ≡ true
unfolding increasing
sorted-increasing ops d = sort_ops-increasing ops [] refl (nothing-fresh ops) d

-- Addresses and steps are u32 values.
unfoldable pub all_fit : List Op → Bool
all_fit [] = true
all_fit (op ∷ ops) = (ltb op.addr (2 ^ 32) && ltb op.step (2 ^ 32)) && all_fit ops

insert_op-fit :
    (op : Op) (ops : List Op)
    → (ltb op.addr (2 ^ 32) && ltb op.step (2 ^ 32)) ≡ true
    → all_fit ops ≡ true
    → all_fit (insert_op op ops) ≡ true
unfolding all_fit insert_op
insert_op-fit op [] h q = rw h refl
insert_op-fit op (x ∷ xs) h q =
    let later : all_fit xs ≡ true = ground arith in
    let rest = insert_op-fit op xs h later in
    elim (Bool-cases (key_lt op x)) [ inl e ↦ rw (e, h) q | inr e ↦ rw e (ground (arith, rest)) ]

pub sort_ops-fit :
    (ops sorted : List Op)
    → all_fit ops ≡ true
    → all_fit sorted ≡ true
    → all_fit (sort_ops sorted ops) ≡ true
unfolding all_fit sort_ops
sort_ops-fit [] sorted h q = q
sort_ops-fit (op ∷ ops) sorted h q =
    let here : (ltb op.addr (2 ^ 32) && ltb op.step (2 ^ 32)) ≡ true = ground arith in
    let later : all_fit ops ≡ true = ground arith in
    sort_ops-fit ops (insert_op op sorted) later (insert_op-fit op sorted here q)

append-fit :
    (ops : List Op) (op : Op)
    → all_fit ops ≡ true
    → (ltb op.addr (2 ^ 32) && ltb op.step (2 ^ 32)) ≡ true
    → all_fit (ops ++ (op ∷ [])) ≡ true
unfolding all_fit
append-fit [] op h q = rw q refl
append-fit (x ∷ xs) op h q =
    let later : all_fit xs ≡ true = ground arith in
    let rest = append-fit xs op later q in ground (arith, rest)

-- Recorded operations have u32 addresses and steps.
add_operation-fit :
    (ops ops' : List Op) (selector : Option ℕ) (op_id addr step value : ℕ)
    → all_fit ops ≡ true
    → add_operation ops selector op_id addr step value ≡ some ops'
    → all_fit ops' ≡ true
unfolding add_operation
add_operation-fit ops ops' none op_id addr step value h e = grind arith
add_operation-fit ops ops' (some idx) op_id addr step value h e =
    elim (Bool-cases (ltb addr (2 ^ 32) && ltb step (2 ^ 32))) [
      | inr c ↦ grind arith
      | inl c ↦
          let op : Op = record {
            addr = addr;
            step = step;
            value = value;
            write = op_id;
            selector_idx = idx;
          } in
          let same : ops ++ (op ∷ []) ≡ ops' = grind arith in rw (sym same) (append-fit ops op h c)
    ]
