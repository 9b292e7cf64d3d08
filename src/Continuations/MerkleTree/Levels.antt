-- ===== src/Continuations/MerkleTree/Levels.antt =====
-- The loops of riscv/src/continuations/memory_merkle_tree.rs that recompute the inner nodes.
use powdr.Prelude.{
  ℕ, zero, suc, ◌/◌, ◌^◌, ◌≡◌, inl, inr, refl, arith, Bool, true, false, ltb, ◌==◌, ◌&&◌, ◌||◌,
  List, [], ◌∷◌, map, Bool-cases,
}
use powdr.Continuations.MerkleTree.{dedup, dedup_after, level_up}
use native.Mathlib.Nat.{pow-suc}

unfoldable pub occurs : ℕ → List ℕ → Bool
occurs x [] = false
occurs x (y ∷ ys) = x == y || occurs x ys

-- Every element is below the bound.
unfoldable pub all_below : ℕ → List ℕ → Bool
all_below n [] = true
all_below n (x ∷ xs) = ltb x n && all_below n xs

-- The ancestors of a list of indices, some levels up.
unfoldable pub lift : ℕ → List ℕ → List ℕ
lift zero indices = indices
lift (suc d) indices = lift d (level_up indices)

occurs-dedup_after :
    (x kept : ℕ) (xs : List ℕ)
    → (x == kept || occurs x xs) ≡ true
    → (x == kept || occurs x (dedup_after kept xs)) ≡ true
unfolding occurs dedup_after
occurs-dedup_after x kept [] h = h
occurs-dedup_after x kept (y ∷ ys) h =
    let same = occurs-dedup_after x kept ys in
    let other = occurs-dedup_after x y ys in
    elim (Bool-cases (y == kept)) [
      | inl e ↦ rw e (same (drop_repeat x kept y (occurs x ys) e h))
      | inr e ↦ rw e (keep_other x kept y (occurs x ys) (occurs x (dedup_after y ys)) h other)
    ]
  where
    drop_repeat :
        (x kept y : ℕ) (rest : Bool)
        → (y == kept) ≡ true
        → (x == kept || (x == y || rest)) ≡ true
        → (x == kept || rest) ≡ true
    drop_repeat x kept y rest e h = ground arith

    keep_other :
        (x kept y : ℕ) (rest after : Bool)
        → (x == kept || (x == y || rest)) ≡ true
        → ((x == y || rest) ≡ true → (x == y || after) ≡ true)
        → (x == kept || (x == y || after)) ≡ true
    keep_other x kept y rest after h other = ground arith

occurs-dedup : (x : ℕ) (xs : List ℕ) → occurs x xs ≡ true → occurs x (dedup xs) ≡ true
unfolding dedup occurs
occurs-dedup x [] h = h
occurs-dedup x (y ∷ ys) h = occurs-dedup_after x y ys h

occurs-halves :
    (x : ℕ) (xs : List ℕ) → occurs x xs ≡ true → occurs (x / 2) (map (λ i. i / 2) xs) ≡ true
unfolding occurs
occurs-halves x [] h = h
occurs-halves x (y ∷ ys) h = let later = occurs-halves x ys in ground (arith, later)

-- The parent of an index of a level is in the level above.
pub occurs-level_up :
    (x : ℕ) (xs : List ℕ) → occurs x xs ≡ true → occurs (x / 2) (level_up xs) ≡ true
unfolding level_up
occurs-level_up x xs h = occurs-dedup (x / 2) (map (λ i. i / 2) xs) (occurs-halves x xs h)

below-dedup_after :
    (n kept : ℕ) (xs : List ℕ) → all_below n xs ≡ true → all_below n (dedup_after kept xs) ≡ true
unfolding all_below dedup_after
below-dedup_after n kept [] h = h
below-dedup_after n kept (y ∷ ys) h =
    let same = below-dedup_after n kept ys in
    let other = below-dedup_after n y ys in
    elim (Bool-cases (y == kept)) [
      | inl e ↦ rw e (ground (arith, same))
      | inr e ↦ rw e (ground (arith, other))
    ]

below-halves :
    (n : ℕ) (xs : List ℕ)
    → all_below (2 ^ suc n) xs ≡ true
    → all_below (2 ^ n) (map (λ i. i / 2) xs) ≡ true
unfolding all_below
below-halves n [] h = h
below-halves n (y ∷ ys) h =
    let later = below-halves n ys in let twice = pow-suc 2 n in ground (arith, later, twice)

pub below-level_up :
    (n : ℕ) (xs : List ℕ) → all_below (2 ^ suc n) xs ≡ true → all_below (2 ^ n) (level_up xs) ≡ true
unfolding level_up dedup all_below
below-level_up n [] h = refl
below-level_up n (y ∷ ys) h =
    let halves = below-halves n (y ∷ ys) h in
    let later = below-dedup_after (2 ^ n) (y / 2) (map (λ i. i / 2) ys) in
    ground (arith, halves, later)
