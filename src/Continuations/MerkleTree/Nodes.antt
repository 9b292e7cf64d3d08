-- ===== src/Continuations/MerkleTree/Nodes.antt =====
-- What the nodes of riscv/src/continuations/memory_merkle_tree.rs should hold: the hash of the
-- subtree below, over the pages there are.
use powdr.Prelude.{
  ℕ, zero, suc, ◌+◌, ◌-◌, ◌*◌, ◌/◌, ◌^◌, ◌≤◌, ◌<◌, ◌≡◌, inl, inr, refl, ap, sym, ◌∙◌, arith, Bool,
  true, false, ltb, ◌==◌, if◌then◌else◌, ◌&&◌, some, List, get_or, length, Bool-cases, lt→ltb,
}
use powdr.Continuations.MerkleTree.{
  MerkleTree, Hash, Page, zeros, hash_cap0, hash_page, default_at_height, new, get_hash,
  insert_hash,
}
use native.Mathlib.Nat.{pow-suc, div-div-eq-div-mul}

abbrev pub node : MerkleTree → ℕ → ℕ → Hash
node t level index = get_or (t.hashes level index) (t.default_hashes level)

pub half-again : (p k : ℕ) → p / 2 ^ suc k ≡ p / 2 ^ k / 2
half-again p k = ap (λ (t : ℕ). p / t) (pow-suc 2 k) ∙ sym (div-div-eq-div-mul p (2 ^ k) 2)

-- A write of a node, read back at any key.
pub insert_hash-node :
    (t : MerkleTree) (level index l i : ℕ) (h : Hash)
    → node (record t { hashes = insert_hash t.hashes level index h }) l i
      ≡ (if l == level && i == index then h else node t l i)
unfolding insert_hash
insert_hash-node t level index l i h = elim (Bool-cases (l == level && i == index)) [
  | inl e ↦ rw e refl
  | inr e ↦ rw e refl
]

untouched-below :
    (touched : ℕ → ℕ → Bool)
    → ((k i : ℕ) → touched k i ≡ true → touched (suc k) (i / 2) ≡ true)
    → (k i : ℕ) → touched (suc k) (i / 2) ≡ false
    → touched k i ≡ false
untouched-below touched climbs k i h = elim (Bool-cases (touched k i)) [
  | inl e ↦ absurd (grind (arith, climbs k i e))
  | inr e ↦ e
]

length-zeros : (n : ℕ) → length (zeros n) ≡ n
unfolding zeros
length-zeros zero = refl
length-zeros (suc n) = ap suc (length-zeros n)

-- The contents of a page: one that is not there is zeroed.
abbrev pub page_at : ℕ → MerkleTree → ℕ → Page
page_at words_per_page t i = get_or (t.pages i) (zeros words_per_page)

module _ (permutation : List ℕ → Hash) where
  -- The hash of the subtree of height k with the given index, over the pages.
  unfoldable pub tree_hash : (ℕ → Page) → ℕ → ℕ → Hash
  tree_hash page_at zero i = hash_page permutation (page_at i)
  tree_hash page_at (suc k) i =
      hash_cap0 permutation (tree_hash page_at k (i * 2)) (tree_hash page_at k (i * 2 + 1))

  -- Pages that agree off a set give the same hash to every subtree without a page of the set; the
  -- set of a height contains the halves of the set below.
  pub tree_hash-elsewhere :
      (pages other : ℕ → Page) (touched : ℕ → ℕ → Bool)
      → ((k i : ℕ) → touched k i ≡ true → touched (suc k) (i / 2) ≡ true)
      → ((j : ℕ) → touched 0 j ≡ false → pages j ≡ other j)
      → (k i : ℕ) → touched k i ≡ false
      → tree_hash pages k i ≡ tree_hash other k i
  unfolding tree_hash
  tree_hash-elsewhere pages other touched climbs same zero i apart =
      ap (hash_page permutation) (same i apart)
  tree_hash-elsewhere pages other touched climbs same (suc k) i apart =
      let halves : i * 2 / 2 ≡ i = omega arith in
      let halves' : (i * 2 + 1) / 2 ≡ i = omega arith in
      let left =
        tree_hash-elsewhere pages other touched climbs same k (i * 2)
          (untouched-below touched climbs k (i * 2) (rw halves apart)) in
      let right =
        tree_hash-elsewhere pages other touched climbs same k (i * 2 + 1)
          (untouched-below touched climbs k (i * 2 + 1) (rw halves' apart)) in
      rw (left, right) refl

  default-tree_hash :
      (page : Page) (k i : ℕ) → default_at_height permutation page k ≡ tree_hash (λ _. page) k i
  unfolding tree_hash default_at_height
  default-tree_hash page zero i = refl
  default-tree_hash page (suc k) i =
      rw (← default-tree_hash page k (i * 2), ← default-tree_hash page k (i * 2 + 1)) refl

  module _ (depth words_per_page : ℕ) where
    -- Every node holds the hash of its subtree; a page that is not there is zeroed.
    pub record IsConsistent (t : MerkleTree) : Type 0 where
      pub nodes :
          (level k i : ℕ)
          → level + k ≡ depth
          → node t level i ≡ tree_hash (page_at words_per_page t) k i
      pub sized : (i : ℕ) → length (page_at words_per_page t i) ≡ words_per_page
      pub zeroed : t.zero_page ≡ zeros words_per_page

    -- The tree over an all-zero memory is consistent.
    pub new-IsConsistent : IsConsistent (new permutation depth words_per_page)
    unfolding new
    new-IsConsistent = record {
      nodes = λ level k i h.
          let height : suc depth - 1 - level ≡ k = omega arith in
          rw height (default-tree_hash (zeros words_per_page) k i);
      sized = λ i. length-zeros words_per_page;
      zeroed = refl;
    }

    -- A read of a node within the bounds.
    pub get_hash-node :
        (t : MerkleTree) (level i : ℕ)
        → level ≤ depth
        → i < 2 ^ level
        → get_hash permutation depth words_per_page t level i ≡ some (node t level i)
    unfolding get_hash
    get_hash-node t level i le h =
        let in_tree : ltb level (suc depth) ≡ true = lt→ltb level (suc depth) (omega arith) in
        rw (in_tree, lt→ltb i (2 ^ level) h) refl
