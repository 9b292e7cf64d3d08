-- ===== src/Continuations/MerkleTree/Proofs.antt =====
-- Merkle proofs of riscv/src/continuations/memory_merkle_tree.rs, read from the page to the root.
use powdr.Prelude.{
  ℕ, zero, suc, ◌+◌, ◌-◌, ◌*◌, ◌/◌, ◌%◌, ◌^◌, ◌<◌, ◌≡◌, inl, inr, refl, ap, sym, ◌∙◌, arith, ◌==◌,
  if◌then◌else◌, some, List, [], ◌∷◌, map, get_or, Bool-cases, take, bit_xor,
}
use powdr.Prelude.Bits.{bit_xor_step, bit_xor-lt, bit_xor_zero}
use powdr.Continuations.MerkleTree.{
  MerkleTree, Hash, Page, range_rev, hash_cap0, hash_page, get_hash, iter_path, siblings, get,
  root_hash,
}
use powdr.Continuations.MerkleTree.Nodes.{
  IsConsistent, page_at, tree_hash, get_hash-node, half-again,
}
use powdr.Goldilocks.Power.{pow_add}
use native.Mathlib.Nat.{pow-suc, one-le-pow, div-eq_of_lt, div-lt_iff_lt-mul}

xor_one : (i : ℕ) → bit_xor i 1 ≡ (if i % 2 == 0 then i + 1 else i - 1)
xor_one i = ground (arith, bit_xor_step i 1, bit_xor_zero (i / 2))

quotient_fits : (p a b : ℕ) → p < a * b → p / a < b
quotient_fits p zero b h = absurd (omega arith)
quotient_fits p (suc a) b h =
    (div-lt_iff_lt-mul {k = suc a} {x = p} {y = b} (omega arith)).1 (omega arith)

module _ (permutation : List ℕ → Hash) where
  -- The hash that a verifier computes from a node's hash and the siblings on its way up.
  unfoldable pub climb : ℕ → Hash → List Hash → Hash
  climb index hash [] = hash
  climb index hash (sibling ∷ proof) =
      climb (index / 2)
        (if index % 2 == 0
          then hash_cap0 permutation hash sibling
          else hash_cap0 permutation sibling hash)
        proof

  module _ (depth words_per_page : ℕ) where
    -- A node with its sibling makes the parent.
    parent-hash :
        (pages : ℕ → Page) (k i : ℕ)
        → (if i % 2 == 0
            then hash_cap0 permutation
                (tree_hash permutation pages k i)
                (tree_hash permutation pages k (bit_xor i 1))
            else hash_cap0 permutation
                (tree_hash permutation pages k (bit_xor i 1))
                (tree_hash permutation pages k i))
          ≡ tree_hash permutation pages (suc k) (i / 2)
    unfolding tree_hash
    parent-hash pages k i = elim (Bool-cases (i % 2 == 0)) [
      | inl e ↦
          let left : i / 2 * 2 ≡ i = ground arith in
          let right : bit_xor i 1 ≡ i / 2 * 2 + 1 = ground (arith, xor_one i) in
          rw (e, right, left) refl
      | inr e ↦
          let left : bit_xor i 1 ≡ i / 2 * 2 = ground (arith, xor_one i) in
          let right : i / 2 * 2 + 1 ≡ i = ground arith in rw (e, left, right) refl
    ]

    cons-siblings :
        (t : MerkleTree) (level i : ℕ) (path : List (ℕ × ℕ)) (sibling : Hash) (proof : List Hash)
        → get_hash permutation depth words_per_page t level (bit_xor i 1) ≡ some sibling
        → siblings permutation depth words_per_page t path ≡ some proof
        → siblings permutation depth words_per_page t ((level, i) ∷ path) ≡ some (sibling ∷ proof)
    unfolding siblings
    cons-siblings t level i path sibling proof e h = rw (e, h) refl

    get-some :
        (t : MerkleTree) (p : ℕ) (proof : List Hash) (hash : Hash)
        → siblings permutation depth words_per_page t
            (take depth (iter_path permutation depth words_per_page p))
          ≡ some proof
        → get_hash permutation depth words_per_page t depth p ≡ some hash
        → get permutation depth words_per_page t p
          ≡ some (get_or (t.pages p) t.zero_page, hash, proof)
    unfolding get
    get-some t p proof hash e h = rw (e, h) refl

    path-climb :
        (t : MerkleTree) (p level k : ℕ)
        → IsConsistent permutation depth words_per_page t
        → level + k ≡ depth
        → p < 2 ^ depth
        → (proof : List Hash) × (siblings permutation depth words_per_page t
              (take level (map (λ l. (l, p / 2 ^ (suc depth - l - 1))) (range_rev (suc level))))
            ≡ some proof)
          × (climb
                (p / 2 ^ k)
                (tree_hash permutation (page_at words_per_page t) k (p / 2 ^ k))
                proof
              ≡ tree_hash permutation (page_at words_per_page t) depth 0)
    unfolding siblings climb range_rev
    path-climb t p zero k c height fits =
        let all : k ≡ depth = omega arith in
        let top : p / 2 ^ depth ≡ 0 = div-eq_of_lt fits in ([], refl, rw (all, top) refl)
    path-climb t p (suc level) k c height fits =
        let pages = page_at words_per_page t in
        let exponent : suc depth - suc level - 1 ≡ k = omega arith in
        let total : 2 ^ k * 2 ^ suc level ≡ 2 ^ depth =
          sym (pow_add 2 k (suc level)) ∙ ap (λ (e : ℕ). 2 ^ e) (omega arith) in
        let i_fits : p / 2 ^ k < 2 ^ suc level =
          quotient_fits p (2 ^ k) (2 ^ suc level) (rw total fits) in
        let one_fits : 1 < 2 ^ suc level =
          omega (arith, pow-suc 2 level, one-le-pow level 2 (omega arith)) in
        let s = bit_xor (p / 2 ^ k) 1 in
        let read : get_hash permutation depth words_per_page t (suc level) s
            ≡ some (tree_hash permutation pages k s) =
          get_hash-node permutation depth words_per_page t (suc level) s (omega arith)
            (bit_xor-lt (suc level) (p / 2 ^ k) 1 i_fits one_fits)
          ∙ ap some (c.nodes (suc level) k s height) in
        let (proof, e, top) = path-climb t p level (suc k) c (omega arith) fits in
        (
          tree_hash permutation pages k s ∷ proof,
          cons-siblings t (suc level) (p / 2 ^ (suc depth - suc level - 1)) _ _ proof
              (rw exponent read) e,
          rw (parent-hash pages k (p / 2 ^ k), ← half-again p k) top,
        )

    -- From a tree whose every node holds the hash of its subtree, `get` on a page that the tree
    -- has succeeds and returns the page's contents, the hash of these contents and a proof with
    -- which the hash, combined with the siblings from the page up, gives the root hash.
    pub get-climb :
        (t : MerkleTree) (page_index : ℕ)
        → IsConsistent permutation depth words_per_page t
        → page_index < 2 ^ depth
        → (page : Page) × (hash : Hash) × (proof : List Hash) × (get permutation depth
              words_per_page t page_index
            ≡ some (page, hash, proof))
          × (page ≡ page_at words_per_page t page_index)
          × (hash ≡ hash_page permutation page)
          × (root_hash permutation depth words_per_page t ≡ some (climb page_index hash proof))
    unfolding get root_hash iter_path tree_hash
    get-climb t p c fits =
        let pages = page_at words_per_page t in
        let (proof, e, top) = path-climb t p depth 0 c (omega arith) fits in
        let whole : p / 2 ^ 0 ≡ p = omega arith in
        let leaf =
          get_hash-node permutation depth words_per_page t depth p (omega arith) fits
          ∙ ap some (c.nodes depth 0 p (omega arith)) in
        let root =
          get_hash-node permutation depth words_per_page t 0 0 (omega arith) (omega arith)
          ∙ ap some (c.nodes 0 depth 0 (omega arith)) in
        (
          pages p,
          hash_page permutation (pages p),
          proof,
          get-some t p proof _ e leaf ∙ rw c.zeroed refl,
          refl,
          refl,
          rw root (ap some (sym (rw whole at top))),
        )
