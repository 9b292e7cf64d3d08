-- ===== src/Continuations/MerkleTree/Inner.antt =====
-- Recomputing the inner nodes of riscv/src/continuations/memory_merkle_tree.rs.
use powdr.Prelude.{
  ℕ, zero, suc, ◌+◌, ◌-◌, ◌*◌, ◌^◌, ◌≤◌, ◌<◌, ◌≡◌, inl, inr, refl, ◌∙◌, arith, true, false, ◌==◌,
  ◌&&◌, ◌||◌, some, List, [], ◌∷◌, map, Bool-cases,
}
use powdr.Continuations.MerkleTree.{
  MerkleTree, Hash, Page, level_up, range_rev, hash_cap0, insert_hash, update_inner_hash,
  update_inner_hashes, update_levels,
}
use powdr.Continuations.MerkleTree.Nodes.{node, tree_hash, insert_hash-node, get_hash-node}
use powdr.Continuations.MerkleTree.Levels.{occurs, all_below, lift, below-level_up}
use native.Mathlib.Nat.{pow-suc}

module _ (permutation : List ℕ → Hash) (depth words_per_page : ℕ) (contents : ℕ → Page) where
  -- The node holds the hash of its subtree over the given pages.
  abbrev pub Right : MerkleTree → ℕ → ℕ → Type 0
  Right t level i =
      (k : ℕ) → level + k ≡ depth → node t level i ≡ tree_hash permutation contents k i

  -- The pages stay, and right nodes stay right.
  pub record Advances (t t' : MerkleTree) : Type 0 where
    pub same_pages : t'.pages ≡ t.pages
    pub same_zero : t'.zero_page ≡ t.zero_page
    pub keeps : (level i : ℕ) → Right t level i → Right t' level i

  pub Advances-refl : (t : MerkleTree) → Advances t t
  Advances-refl t = record { same_pages = refl; same_zero = refl; keeps = λ level i h. h }

  pub Advances-trans : (t u v : MerkleTree) → Advances t u → Advances u v → Advances t v
  Advances-trans t u v a b = record {
    same_pages = b.same_pages ∙ a.same_pages;
    same_zero = b.same_zero ∙ a.same_zero;
    keeps = λ level i h. b.keeps level i (a.keeps level i h);
  }

  -- The write of a right hash.
  write-Advances :
      (t : MerkleTree) (level index k : ℕ) (h : Hash)
      → level + k ≡ depth
      → h ≡ tree_hash permutation contents k index
      → Advances t (record t { hashes = insert_hash t.hashes level index h })
        × Right (record t { hashes = insert_hash t.hashes level index h }) level index
  write-Advances t level index k h height e =
      let t' : MerkleTree = record t { hashes = insert_hash t.hashes level index h } in
      let written : Right t' level index = λ j q.
        let same : j ≡ k = omega arith in
        let here : (level == level && index == index) ≡ true = ground arith in
        rw (insert_hash-node t level index level index h, here, same) e in
      let keeps : (l i : ℕ) → Right t l i → Right t' l i = λ l i right j q.
        elim (Bool-cases (l == level && i == index)) [
          | inl c ↦
              let same_level : l ≡ level = ground arith in
              let same_index : i ≡ index = ground arith in
              let same : j ≡ k = omega arith in
              rw (insert_hash-node t level index l i h, c, same, same_index) e
          | inr c ↦ rw (insert_hash-node t level index l i h, c) (right j q)
        ] in
      (record { same_pages = refl; same_zero = refl; keeps = keeps }, written)

  update_inner_hash-lem :
      (t : MerkleTree) (level k index : ℕ)
      → level + suc k ≡ depth
      → index < 2 ^ level
      → ((i : ℕ) → Right t (suc level) i)
      → (t' : MerkleTree) × (update_inner_hash permutation depth words_per_page t level index
          ≡ some t')
        × Advances t t'
        × Right t' level index
  unfolding update_inner_hash tree_hash
  update_inner_hash-lem t level k index height h below =
      let next : level + 1 ≡ suc level = omega arith in
      let twice = pow-suc 2 level in
      let left =
        get_hash-node permutation depth words_per_page t (level + 1) (index * 2) (omega arith)
          (rw next (omega (arith, twice))) in
      let right =
        get_hash-node permutation depth words_per_page t (level + 1) (index * 2 + 1) (omega arith)
          (rw next (omega (arith, twice))) in
      let new_hash =
        hash_cap0 permutation (node t (level + 1) (index * 2))
          (node t (level + 1) (index * 2 + 1)) in
      let child : suc level + k ≡ depth = omega arith in
      let value : new_hash ≡ tree_hash permutation contents (suc k) index =
        rw (next, below (index * 2) k child, below (index * 2 + 1) k child) refl in
      let (advances, written) = write-Advances t level index (suc k) new_hash height value in
      (
        record t { hashes = insert_hash t.hashes level index new_hash },
        rw (left, right) refl,
        advances,
        written,
      )

  -- The loop over one level.
  update_inner_hashes-lem :
      (indices : List ℕ) (t : MerkleTree) (level k : ℕ)
      → level + suc k ≡ depth
      → all_below (2 ^ level) indices ≡ true
      → ((i : ℕ) → Right t (suc level) i)
      → (t' : MerkleTree) × (update_inner_hashes permutation depth words_per_page t
            (map (λ index. (level, index)) indices)
          ≡ some t')
        × Advances t t'
        × ((i : ℕ) → occurs i indices ≡ true → Right t' level i)
  unfolding update_inner_hashes all_below occurs
  update_inner_hashes-lem [] t level k height fits below =
      (t, refl, Advances-refl t, λ i h. absurd (ground arith))
  update_inner_hashes-lem (x ∷ xs) t level k height fits below =
      let x_fits : x < 2 ^ level = ground arith in
      let rest_fits : all_below (2 ^ level) xs ≡ true = ground arith in
      let (u, eu, au, right) = update_inner_hash-lem t level k x height x_fits below in
      let below_u : (i : ℕ) → Right u (suc level) i = λ i. au.keeps (suc level) i (below i) in
      let (v, ev, av, rest) = update_inner_hashes-lem xs u level k height rest_fits below_u in
      let all : (i : ℕ) → (i == x || occurs i xs) ≡ true → Right v level i = λ i h.
        elim (Bool-cases (occurs i xs)) [
          | inl e ↦ rest i e
          | inr e ↦ let same : i ≡ x = ground arith in rw same (av.keeps level x right)
        ] in
      (v, rw eu ev, Advances-trans t u v au av, all)

  -- The loop over the levels: the levels from `level` on are right, and so is every node above
  -- that is no ancestor of the indices.
  pub update_levels-lem :
      (level : ℕ) (indices : List ℕ) (t : MerkleTree)
      → level ≤ depth
      → all_below (2 ^ level) indices ≡ true
      → ((l i : ℕ) → level ≤ l → Right t l i)
      → ((l d i : ℕ) → l + d ≡ level → occurs i (lift d indices) ≡ false → Right t l i)
      → (t' : MerkleTree) × (update_levels permutation depth words_per_page t indices
            (range_rev level)
          ≡ some t')
        × Advances t t'
        × ((l i : ℕ) → Right t' l i)
  unfolding update_levels range_rev lift
  update_levels-lem zero indices t le fits done rest =
      (t, refl, Advances-refl t, λ l i. done l i (omega arith))
  update_levels-lem (suc level) indices t le fits done rest =
      let up = level_up indices in
      let k = depth - suc level in
      let (u, eu, au, right) =
        update_inner_hashes-lem up t level k (omega arith) (below-level_up level indices fits)
          (λ i. done (suc level) i (omega arith)) in
      let here : (i : ℕ) → Right u level i = λ i. elim (Bool-cases (occurs i up)) [
        | inl e ↦ right i e
        | inr e ↦ au.keeps level i (rest level 1 i (omega arith) e)
      ] in
      let done_u : (l i : ℕ) → level ≤ l → Right u l i = λ l i h. elim (Bool-cases (l == level)) [
        | inl e ↦ let same : l ≡ level = ground arith in rw same (here i)
        | inr e ↦ au.keeps l i (done l i (ground arith))
      ] in
      let rest_u : (l d i : ℕ) → l + d ≡ level → occurs i (lift d up) ≡ false → Right u l i =
        λ l d i h apart. au.keeps l i (rest l (suc d) i (omega arith) apart) in
      let (v, ev, av, all) =
        update_levels-lem level up u (omega arith) (below-level_up level indices fits) done_u
          rest_u in
      (v, rw eu ev, Advances-trans t u v au av, all)
