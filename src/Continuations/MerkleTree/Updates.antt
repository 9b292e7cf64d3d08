-- ===== src/Continuations/MerkleTree/Updates.antt =====
-- `update_page` of riscv/src/continuations/memory_merkle_tree.rs, and how the loop over the levels
-- continues from rewritten leaves.
use powdr.Prelude.{
  if◌then◌else◌, Bool-cases, inl, inr, ℕ, zero, suc, ◌+◌, ◌-◌, ◌/◌, ◌^◌, ◌≤◌, ◌<◌, ◌≡◌, refl, ap,
  sym, ◌∙◌, arith, true, false, ◌==◌, ◌||◌, Option, none, some, List, [], ◌∷◌, map, get_or, lt→ltb,
  length,
}
use powdr.Continuations.MerkleTree.{
  MerkleTree, Hash, Page, ◌>>=◌, zeros, level_up, dedup, dedup_after, range_rev, hash_page,
  write_words, iter_path, update_inner_hash, update_inner_hashes, update_hashes, update_page,
  update_levels,
}
use powdr.Continuations.MerkleTree.Nodes.{
  node, page_at, tree_hash, tree_hash-elsewhere, IsConsistent, half-again,
}
use powdr.Continuations.MerkleTree.Levels.{occurs, all_below, lift, occurs-level_up}
use powdr.Continuations.MerkleTree.Inner.{Right, update_levels-lem}
use powdr.Continuations.MerkleTree.Pages.{LeavesRight, Differs, all_within, page_step}

lift-suc : (k : ℕ) (xs : List ℕ) → lift (suc k) xs ≡ level_up (lift k xs)
unfolding lift
lift-suc zero xs = refl
lift-suc (suc k) xs = lift-suc k (level_up xs)

lift-climbs :
    (keys : List ℕ) (k i : ℕ)
    → occurs i (lift k keys) ≡ true
    → occurs (i / 2) (lift (suc k) keys) ≡ true
lift-climbs keys k i h = rw (lift-suc k keys) (occurs-level_up i (lift k keys) h)

module _ (permutation : List ℕ → Hash) (depth words_per_page : ℕ) where
  pub consistent-LeavesRight :
      (t : MerkleTree)
      → IsConsistent permutation depth words_per_page t
      → LeavesRight permutation depth words_per_page t
  unfolding tree_hash
  consistent-LeavesRight t c = record {
    sized = c.sized;
    leaves = λ i. c.nodes depth 0 i (omega arith);
  }

  all-IsConsistent :
      (u v : MerkleTree)
      → v.pages ≡ u.pages
      → ((i : ℕ) → length (page_at words_per_page u i) ≡ words_per_page)
      → v.zero_page ≡ zeros words_per_page
      → ((l i : ℕ) → Right permutation depth words_per_page (page_at words_per_page u) v l i)
      → IsConsistent permutation depth words_per_page v
  all-IsConsistent u v same sized zeroed all = record {
    nodes = λ level k i height.
        all level i k height
        ∙ ap
            (λ (pages : ℕ → Option Page).
              tree_hash permutation (λ j. get_or (pages j) (zeros words_per_page)) k i)
            (sym same);
    sized = λ i. rw same (sized i);
    zeroed = zeroed;
  }

  -- Once the leaves are right, the loop over the levels restores the whole tree.
  pub restore :
      (t u : MerkleTree) (keys : List ℕ)
      → IsConsistent permutation depth words_per_page t
      → LeavesRight permutation depth words_per_page u
      → Differs permutation depth words_per_page t u keys
      → all_below (2 ^ depth) keys ≡ true
      → (v : MerkleTree) × (update_levels permutation depth words_per_page u keys (range_rev depth)
          ≡ some v)
        × IsConsistent permutation depth words_per_page v
        × (v.pages ≡ u.pages)
  unfolding tree_hash lift
  restore t u keys c right differs fits =
      let contents = page_at words_per_page u in
      let leaf : (i : ℕ) → node u depth i ≡ hash_page permutation (contents i) = right.leaves in
      let done : (l i : ℕ) → depth ≤ l → Right permutation depth words_per_page contents u l i =
        λ l i h k height.
          let bottom : k ≡ 0 = omega arith in
          let at : l ≡ depth = omega arith in rw (bottom, at) (leaf i) in
      let rest : (l d i : ℕ)
          → l + d ≡ depth
          → occurs i (lift d keys) ≡ false
          → Right permutation depth words_per_page contents u l i =
        λ l d i height apart k height'.
          let same : d ≡ k = omega arith in untouched l k i height' (rw same at apart) in
      let (v, e, advances, all) =
        update_levels-lem permutation depth words_per_page contents depth keys u (omega arith) fits
          done rest in
      let consistent =
        all-IsConsistent u v advances.same_pages right.sized
          (advances.same_zero ∙ differs.same_zero ∙ c.zeroed) all in
      (v, e, consistent, advances.same_pages)
    where
      untouched :
          (l k i : ℕ)
          → l + k ≡ depth
          → occurs i (lift k keys) ≡ false
          → node u l i ≡ tree_hash permutation (page_at words_per_page u) k i
      untouched l zero i height apart = let at : l ≡ depth = omega arith in rw at (right.leaves i)
      untouched l (suc k) i height apart =
          differs.inner l i (omega arith)
          ∙ c.nodes l (suc k) i height
          ∙ tree_hash-elsewhere permutation (page_at words_per_page t) (page_at words_per_page u)
              (λ k i. occurs i (lift k keys)) (lift-climbs keys)
              (λ j h. sym (differs.elsewhere j h)) (suc k) i apart

  -- A path is recomputed as the levels above one page.
  path-update_levels :
      (level p : ℕ) (t : MerkleTree)
      → level ≤ depth
      → update_inner_hashes permutation depth words_per_page t
          (map (λ l. (l, p / 2 ^ (suc depth - l - 1))) (range_rev level))
        ≡ update_levels permutation depth words_per_page t
            (p / 2 ^ (depth - level) ∷ [])
            (range_rev level)
  unfolding update_inner_hashes update_levels range_rev level_up dedup dedup_after
  path-update_levels zero p t le = refl
  path-update_levels (suc level) p t le =
      let lower : suc depth - level - 1 ≡ suc (depth - suc level) = omega arith in
      let lower' : depth - level ≡ suc (depth - suc level) = omega arith in
      let index : p / 2 ^ (suc depth - level - 1) ≡ p / 2 ^ (depth - suc level) / 2 =
        rw lower (half-again p (depth - suc level)) in
      let again : p / 2 ^ (depth - level) ≡ p / 2 ^ (depth - suc level) / 2 =
        rw lower' (half-again p (depth - suc level)) in
      rw index (
        step
          (update_inner_hash permutation depth words_per_page t level
            (p / 2 ^ (depth - suc level) / 2))
          (λ t'. rw (← again) (path-update_levels level p t' (omega arith))))
    where
      step :
          {f g : MerkleTree → Option MerkleTree} (m : Option MerkleTree)
          → ((t' : MerkleTree) → f t' ≡ g t')
          → (m >>= f) ≡ ((m >>= some) >>= g)
      step none h = refl
      step (some t') h = h t'

  -- From a tree whose every node holds the hash of its subtree, `update_page` on a page that the
  -- tree has, with word indices within a page, succeeds; the result has that property again, the
  -- page has the written words, and the other pages are as they were.
  pub update_page-IsConsistent :
      (t : MerkleTree) (page_index : ℕ) (updates : List (ℕ × ℕ))
      → IsConsistent permutation depth words_per_page t
      → page_index < 2 ^ depth
      → all_within words_per_page updates ≡ true
      → (t' : MerkleTree) × (update_page permutation depth words_per_page t page_index updates
          ≡ some t')
        × IsConsistent permutation depth words_per_page t'
        × (write_words (page_at words_per_page t page_index) updates
            ≡ some (page_at words_per_page t' page_index))
        × ((j : ℕ)
            → page_at words_per_page t' j ≡ (
                if j == page_index
                then page_at words_per_page t' page_index
                else page_at words_per_page t j))
  unfolding update_page update_hashes iter_path range_rev occurs all_below
  update_page-IsConsistent t p updates c fits within =
      let (w, u, ew, eu, right, differs, contents) =
        page_step permutation depth words_per_page t p updates (consistent-LeavesRight t c)
          within in
      let below : all_below (2 ^ depth) (p ∷ []) ≡ true = rw (lt→ltb p (2 ^ depth) fits) refl in
      let (v, ev, cv, same) = restore t u (p ∷ []) c right differs below in
      let none_up : depth - depth ≡ 0 = omega arith in
      let start : p / 2 ^ (depth - depth) ≡ p = rw none_up (omega arith) in
      let path = path-update_levels depth p u (omega arith) in
      (
        v,
        rw (ew, eu) (path ∙ rw start ev),
        cv,
        rw same contents,
        λ j. rw same (either-page u j differs),
      )
    where
      either-page :
          (u : MerkleTree) (j : ℕ)
          → Differs permutation depth words_per_page t u (p ∷ [])
          → page_at words_per_page u j
            ≡ (if j == p then page_at words_per_page u p else page_at words_per_page t j)
      either-page u j differs = elim (Bool-cases (j == p)) [
        | inl e ↦ let same : j ≡ p = ground arith in rw (e, same) refl
        | inr e ↦
            let off : (j == p || false) ≡ false = ground arith in rw e (differs.elsewhere j off)
      ]
