-- ===== src/Continuations/MerkleTree/Batch.antt =====
-- `update` of riscv/src/continuations/memory_merkle_tree.rs: a batch of word updates at addresses.
use powdr.Prelude.{
  ℕ, ◌-◌, ◌*◌, ◌/◌, ◌%◌, ◌^◌, ◌<◌, ◌≡◌, inl, inr, refl, ap, ◌∙◌, arith, Bool, true, ltb, ◌==◌,
  if◌then◌else◌, ◌&&◌, Option, some, List, [], ◌∷◌, ◌++◌, map, Bool-cases, lt→ltb,
}
use powdr.Goldilocks.{from_u64}
use powdr.Continuations.MerkleTree.{
  MerkleTree, Hash, bytes_per_word, push_update, organize_loop, organize_updates_by_page,
  update_tree,
}
use powdr.Continuations.MerkleTree.Nodes.{IsConsistent}
use powdr.Continuations.MerkleTree.Levels.{all_below}
use powdr.Continuations.MerkleTree.Words.{
  ascending, push_update-ascending, push_update-last, last_in_pages,
}
use powdr.Continuations.MerkleTree.Pages.{all_within, all_entries_within, update_leaves-lem, word}
use powdr.Continuations.MerkleTree.Updates.{consistent-LeavesRight, restore}
use native.Mathlib.Nat.{mod-lt, mod-add-div'}

module _ (permutation : List ℕ → Hash) (depth words_per_page : ℕ) where
  -- Word-aligned addresses of pages that the tree has.
  unfoldable pub all_in_tree : List (ℕ × ℕ) → Bool
  all_in_tree [] = true
  all_in_tree ((addr, value) ∷ updates) =
      (addr % bytes_per_word == 0 && ltb (addr / bytes_per_word / words_per_page) (2 ^ depth))
      && all_in_tree updates

  all_within-append :
      (n index value : ℕ) (updates : List (ℕ × ℕ))
      → index < n
      → all_within n updates ≡ true
      → all_within n (updates ++ ((index, value) ∷ [])) ≡ true
  unfolding all_within
  all_within-append n index value [] h q = rw (lt→ltb index n h) refl
  all_within-append n index value ((i, v) ∷ updates) h q =
      let rest = all_within-append n index value updates h in ground (arith, rest)

  -- The keys and the indices of an organized batch.
  abbrev Organized : List (ℕ × List (ℕ × ℕ)) → Type 0
  Organized by_page =
      (all_below (2 ^ depth) (map (λ entry. entry.0) by_page) ≡ true)
      × (all_entries_within permutation depth words_per_page by_page ≡ true)

  push_update-Organized :
      (page index value : ℕ) (by_page : List (ℕ × List (ℕ × ℕ)))
      → page < 2 ^ depth
      → index < words_per_page
      → Organized by_page
      → Organized (push_update page (index, value) by_page)
  unfolding push_update all_below all_entries_within all_within
  push_update-Organized page index value [] h q o =
      (rw (lt→ltb page (2 ^ depth) h) refl, rw (lt→ltb index words_per_page q) refl)
  push_update-Organized page index value ((key, updates) ∷ rest) h q (below, within) =
      let page_fits = lt→ltb page (2 ^ depth) h in
      let index_fits = lt→ltb index words_per_page q in
      let below_rest : all_below (2 ^ depth) (map (λ entry. entry.0) rest) ≡ true = ground arith in
      let within_rest : all_entries_within permutation depth words_per_page rest ≡ true =
        ground arith in
      let within_key : all_within words_per_page updates ≡ true = ground arith in
      let (below', within') =
        push_update-Organized page index value rest h q (below_rest, within_rest) in
      let more = all_within-append words_per_page index value updates q within_key in
      elim (Bool-cases (page == key)) [
        | inl e ↦ (rw e (ground arith), rw e (ground arith))
        | inr e ↦ elim (Bool-cases (ltb page key)) [
          | inl g ↦ (rw (e, g) (ground arith), rw (e, g) (ground arith))
          | inr g ↦ (rw (e, g) (ground arith), rw (e, g) (ground arith))
        ]
      ]

  -- The last update of an address, or what was there before.
  unfoldable pub last_update : List (ℕ × ℕ) → ℕ → ℕ → Option ℕ → Option ℕ
  last_update [] q j old = old
  last_update ((addr, value) ∷ updates) q j old =
      let word_index = addr / bytes_per_word in
      last_update updates q j (
        if q == word_index / words_per_page && j == word_index % words_per_page
        then some (from_u64 value)
        else old)

  within-page :
      (w : ℕ) → 0 < words_per_page → w - w / words_per_page * words_per_page ≡ w % words_per_page
  within-page w h = omega (arith, mod-add-div' w words_per_page)

  organize_loop-lem :
      (updates : List (ℕ × ℕ)) (by_page : List (ℕ × List (ℕ × ℕ)))
      → 0 < words_per_page
      → all_in_tree updates ≡ true
      → Organized by_page
      → ascending 0 by_page ≡ true
      → (organized : List (ℕ × List (ℕ × ℕ))) × (organize_loop words_per_page by_page updates
          ≡ some organized)
        × Organized organized
        × ((q j : ℕ) (old : Option ℕ)
            → last_in_pages organized q j old
              ≡ last_update updates q j (last_in_pages by_page q j old))
  unfolding organize_loop all_in_tree last_update
  organize_loop-lem [] by_page positive valid o sorted = (by_page, refl, o, λ q j old. refl)
  organize_loop-lem ((addr, value) ∷ updates) by_page positive valid o sorted =
      let word_index = addr / bytes_per_word in
      let page = word_index / words_per_page in
      let index = word_index - page * words_per_page in
      let aligned : (addr % bytes_per_word == 0) ≡ true = ground arith in
      let page_fits : page < 2 ^ depth = ground arith in
      let later : all_in_tree updates ≡ true = ground arith in
      let same : index ≡ word_index % words_per_page = within-page word_index positive in
      let index_fits : index < words_per_page = rw same (mod-lt word_index positive) in
      let (organized, e, o', words) =
        organize_loop-lem updates (push_update page (index, value) by_page) positive later
          (push_update-Organized page index value by_page page_fits index_fits o)
          (push_update-ascending page (index, value) by_page 0 (omega arith) sorted) in
      (
        organized,
        rw aligned e,
        o',
        λ q j old.
            words q j old
            ∙ ap (last_update updates q j) (
                push_update-last page index value q j by_page 0 old sorted
                ∙ ap
                    (λ n.
                      if q == page && j == n
                      then some (from_u64 value)
                      else last_in_pages by_page q j old)
                    same),
      )

  -- From a tree whose every node holds the hash of its subtree, and a batch of updates at word-
  -- aligned addresses of pages that the tree has, `update` succeeds, every node of the result
  -- again holds the hash of its subtree over the new pages, and each word of each page is the last
  -- value that the batch writes to it, or what it was.
  pub update_tree-IsConsistent :
      (t : MerkleTree) (updates : List (ℕ × ℕ))
      → IsConsistent permutation depth words_per_page t
      → 0 < words_per_page
      → all_in_tree updates ≡ true
      → (t' : MerkleTree) × (update_tree permutation depth words_per_page t updates ≡ some t')
        × IsConsistent permutation depth words_per_page t'
        × ((q j : ℕ)
            → word permutation depth words_per_page t' q j
              ≡ last_update updates q j (word permutation depth words_per_page t q j))
  unfolding update_tree organize_updates_by_page all_below all_entries_within ascending
      last_in_pages
  update_tree-IsConsistent t updates c positive valid =
      let (by_page, eo, (below, within), last) =
        organize_loop-lem updates [] positive valid (refl, refl) refl in
      let (u, eu, right, differs, words) =
        update_leaves-lem permutation depth words_per_page by_page t
          (consistent-LeavesRight permutation depth words_per_page t c) within in
      let (v, ev, cv, same) =
        restore permutation depth words_per_page t u (map (λ entry. entry.0) by_page) c right
          differs below in
      (
        v,
        rw (eo, eu) ev,
        cv,
        λ q j. rw same (words q j ∙ last q j (word permutation depth words_per_page t q j)),
      )
