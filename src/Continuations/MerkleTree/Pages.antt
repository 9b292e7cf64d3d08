-- ===== src/Continuations/MerkleTree/Pages.antt =====
-- Writing pages and their hashes in riscv/src/continuations/memory_merkle_tree.rs.
use powdr.Prelude.{
  ℕ, zero, suc, ◌-◌, ◌<◌, ◌≡◌, inl, inr, refl, ap, ◌∙◌, arith, Bool, true, false, ltb, ◌==◌,
  if◌then◌else◌, ◌&&◌, ◌||◌, Option, some, List, [], ◌∷◌, map, get_or, Bool-cases, length, set,
  get_elem?,
}
use powdr.Goldilocks.{from_u64}
use powdr.Continuations.MerkleTree.{
  MerkleTree, Hash, Page, zeros, insert_hash, insert_page, write_words, hash_page, update_page_impl,
  update_leaf_hash, update_leaves,
}
use powdr.Continuations.MerkleTree.Nodes.{node, page_at, insert_hash-node}
use powdr.Continuations.MerkleTree.Levels.{occurs}
use powdr.Continuations.MerkleTree.Words.{last_in_page, last_in_pages, write_words-get}

-- Every word index of the updates lies in a page of n words.
unfoldable pub all_within : ℕ → List (ℕ × ℕ) → Bool
all_within n [] = true
all_within n ((index, value) ∷ updates) = ltb index n && all_within n updates

length-set : (page : Page) (i v : ℕ) → length (set page i v) ≡ length page
length-set [] i v = refl
length-set (x ∷ xs) zero v = refl
length-set (x ∷ xs) (suc i) v = ap suc (length-set xs i v)

-- Writes inside the page succeed and keep its length.
pub write_words-lem :
    (updates : List (ℕ × ℕ)) (page : Page)
    → all_within (length page) updates ≡ true
    → (page' : Page) × (write_words page updates ≡ some page') × (length page' ≡ length page)
unfolding write_words all_within
write_words-lem [] page h = (page, refl, refl)
write_words-lem ((index, value) ∷ updates) page h =
    let here : ltb index (length page) ≡ true = ground arith in
    let later : all_within (length page) updates ≡ true = ground arith in
    let same = length-set page index (from_u64 value) in
    let (page', e, long) =
      write_words-lem updates (set page index (from_u64 value)) (rw same later) in
    (page', rw (here, e) refl, long ∙ same)

insert_page-get :
    (pages : ℕ → Option Page) (index i : ℕ) (page other : Page)
    → get_or (insert_page pages index page i) other
      ≡ (if i == index then page else get_or (pages i) other)
unfolding insert_page
insert_page-get pages index i page other = elim (Bool-cases (i == index)) [
  | inl e ↦ rw e refl
  | inr e ↦ rw e refl
]

insert_page-here :
    (pages : ℕ → Option Page) (p : ℕ) (page : Page) → insert_page pages p page p ≡ some page
unfolding insert_page
insert_page-here pages p page = let here : (p == p) ≡ true = ground arith in rw here refl

module _ (permutation : List ℕ → Hash) (depth words_per_page : ℕ) where
  -- Every page has its length and every leaf the hash of its page.
  pub record LeavesRight (t : MerkleTree) : Type 0 where
    pub sized : (i : ℕ) → length (page_at words_per_page t i) ≡ words_per_page
    pub leaves : (i : ℕ) → node t depth i ≡ hash_page permutation (page_at words_per_page t i)

  -- Only the pages of the keys, and the leaves, may differ.
  pub record Differs (t t' : MerkleTree) (keys : List ℕ) : Type 0 where
    pub same_zero : t'.zero_page ≡ t.zero_page
    pub inner : (level i : ℕ) → level < depth → node t' level i ≡ node t level i
    pub elsewhere :
        (j : ℕ) → occurs j keys ≡ false → page_at words_per_page t' j ≡ page_at words_per_page t j

  write_leaf-lem :
      (t : MerkleTree) (p : ℕ) (page : Page)
      → LeavesRight t
      → length page ≡ words_per_page
      → (t' : MerkleTree) × (update_leaf_hash permutation depth words_per_page
            (record t { pages = insert_page t.pages p page })
            p
          ≡ some t')
        × LeavesRight t'
        × Differs t t' (p ∷ [])
        × (page_at words_per_page t' p ≡ page)
  unfolding update_leaf_hash occurs
  write_leaf-lem t p page right long =
      let written : MerkleTree = record t { pages = insert_page t.pages p page } in
      let here : (p == p) ≡ true = ground arith in
      let found : insert_page t.pages p page p ≡ some page = insert_page-here t.pages p page in
      let get = insert_page-get t.pages p in
      let t' : MerkleTree = record written {
        hashes = insert_hash t.hashes (suc depth - 1) p (hash_page permutation page);
      } in
      let read = insert_hash-node written (suc depth - 1) p in
      let sized : (i : ℕ) → length (page_at words_per_page t' i) ≡ words_per_page = λ i.
        elim (Bool-cases (i == p)) [
          | inl e ↦ rw (get i page (zeros words_per_page), e) long
          | inr e ↦ rw (get i page (zeros words_per_page), e) (right.sized i)
        ] in
      let leaves : (i : ℕ) → node t' depth i ≡ hash_page permutation (page_at words_per_page t' i) =
        λ i. elim (Bool-cases (i == p)) [
          | inl e ↦
              let hit : (depth == suc depth - 1 && i == p) ≡ true = ground arith in
              rw
                (
                  read depth i (hash_page permutation page),
                  hit,
                  get i page (zeros words_per_page),
                  e,
                )
                refl
          | inr e ↦
              let miss : (depth == suc depth - 1 && i == p) ≡ false = ground arith in
              rw
                (
                  read depth i (hash_page permutation page),
                  miss,
                  get i page (zeros words_per_page),
                  e,
                )
                (right.leaves i)
        ] in
      let inner : (level i : ℕ) → level < depth → node t' level i ≡ node t level i =
        λ level i below.
          let miss : (level == suc depth - 1 && i == p) ≡ false = ground arith in
          rw (read level i (hash_page permutation page), miss) refl in
      let elsewhere : (j : ℕ)
          → (j == p || false) ≡ false
          → page_at words_per_page t' j ≡ page_at words_per_page t j =
        λ j apart.
          let off : (j == p) ≡ false = ground arith in
          rw (get j page (zeros words_per_page), off) refl in
      (
        t',
        rw (found, update_leaf_hash) refl,
        record { sized = sized; leaves = leaves },
        record { same_zero = refl; inner = inner; elsewhere = elsewhere },
        get p page (zeros words_per_page) ∙ rw here refl,
      )

  -- The first loop of `update`, for keys whose updates lie within a page.
  unfoldable pub all_entries_within : List (ℕ × List (ℕ × ℕ)) → Bool
  all_entries_within [] = true
  all_entries_within ((p, updates) ∷ rest) =
      all_within words_per_page updates && all_entries_within rest

  -- One page written and hashed.
  pub page_step :
      (t : MerkleTree) (p : ℕ) (updates : List (ℕ × ℕ))
      → LeavesRight t
      → all_within words_per_page updates ≡ true
      → (u : MerkleTree) × (t' : MerkleTree) × (update_page_impl permutation depth words_per_page t
            p updates
          ≡ some u)
        × (update_leaf_hash permutation depth words_per_page u p ≡ some t')
        × LeavesRight t'
        × Differs t t' (p ∷ [])
        × (write_words (page_at words_per_page t p) updates ≡ some (page_at words_per_page t' p))
  unfolding update_page_impl
  page_step t p updates right within =
      let fits : all_within (length (page_at words_per_page t p)) updates ≡ true =
        rw (right.sized p) within in
      let (page, e, long) = write_words-lem updates (page_at words_per_page t p) fits in
      let (t', e', right', differs, contents) =
        write_leaf-lem t p page right (long ∙ right.sized p) in
      (
        record t { pages = insert_page t.pages p page },
        t',
        rw (e, update_page_impl) refl,
        e',
        right',
        differs,
        rw contents e,
      )

  Differs-refl : (t : MerkleTree) → Differs t t []
  Differs-refl t = record { same_zero = refl; inner = λ level i h. refl; elsewhere = λ j h. refl }

  Differs-cons :
      (t u v : MerkleTree) (p : ℕ) (keys : List ℕ)
      → Differs t u (p ∷ [])
      → Differs u v keys
      → Differs t v (p ∷ keys)
  unfolding occurs
  Differs-cons t u v p keys a b = record {
    same_zero = b.same_zero ∙ a.same_zero;
    inner = λ level i h. b.inner level i h ∙ a.inner level i h;
    elsewhere = λ j apart.
        let first : (j == p || false) ≡ false = ground arith in
        let later : occurs j keys ≡ false = ground arith in
        b.elsewhere j later ∙ a.elsewhere j first;
  }

  -- The word at an index of a page.
  abbrev pub word : MerkleTree → ℕ → ℕ → Option ℕ
  word t q j = get_elem? (page_at words_per_page t q) j

  page_step-word :
      (t t' : MerkleTree) (p q j : ℕ) (updates : List (ℕ × ℕ))
      → Differs t t' (p ∷ [])
      → write_words (page_at words_per_page t p) updates ≡ some (page_at words_per_page t' p)
      → word t' q j ≡ (if q == p then last_in_page updates j (word t q j) else word t q j)
  unfolding occurs
  page_step-word t t' p q j updates differs contents = elim (Bool-cases (q == p)) [
    | inl e ↦
        let same : q ≡ p = ground arith in
        rw (e, same)
          (write_words-get updates (page_at words_per_page t p) (page_at words_per_page t' p) j
            contents)
    | inr e ↦
        let off : (q == p || false) ≡ false = ground arith in rw (e, differs.elsewhere q off) refl
  ]

  pub update_leaves-lem :
      (by_page : List (ℕ × List (ℕ × ℕ))) (t : MerkleTree)
      → LeavesRight t
      → all_entries_within by_page ≡ true
      → (t' : MerkleTree) × (update_leaves permutation depth words_per_page t by_page ≡ some t')
        × LeavesRight t'
        × Differs t t' (map (λ entry. entry.0) by_page)
        × ((q j : ℕ) → word t' q j ≡ last_in_pages by_page q j (word t q j))
  unfolding update_leaves all_entries_within last_in_pages
  update_leaves-lem [] t right within = (t, refl, right, Differs-refl t, λ q j. refl)
  update_leaves-lem ((p, updates) ∷ rest) t right within =
      let here : all_within words_per_page updates ≡ true = ground arith in
      let later : all_entries_within rest ≡ true = ground arith in
      let (w, u, ew, eu, right_u, differs, contents) = page_step t p updates right here in
      let (v, ev, right_v, differs', words) = update_leaves-lem rest u right_u later in
      (
        v,
        rw (ew, eu) ev,
        right_v,
        Differs-cons t u v p (map (λ entry. entry.0) rest) differs differs',
        λ q j.
            words q j
            ∙ ap (last_in_pages rest q j) (page_step-word t u p q j updates differs contents),
      )
