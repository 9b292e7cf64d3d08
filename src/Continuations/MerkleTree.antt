-- ===== src/Continuations/MerkleTree.antt =====
-- riscv/src/continuations/memory_merkle_tree.rs: a Merkle tree over pages of memory, whose nodes
-- are kept in a map and recomputed where pages change.
--
-- The tree has `depth` levels of inner nodes, N_LEVELS - 1 of the source. Arrays are lists. The
-- permutation behind `hash_cap0` is an argument: nothing here depends on which it is. `none` is a
-- failed assertion or an index out of range.
pub mod Nodes
pub mod Levels
pub mod Inner
pub mod Words
pub mod Pages
pub mod Updates
pub mod Batch
pub mod Proofs
use powdr.Prelude.{
  ℕ, zero, suc, ◌+◌, ◌-◌, ◌*◌, ◌/◌, ◌%◌, ◌^◌, Bool, ltb, ◌==◌, if◌then◌else◌, ◌&&◌, Option, none,
  some, List, [], ◌∷◌, ◌++◌, map, get_or, length, set, take, drop, bit_xor,
}
use powdr.Goldilocks.{from_u64}

infixl 5 ◌>>=◌
abbrev pub ◌>>=◌ {ℓ κ} : {A : Type ℓ} {B : Type κ} → Option A → (A → Option B) → Option B
none >>= f = none
some a >>= f = f a

-- [T; 4]
abbrev pub Hash : Type 0
Hash = List ℕ

-- [T; WORDS_PER_PAGE]
abbrev pub Page : Type 0
Page = List ℕ

abbrev pub bytes_per_word : ℕ
bytes_per_word = 4

-- `hashes` is keyed by the level, 0 at the root, and the index in the level.
pub record MerkleTree : Type 0 where
  pub hashes : ℕ → ℕ → Option Hash
  pub pages : ℕ → Option Page
  pub default_hashes : ℕ → Hash
  pub zero_page : Page

-- `[T::zero(); n]`
unfoldable pub zeros : ℕ → List ℕ
zeros zero = []
zeros (suc n) = 0 ∷ zeros n

-- `chunks_exact(4)` leaves out an incomplete chunk.
unfoldable pub chunks_exact : List ℕ → List (List ℕ)
chunks_exact (a ∷ b ∷ c ∷ d ∷ rest) = (a ∷ b ∷ c ∷ d ∷ []) ∷ chunks_exact rest
chunks_exact page = []

-- `(0..n).rev()`
unfoldable pub range_rev : ℕ → List ℕ
range_rev zero = []
range_rev (suc n) = n ∷ range_rev n

-- `Vec::dedup` drops an element equal to the one kept before it.
unfoldable pub dedup_after : ℕ → List ℕ → List ℕ
dedup_after kept [] = []
dedup_after kept (x ∷ xs) =
    let same = dedup_after kept xs in
    let other = dedup_after x xs in if x == kept then same else x ∷ other

unfoldable pub dedup : List ℕ → List ℕ
unfolding dedup_after
dedup [] = []
dedup (x ∷ xs) = x ∷ dedup_after x xs

unfoldable pub level_up : List ℕ → List ℕ
level_up indices = dedup (map (λ i. i / 2) indices)

-- A write of a pair (level, index).
unfoldable pub insert_hash : (ℕ → ℕ → Option Hash) → ℕ → ℕ → Hash → ℕ → ℕ → Option Hash
insert_hash hashes level index h l i = if l == level && i == index then some h else hashes l i

unfoldable pub insert_page : (ℕ → Option Page) → ℕ → Page → ℕ → Option Page
insert_page pages index page i = if i == index then some page else pages i

-- `page[*index] = T::from(*value)` for every pair.
unfoldable pub write_words : Page → List (ℕ × ℕ) → Option Page
write_words page [] = some page
write_words page ((index, value) ∷ updates) =
    let rest = write_words (set page index (from_u64 value)) updates in
    if ltb index (length page) then rest else none

-- A BTreeMap from page indices, in ascending order: `entry(page).or_default().push(update)`.
unfoldable pub push_update : ℕ → ℕ × ℕ → List (ℕ × List (ℕ × ℕ)) → List (ℕ × List (ℕ × ℕ))
push_update page update [] = (page, update ∷ []) ∷ []
push_update page update ((key, updates) ∷ rest) =
    let later = push_update page update rest in
    if page == key
    then (key, updates ++ (update ∷ [])) ∷ rest
    else if ltb page key
    then (page, update ∷ []) ∷ (key, updates) ∷ rest
    else (key, updates) ∷ later

module _ (words_per_page : ℕ) where
  unfoldable pub organize_loop :
      List (ℕ × List (ℕ × ℕ)) → List (ℕ × ℕ) → Option (List (ℕ × List (ℕ × ℕ)))
  organize_loop by_page [] = some by_page
  organize_loop by_page ((addr, value) ∷ updates) =
      let word_index = addr / bytes_per_word in
      let page_index = word_index / words_per_page in
      let index_within_page = word_index - page_index * words_per_page in
      let rest =
        organize_loop (push_update page_index (index_within_page, value) by_page) updates in
      if addr % bytes_per_word == 0 then rest else none

  unfoldable pub organize_updates_by_page : List (ℕ × ℕ) → Option (List (ℕ × List (ℕ × ℕ)))
  organize_updates_by_page updates = organize_loop [] updates

-- poseidon_gl
module _ (permutation : List ℕ → Hash) where
  unfoldable pub hash_cap0 : Hash → Hash → Hash
  hash_cap0 data1 data2 = permutation (data1 ++ data2 ++ zeros 4)

  unfoldable pub hash_chunks : Hash → List (List ℕ) → Hash
  hash_chunks hash [] = hash
  hash_chunks hash (chunk ∷ chunks) = hash_chunks (hash_cap0 hash chunk) chunks

  unfoldable pub hash_page : Page → Hash
  hash_page page = hash_chunks (zeros 4) (chunks_exact page)

  -- `successors` of the hash of the zeroed page.
  unfoldable pub default_at_height : Page → ℕ → Hash
  default_at_height zero_page zero = hash_page zero_page
  default_at_height zero_page (suc k) =
      hash_cap0 (default_at_height zero_page k) (default_at_height zero_page k)

  module _ (depth words_per_page : ℕ) where
    -- The default of a level is that of its height: the successors are reversed.
    unfoldable pub new : MerkleTree
    unfolding default_at_height
    new = record {
      hashes = λ level index. none;
      pages = λ index. none;
      default_hashes = λ level. default_at_height (zeros words_per_page) (suc depth - 1 - level);
      zero_page = zeros words_per_page;
    }

    unfoldable pub get_hash : MerkleTree → ℕ → ℕ → Option Hash
    get_hash t level index =
        if ltb level (suc depth) && ltb index (2 ^ level)
        then some (get_or (t.hashes level index) (t.default_hashes level))
        else none

    unfoldable pub update_page_impl : MerkleTree → ℕ → List (ℕ × ℕ) → Option MerkleTree
    update_page_impl t page_index updates =
        elim (write_words (get_or (t.pages page_index) (zeros words_per_page)) updates) [
          | none ↦ none
          | some page ↦ some (record t { pages = insert_page t.pages page_index page })
        ]

    -- `self.data[&page_index]` panics on a missing page.
    unfoldable pub update_leaf_hash : MerkleTree → ℕ → Option MerkleTree
    update_leaf_hash t page_index = elim (t.pages page_index) [
      | none ↦ none
      | some page ↦
          some
            (record t { hashes = insert_hash t.hashes (suc depth - 1) page_index (hash_page page) })
    ]

    unfoldable pub update_inner_hash : MerkleTree → ℕ → ℕ → Option MerkleTree
    update_inner_hash t level index = do
      left ← get_hash t (level + 1) (index * 2)
      right ← get_hash t (level + 1) (index * 2 + 1)
      some (record t { hashes = insert_hash t.hashes level index (hash_cap0 left right) })

    -- `for &(level, index) in path { self.update_inner_hash(level, index) }`
    unfoldable pub update_inner_hashes : MerkleTree → List (ℕ × ℕ) → Option MerkleTree
    update_inner_hashes t [] = some t
    update_inner_hashes t ((level, index) ∷ path) = do
      t' ← update_inner_hash t level index
      update_inner_hashes t' path

    unfoldable pub iter_path : ℕ → List (ℕ × ℕ)
    iter_path page_index =
        map (λ level. (level, page_index / 2 ^ (suc depth - level - 1))) (range_rev (suc depth))

    unfoldable pub update_hashes : MerkleTree → ℕ → Option MerkleTree
    update_hashes t page_index = do
      t' ← update_leaf_hash t page_index
      update_inner_hashes t' (drop 1 (iter_path page_index))

    unfoldable pub update_page : MerkleTree → ℕ → List (ℕ × ℕ) → Option MerkleTree
    update_page t page_index updates = do
      t' ← update_page_impl t page_index updates
      update_hashes t' page_index

    -- The first loop of `update`, over the pages in order.
    unfoldable pub update_leaves : MerkleTree → List (ℕ × List (ℕ × ℕ)) → Option MerkleTree
    update_leaves t [] = some t
    update_leaves t ((page_index, updates) ∷ rest) = do
      written ← update_page_impl t page_index updates
      hashed ← update_leaf_hash written page_index
      update_leaves hashed rest

    -- The second loop of `update`, over the levels above the leaves, from the lowest.
    unfoldable pub update_levels : MerkleTree → List ℕ → List ℕ → Option MerkleTree
    update_levels t indices [] = some t
    update_levels t indices (level ∷ levels) = do
      t' ← update_inner_hashes t (map (λ index. (level, index)) (level_up indices))
      update_levels t' (level_up indices) levels

    unfoldable pub update_tree : MerkleTree → List (ℕ × ℕ) → Option MerkleTree
    update_tree t updates = do
      by_page ← organize_updates_by_page words_per_page updates
      t' ← update_leaves t by_page
      update_levels t' (map (λ entry. entry.0) by_page) (range_rev depth)

    unfoldable pub root_hash : MerkleTree → Option Hash
    root_hash t = get_hash t 0 0

    -- The siblings along a path.
    unfoldable pub siblings : MerkleTree → List (ℕ × ℕ) → Option (List Hash)
    siblings t [] = some []
    siblings t ((level, index) ∷ path) = do
      sibling ← get_hash t level (bit_xor index 1)
      rest ← siblings t path
      some (sibling ∷ rest)

    -- The page, its hash and its Merkle proof.
    unfoldable pub get : MerkleTree → ℕ → Option (Page × Hash × List Hash)
    get t page_index = do
      proof ← siblings t (take depth (iter_path page_index))
      page_hash ← get_hash t depth page_index
      some (get_or (t.pages page_index) t.zero_page, page_hash, proof)
