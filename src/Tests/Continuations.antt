-- ===== src/Tests/Continuations.antt =====
-- The Merkle tree's properties on a tree of four pages with four words each.
use powdr.Prelude.{if◌then◌else◌, ◌==◌, ℕ, ◌+◌, ◌*◌, ◌≡◌, refl, true, some, arith, List, [], ◌∷◌}
use powdr.Continuations.MerkleTree.{
  MerkleTree, Hash, Page, new, update_page, update_tree, write_words, get, root_hash, hash_page,
}
use powdr.Continuations.MerkleTree.Nodes.{IsConsistent, page_at, new-IsConsistent}
use powdr.Continuations.MerkleTree.Pages.{all_within, word}
use powdr.Continuations.MerkleTree.Updates.{update_page-IsConsistent}
use powdr.Continuations.MerkleTree.Batch.{all_in_tree, last_update, update_tree-IsConsistent}
use powdr.Continuations.MerkleTree.Proofs.{climb, get-climb}

-- A permutation to compute with: weighted sums of the first eight words.
mix : List ℕ → ℕ → ℕ
mix [] weight = 0
mix (x ∷ xs) weight = x * weight + mix xs (weight + 1)

abbrev toy_permutation : List ℕ → Hash
toy_permutation xs = mix xs 1 ∷ mix xs 2 ∷ mix xs 3 ∷ mix xs 4 ∷ []

abbrev empty_tree : MerkleTree
empty_tree = new toy_permutation 2 4

empty_tree-IsConsistent : IsConsistent toy_permutation 2 4 empty_tree
empty_tree-IsConsistent = new-IsConsistent toy_permutation 2 4

within_four : all_within 4 ((1, 77) ∷ (3, 5) ∷ []) ≡ true
unfolding all_within
within_four = refl

update_page-IsConsistent_example :
    (t' : MerkleTree) × (update_page toy_permutation 2 4 empty_tree 3 ((1, 77) ∷ (3, 5) ∷ [])
      ≡ some t')
    × IsConsistent toy_permutation 2 4 t'
    × (write_words (page_at 4 empty_tree 3) ((1, 77) ∷ (3, 5) ∷ []) ≡ some (page_at 4 t' 3))
    × ((j : ℕ) → page_at 4 t' j ≡ (if j == 3 then page_at 4 t' 3 else page_at 4 empty_tree j))
update_page-IsConsistent_example =
    update_page-IsConsistent toy_permutation 2 4 empty_tree 3 ((1, 77) ∷ (3, 5) ∷ [])
      empty_tree-IsConsistent (omega arith) within_four

-- Words of the pages 2, 0 and 2 again.
abbrev batch : List (ℕ × ℕ)
batch = (36, 7) ∷ (4, 9) ∷ (44, 11) ∷ (36, 8) ∷ []

batch_in_tree : all_in_tree toy_permutation 2 4 batch ≡ true
unfolding all_in_tree
batch_in_tree = refl

update_tree-IsConsistent_example :
    (t' : MerkleTree) × (update_tree toy_permutation 2 4 empty_tree batch ≡ some t')
    × IsConsistent toy_permutation 2 4 t'
    × ((q j : ℕ)
        → word toy_permutation 2 4 t' q j
          ≡ last_update toy_permutation 2 4 batch q j (word toy_permutation 2 4 empty_tree q j))
update_tree-IsConsistent_example =
    update_tree-IsConsistent toy_permutation 2 4 empty_tree batch empty_tree-IsConsistent
      (omega arith) batch_in_tree

-- A tree with one page written.
filled :
    (t' : MerkleTree) × (update_page toy_permutation 2 4 empty_tree 3 ((1, 77) ∷ (3, 5) ∷ [])
      ≡ some t')
    × IsConsistent toy_permutation 2 4 t'
    × (write_words (page_at 4 empty_tree 3) ((1, 77) ∷ (3, 5) ∷ []) ≡ some (page_at 4 t' 3))
    × ((j : ℕ) → page_at 4 t' j ≡ (if j == 3 then page_at 4 t' 3 else page_at 4 empty_tree j))
filled =
    update_page-IsConsistent toy_permutation 2 4 empty_tree 3 ((1, 77) ∷ (3, 5) ∷ [])
      empty_tree-IsConsistent (omega arith) within_four

get-climb_example :
    (page : Page) × (hash : Hash) × (proof : List Hash) × (get toy_permutation 2 4 (filled.0) 3
      ≡ some (page, hash, proof))
    × (page ≡ page_at 4 (filled.0) 3)
    × (hash ≡ hash_page toy_permutation page)
    × (root_hash toy_permutation 2 4 (filled.0) ≡ some (climb toy_permutation 3 hash proof))
get-climb_example = get-climb toy_permutation 2 4 (filled.0) 3 (filled.2) (omega arith)
