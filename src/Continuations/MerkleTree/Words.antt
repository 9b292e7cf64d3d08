-- ===== src/Continuations/MerkleTree/Words.antt =====
-- Batches of updates in riscv/src/continuations/memory_merkle_tree.rs: how they are organized by
-- page, and the words they leave.
use powdr.Prelude.{
  ℕ, zero, suc, ◌≤◌, ◌<◌, ◌≡◌, inl, inr, refl, ap, ◌∙◌, arith, Bool, true, false, ltb, leb, ◌==◌,
  if◌then◌else◌, ◌&&◌, Option, some, List, [], ◌∷◌, ◌++◌, get_elem?, Bool-cases, ltb→lt, length,
  set,
}
use powdr.Goldilocks.{from_u64}
use powdr.Continuations.MerkleTree.{Page, push_update, write_words}

-- The last of the updates to a word of a page, or what was there.
unfoldable pub last_in_page : List (ℕ × ℕ) → ℕ → Option ℕ → Option ℕ
last_in_page [] j old = old
last_in_page ((i, v) ∷ updates) j old =
    last_in_page updates j (if j == i then some (from_u64 v) else old)

unfoldable pub last_in_pages : List (ℕ × List (ℕ × ℕ)) → ℕ → ℕ → Option ℕ → Option ℕ
last_in_pages [] q j old = old
last_in_pages ((p, updates) ∷ rest) q j old =
    last_in_pages rest q j (if q == p then last_in_page updates j old else old)

get_elem?-set :
    (page : Page) (i j v : ℕ)
    → i < length page
    → get_elem? (set page i v) j ≡ (if j == i then some v else get_elem? page j)
get_elem?-set [] i j v h = absurd (omega arith)
get_elem?-set (x ∷ xs) zero zero v h = refl
get_elem?-set (x ∷ xs) zero (suc j) v h =
    let off : (suc j == 0) ≡ false = ground arith in rw off refl
get_elem?-set (x ∷ xs) (suc i) zero v h =
    let off : (0 == suc i) ≡ false = ground arith in rw off refl
get_elem?-set (x ∷ xs) (suc i) (suc j) v h =
    let same : (suc j == suc i) ≡ (j == i) = ground arith in
    rw same (get_elem?-set xs i j v (omega arith))

-- The words of a written page.
pub write_words-get :
    (updates : List (ℕ × ℕ)) (page page' : Page) (j : ℕ)
    → write_words page updates ≡ some page'
    → get_elem? page' j ≡ last_in_page updates j (get_elem? page j)
unfolding write_words last_in_page
write_words-get [] page page' j h = let same : page ≡ page' = grind arith in rw same refl
write_words-get ((i, v) ∷ updates) page page' j h = elim (Bool-cases (ltb i (length page))) [
  | inr e ↦ absurd (grind arith)
  | inl e ↦
      let inside = ltb→lt i (length page) e in
      let rest : write_words (set page i (from_u64 v)) updates ≡ some page' = grind arith in
      write_words-get updates (set page i (from_u64 v)) page' j rest
      ∙ ap (last_in_page updates j) (get_elem?-set page i j (from_u64 v) inside)
]

last_in_page-append :
    (updates : List (ℕ × ℕ)) (i v j : ℕ) (old : Option ℕ)
    → last_in_page (updates ++ ((i, v) ∷ [])) j old
      ≡ (if j == i then some (from_u64 v) else last_in_page updates j old)
unfolding last_in_page
last_in_page-append [] i v j old = refl
last_in_page-append ((i', v') ∷ updates) i v j old =
    last_in_page-append updates i v j (if j == i' then some (from_u64 v') else old)

-- The keys ascend, from a lower bound on.
unfoldable pub ascending : ℕ → List (ℕ × List (ℕ × ℕ)) → Bool
ascending lower [] = true
ascending lower ((key, updates) ∷ rest) = leb lower key && ascending (suc key) rest

last-absent :
    (by_page : List (ℕ × List (ℕ × ℕ))) (lower q j : ℕ) (old : Option ℕ)
    → ascending lower by_page ≡ true
    → q < lower
    → last_in_pages by_page q j old ≡ old
unfolding ascending last_in_pages
last-absent [] lower q j old h below = refl
last-absent ((key, updates) ∷ rest) lower q j old h below =
    let off : (q == key) ≡ false = ground arith in
    let higher : ascending (suc key) rest ≡ true = ground arith in
    let beyond : q < suc key = ground arith in
    rw off (last-absent rest (suc key) q j old higher beyond)

pub push_update-ascending :
    (page : ℕ) (update : ℕ × ℕ) (by_page : List (ℕ × List (ℕ × ℕ))) (lower : ℕ)
    → lower ≤ page
    → ascending lower by_page ≡ true
    → ascending lower (push_update page update by_page) ≡ true
unfolding ascending push_update
push_update-ascending page update [] lower le h = ground arith
push_update-ascending page update ((key, updates) ∷ rest) lower le h =
    let higher : ascending (suc key) rest ≡ true = ground arith in
    elim (Bool-cases (page == key)) [
      | inl e ↦ rw e h
      | inr e ↦ elim (Bool-cases (ltb page key)) [
        | inl g ↦ rw (e, g) (ground arith)
        | inr g ↦
            let later = push_update-ascending page update rest (suc key) (ground arith) higher in
            rw (e, g) (ground arith)
      ]
    ]

-- Pushing an update makes it the last one of its word, and changes no other.
pub push_update-last :
    (p i v q j : ℕ) (by_page : List (ℕ × List (ℕ × ℕ))) (lower : ℕ) (old : Option ℕ)
    → ascending lower by_page ≡ true
    → last_in_pages (push_update p (i, v) by_page) q j old
      ≡ (if q == p && j == i then some (from_u64 v) else last_in_pages by_page q j old)
unfolding ascending push_update last_in_pages last_in_page
push_update-last p i v q j [] lower old h = elim (Bool-cases (q == p)) [
  | inl e ↦ rw e refl
  | inr e ↦ rw e refl
]
push_update-last p i v q j ((key, updates) ∷ rest) lower old h =
    let higher : ascending (suc key) rest ≡ true = ground arith in
    elim (Bool-cases (p == key)) [
      | inl e ↦ rw e (same_key e)
      | inr e ↦ elim (Bool-cases (ltb p key)) [
        | inl g ↦ rw (e, g) (earlier_key g)
        | inr g ↦
            rw (e, g)
              (push_update-last p i v q j rest (suc key)
                (if q == key then last_in_page updates j old else old) higher)
      ]
    ]
  where
    gone : (x : Option ℕ) → q ≤ key → last_in_pages rest q j x ≡ x
    gone x le = last-absent rest (suc key) q j x (ground arith) (omega arith)

    same_key :
        (p == key) ≡ true
        → last_in_pages rest q j
            (if q == key then last_in_page (updates ++ ((i, v) ∷ [])) j old else old)
          ≡ (if q == p && j == i
              then some (from_u64 v)
              else last_in_pages rest q j (if q == key then last_in_page updates j old else old))
    same_key e = elim (Bool-cases (q == key)) [
      | inl c ↦
          let c' : (q == p) ≡ true = ground arith in
          let le : q ≤ key = ground arith in
          rw
            (
              c,
              c',
              gone (last_in_page (updates ++ ((i, v) ∷ [])) j old) le,
              gone (last_in_page updates j old) le,
            )
            (last_in_page-append updates i v j old)
      | inr c ↦ let c' : (q == p) ≡ false = ground arith in rw (c, c') refl
    ]

    earlier_key :
        ltb p key ≡ true
        → last_in_pages rest q j (
            if q == key
            then last_in_page updates j
                (if q == p then (if j == i then some (from_u64 v) else old) else old)
            else (if q == p then (if j == i then some (from_u64 v) else old) else old))
          ≡ (if q == p && j == i
              then some (from_u64 v)
              else last_in_pages rest q j (if q == key then last_in_page updates j old else old))
    earlier_key g = elim (Bool-cases (q == p)) [
      | inl c ↦
          let c' : (q == key) ≡ false = ground arith in
          let le : q ≤ key = ground arith in
          rw (c, c', gone (if j == i then some (from_u64 v) else old) le, gone old le) refl
      | inr c ↦ rw c refl
    ]
