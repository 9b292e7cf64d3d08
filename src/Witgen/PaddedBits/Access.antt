-- ===== src/Witgen/PaddedBits/Access.antt =====
-- Reading and writing flags in executor/src/witgen/data_structures/padded_bitvec.rs.
use powdr.Prelude.{
  ℕ, zero, suc, ◌+◌, ◌*◌, ◌/◌, ◌%◌, ◌^◌, ◌≤◌, ◌<◌, ◌≡◌, ◌≢◌, inl, inr, refl, ap, arith, ◌==◌, true,
  Bool, ltb, ◌&&◌, if◌then◌else◌, some, List, [], ◌∷◌, length, get_elem?, set, Bool-cases,
}
use powdr.Witgen.PaddedBits.{PaddedBitVec}
use native.Mathlib.Nat.{mul-le-mul_right}

unfoldable pub all_words : List ℕ → Bool
all_words [] = true
all_words (w ∷ ws) = ltb w (2 ^ 32) && all_words ws

-- Words of 32 bits, every row but the last one full, and the last one's words as its bits need.
pub record IsPadded (v : PaddedBitVec) : Type 0 where
  pub word_bits : all_words v.words ≡ true
  pub row_words : v.words_per_row ≡ (v.bits_per_row + 31) / 32
  pub last_row : v.bits_in_last_row ≤ v.bits_per_row
  pub size :
      length v.words + v.words_per_row ≡ v.rows * v.words_per_row + (v.bits_in_last_row + 31) / 32

-- A position of the vector.
unfoldable pub in_bounds : PaddedBitVec → ℕ → ℕ → Bool
in_bounds v row col =
    ltb row v.rows
    && ltb col v.bits_per_row
    && (if row + 1 == v.rows then ltb col v.bits_in_last_row else true)

pub get_elem?-words :
    (ws : List ℕ) (i : ℕ)
    → all_words ws ≡ true
    → i < length ws
    → (w : ℕ) × (get_elem? ws i ≡ some w) × (w < 2 ^ 32)
unfolding all_words
get_elem?-words [] i h le = absurd (omega arith)
get_elem?-words (w ∷ ws) zero h le = (w, refl, ground arith)
get_elem?-words (w ∷ ws) (suc i) h le =
    let later : all_words ws ≡ true = ground arith in get_elem?-words ws i later (omega arith)

pub set-words :
    (ws : List ℕ) (i w : ℕ) → all_words ws ≡ true → w < 2 ^ 32 → all_words (set ws i w) ≡ true
unfolding all_words
set-words [] i w h q = refl
set-words (x ∷ xs) zero w h q = ground arith
set-words (x ∷ xs) (suc i) w h q =
    let later : all_words xs ≡ true = ground arith in
    let rest = set-words xs i w later q in ground arith

pub length-set : (ws : List ℕ) (i w : ℕ) → length (set ws i w) ≡ length ws
length-set [] i w = refl
length-set (x ∷ xs) zero w = refl
length-set (x ∷ xs) (suc i) w = ap suc (length-set xs i w)

pub set-here : (ws : List ℕ) (i w : ℕ) → i < length ws → get_elem? (set ws i w) i ≡ some w
set-here [] i w h = absurd (omega arith)
set-here (x ∷ xs) zero w h = refl
set-here (x ∷ xs) (suc i) w h = set-here xs i w (omega arith)

pub set-elsewhere : (ws : List ℕ) (i j w : ℕ) → i ≢ j → get_elem? (set ws i w) j ≡ get_elem? ws j
set-elsewhere [] i j w h = refl
set-elsewhere (x ∷ xs) zero zero w h = absurd (omega arith)
set-elsewhere (x ∷ xs) zero (suc j) w h = refl
set-elsewhere (x ∷ xs) (suc i) zero w h = refl
set-elsewhere (x ∷ xs) (suc i) (suc j) w h = set-elsewhere xs i j w (omega arith)

-- A row's words lie before those of the later rows.
rows-apart : (r r' n : ℕ) → r < r' → r * n + n ≤ r' * n
rows-apart r r' n h = let le : suc r * n ≤ r' * n = mul-le-mul_right n h in omega arith

pub index-fits :
    (v : PaddedBitVec) (row col : ℕ)
    → IsPadded v
    → in_bounds v row col ≡ true
    → row * v.words_per_row + col / 32 < length v.words
unfolding in_bounds
index-fits v row col p h =
    let inside : row < v.rows = ground arith in
    let col_fits : col < v.bits_per_row = ground arith in
    let part : col / 32 < v.words_per_row = omega (arith, p.row_words) in
    elim (Bool-cases (row + 1 == v.rows)) [
      | inl e ↦
          let last : v.rows ≡ row + 1 = ground arith in
          let col_last : col < v.bits_in_last_row = ground arith in
          let whole : v.rows * v.words_per_row ≡ row * v.words_per_row + v.words_per_row =
            rw last (omega arith) in
          omega (arith, p.size, whole)
      | inr e ↦
          let before : row + 1 < v.rows = ground arith in
          let apart = rows-apart (row + 1) v.rows v.words_per_row before in
          omega (arith, p.size, apart)
    ]

pub same-position :
    (n r r' c c' : ℕ)
    → c / 32 < n
    → c' / 32 < n
    → r * n + c / 32 ≡ r' * n + c' / 32
    → c % 32 ≡ c' % 32
    → (r ≡ r') × (c ≡ c')
same-position n r r' c c' h h' e q = elim (Bool-cases (r == r')) [
  | inl s ↦ let same : r ≡ r' = ground arith in (same, omega (arith, ap (λ t. t * n) same))
  | inr s ↦ elim (Bool-cases (ltb r r')) [
    | inl t ↦ absurd (omega (arith, rows-apart r r' n (ground arith)))
    | inr t ↦ absurd (omega (arith, rows-apart r' r n (ground arith)))
  ]
]

pub column-fits :
    (v : PaddedBitVec) (row col : ℕ)
    → IsPadded v
    → in_bounds v row col ≡ true
    → col / 32 < v.words_per_row
unfolding in_bounds
column-fits v row col p h =
    let col_fits : col < v.bits_per_row = ground arith in omega (arith, p.row_words)
