-- ===== src/Witgen/PaddedBits/Flags.antt =====
-- `get` and `set` of executor/src/witgen/data_structures/padded_bitvec.rs.
use powdr.Prelude.{
  ℕ, ◌+◌, ◌-◌, ◌*◌, ◌/◌, ◌%◌, ◌^◌, ◌<◌, ◌≡◌, ◌≢◌, inl, inr, refl, ap, sym, ◌∙◌, arith, ◌==◌, true,
  false, Bool, leb, ◌&&◌, ◌||◌, not, if◌then◌else◌, some, get_elem?, set, bit_and, bit_or,
  Bool-cases,
}
use powdr.Prelude.Bits.{bit_and-lt, bit_or-lt}
use powdr.Witgen.PaddedBits.{PaddedBitVec, to_word_and_bit_mask, get_bit, set_bit}
use powdr.Witgen.PaddedBits.Masking.{bit_of, and-bit_of, or-bit_of, clear-bit_of, pow-lt}
use powdr.Witgen.PaddedBits.Access.{
  IsPadded, in_bounds, get_elem?-words, set-words, length-set, set-here, set-elsewhere, index-fits,
  same-position, column-fits,
}
use native.Mathlib.Nat.{one-le-pow}

position-some :
    (v : PaddedBitVec) (row col : ℕ)
    → in_bounds v row col ≡ true
    → to_word_and_bit_mask v row col ≡ some (row * v.words_per_row + col / 32, 2 ^ (col % 32))
unfolding in_bounds to_word_and_bit_mask
position-some v row col h =
    let one : 1 * 2 ^ (col % 32) ≡ 2 ^ (col % 32) = omega arith in
    let inside : (leb v.rows row || (row + 1 == v.rows && leb v.bits_in_last_row col)) ≡ false =
      ground arith in
    rw (inside, one) refl

tested : (w j : ℕ) → not (bit_and w (2 ^ j) == 0) ≡ (bit_of w j == 1)
tested w j =
    let positive : 0 < 2 ^ j = one-le-pow j 2 (omega arith) in
    let value = and-bit_of j w in
    elim (Bool-cases (bit_of w j == 0)) [
      | inl e ↦
          let zeroed : bit_of w j ≡ 0 = ground arith in
          let nothing : bit_and w (2 ^ j) ≡ 0 = value ∙ rw zeroed (omega arith) in
          rw (zeroed, nothing) refl
      | inr e ↦
          let one : bit_of w j ≡ 1 = ground arith in
          let kept : bit_and w (2 ^ j) ≡ 2 ^ j = value ∙ rw one (omega arith) in
          let some_bit : (2 ^ j == 0) ≡ false = ground arith in rw (one, kept, some_bit) refl
    ]

get_bit-word :
    (v : PaddedBitVec) (row col w : ℕ)
    → in_bounds v row col ≡ true
    → get_elem? v.words (row * v.words_per_row + col / 32) ≡ some w
    → get_bit v row col ≡ some (bit_of w (col % 32) == 1)
unfolding get_bit
get_bit-word v row col w h e =
    rw (position-some v row col h, e, get_bit) (ap some (tested w (col % 32)))

-- The word that `set` writes.
abbrev written : Bool → ℕ → ℕ → ℕ
written value w k = if value then bit_or w (2 ^ k) else bit_and w (2 ^ 32 - 1 - 2 ^ k)

written-bit_of :
    (value : Bool) (w j k : ℕ)
    → j < 32
    → k < 32
    → w < 2 ^ 32
    → (bit_of (written value w k) j == 1) ≡ (if j == k then value else bit_of w j == 1)
written-bit_of true w j k hj hk hw = elim (Bool-cases (j == k)) [
  | inl e ↦ rw (or-bit_of j k w, e) refl
  | inr e ↦ rw (or-bit_of j k w, e) refl
]
written-bit_of false w j k hj hk hw = elim (Bool-cases (j == k)) [
  | inl e ↦ rw (clear-bit_of 32 j k w hj hk hw, e) refl
  | inr e ↦ rw (clear-bit_of 32 j k w hj hk hw, e) refl
]

written-lt : (value : Bool) (w k : ℕ) → k < 32 → w < 2 ^ 32 → written value w k < 2 ^ 32
written-lt true w k hk hw = bit_or-lt 32 w (2 ^ k) hw (pow-lt k 32 hk)
written-lt false w k hk hw = bit_and-lt 32 w (2 ^ 32 - 1 - 2 ^ k) hw

set_bit-word :
    (v : PaddedBitVec) (row col w : ℕ) (value : Bool)
    → in_bounds v row col ≡ true
    → get_elem? v.words (row * v.words_per_row + col / 32) ≡ some w
    → set_bit v row col value
      ≡ some (record v {
        words = set v.words (row * v.words_per_row + col / 32) (written value w (col % 32));
      })
unfolding set_bit
set_bit-word v row col w value h e = rw (position-some v row col h, e, set_bit) refl

positions-differ :
    (row row' col col' : ℕ) → (col' % 32 == col % 32) ≡ false → (row' == row && col' == col) ≡ false
positions-differ row row' col col' d = elim (Bool-cases (col' == col)) [
  | inl c ↦
      let same : col' ≡ col = ground arith in
      let digit : (col' % 32 == col % 32) ≡ true = rw same (ground arith) in absurd (ground arith)
  | inr c ↦ ground arith
]

indices-differ :
    (n row row' col col' : ℕ)
    → (row' * n + col' / 32 == row * n + col / 32) ≡ false
    → (row' == row && col' == col) ≡ false
indices-differ n row row' col col' d = elim (Bool-cases (row' == row && col' == col)) [
  | inl c ↦
      let r : row' ≡ row = ground arith in
      let s : col' ≡ col = ground arith in
      let index : (row' * n + col' / 32 == row * n + col / 32) ≡ true = rw (r, s) (ground arith) in
      absurd (ground arith)
  | inr c ↦ c
]

-- The write, read at any position.
read_back :
    (v : PaddedBitVec) (row col row' col' w u : ℕ) (value : Bool)
    → IsPadded v
    → in_bounds v row col ≡ true
    → in_bounds v row' col' ≡ true
    → get_elem? v.words (row * v.words_per_row + col / 32) ≡ some w
    → get_elem? v.words (row' * v.words_per_row + col' / 32) ≡ some u
    → w < 2 ^ 32
    → get_bit
        (record v {
          words = set v.words (row * v.words_per_row + col / 32) (written value w (col % 32));
        })
        row'
        col'
      ≡ (if row' == row && col' == col then some value else get_bit v row' col')
unfolding in_bounds
read_back v row col row' col' w u value p h h' e e' w_lt =
    let n = v.words_per_row in
    let i = row * n + col / 32 in
    let i' = row' * n + col' / 32 in
    let new_word = written value w (col % 32) in
    let v' : PaddedBitVec = record v { words = set v.words i new_word } in
    elim (Bool-cases (i' == i)) [
      | inl same ↦
          let index : i' ≡ i = ground arith in
          let old : get_elem? v.words i' ≡ some w = rw index e in
          let here : get_elem? (set v.words i new_word) i' ≡ some new_word =
            rw index (set-here v.words i new_word (index-fits v row col p h)) in
          let bits =
            written-bit_of value w (col' % 32) (col % 32) (omega arith) (omega arith) w_lt in
          get_bit-word v' row' col' new_word h' here
          ∙ ap some bits
          ∙ elim (Bool-cases (col' % 32 == col % 32)) [
            | inl d ↦
                let digit : col' % 32 ≡ col % 32 = ground arith in
                let (r, c) =
                  same-position n row' row col' col (column-fits v row' col' p h')
                    (column-fits v row col p h) index digit in
                let hit : (row' == row && col' == col) ≡ true = ground arith in rw (d, hit) refl
            | inr d ↦
                let miss : (row' == row && col' == col) ≡ false =
                  positions-differ row row' col col' d in
                rw (d, miss) (sym (get_bit-word v row' col' w h' old))
          ]
      | inr apart ↦
          let index : i ≢ i' = λ q. absurd (ground arith) in
          let there : get_elem? (set v.words i new_word) i' ≡ some u =
            set-elsewhere v.words i i' new_word index ∙ e' in
          let miss : (row' == row && col' == col) ≡ false =
            indices-differ n row row' col col' apart in
          rw miss (get_bit-word v' row' col' u h' there ∙ sym (get_bit-word v row' col' u h' e'))
    ]

-- In a well-formed bit vector, with 32-bit words and as many of them as its rows take, `set` at a
-- position of the vector succeeds and keeps it well formed, and `get` at any position of the
-- vector then returns the value set if the position is the same, and else what it returned before.
pub set_bit-get_bit :
    (v : PaddedBitVec) (row col row' col' : ℕ) (value : Bool)
    → IsPadded v
    → in_bounds v row col ≡ true
    → in_bounds v row' col' ≡ true
    → (v' : PaddedBitVec) × (set_bit v row col value ≡ some v')
      × IsPadded v'
      × (get_bit v' row' col'
          ≡ (if row' == row && col' == col then some value else get_bit v row' col'))
unfolding in_bounds
set_bit-get_bit v row col row' col' value p h h' =
    let i = row * v.words_per_row + col / 32 in
    let i' = row' * v.words_per_row + col' / 32 in
    let (w, e, w_lt) = get_elem?-words v.words i p.word_bits (index-fits v row col p h) in
    let (u, e', u_lt) = get_elem?-words v.words i' p.word_bits (index-fits v row' col' p h') in
    let new_word = written value w (col % 32) in
    let v' : PaddedBitVec = record v { words = set v.words i new_word } in
    let padded : IsPadded v' = record {
      word_bits =
          set-words v.words i new_word p.word_bits
            (written-lt value w (col % 32) (omega arith) w_lt);
      row_words = p.row_words;
      last_row = p.last_row;
      size = rw (length-set v.words i new_word) p.size;
    } in
    (
      v',
      set_bit-word v row col w value h e,
      padded,
      read_back v row col row' col' w u value p h h' e e' w_lt,
    )
