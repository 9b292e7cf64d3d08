-- ===== src/Witgen/PaddedBits/Shapes.antt =====
-- The shape of the vectors that `new`, `clear` and `append_empty_rows` of
-- executor/src/witgen/data_structures/padded_bitvec.rs make.
use powdr.Prelude.{
  ℕ, zero, suc, ◌+◌, ◌*◌, ◌≡◌, refl, arith, true, ◌==◌, some, List, [], ◌∷◌, ◌++◌, length, eq→==,
}
use powdr.Witgen.PaddedBits.{PaddedBitVec, new, clear, zero_words, append_empty_rows}
use powdr.Witgen.PaddedBits.Access.{IsPadded, all_words}

new-IsPadded : (bits_per_row : ℕ) → IsPadded (new bits_per_row)
unfolding new all_words
new-IsPadded n = record {
  word_bits = refl;
  row_words = refl;
  last_row = omega arith;
  size = omega arith;
}

clear-IsPadded : (v : PaddedBitVec) → IsPadded v → IsPadded (clear v)
unfolding clear all_words
clear-IsPadded v p = record {
  word_bits = refl;
  row_words = p.row_words;
  last_row = omega arith;
  size = omega (arith, p.row_words);
}

append-words : (ws : List ℕ) (n : ℕ) → all_words ws ≡ true → all_words (ws ++ zero_words n) ≡ true
unfolding all_words zero_words
append-words [] zero h = refl
append-words [] (suc n) h = append-words [] n refl
append-words (w ∷ ws) n h =
    let later : all_words ws ≡ true = ground arith in
    let rest = append-words ws n later in ground (arith, rest)

length-append : (ws : List ℕ) (n : ℕ) → length (ws ++ zero_words n) ≡ length ws + n
unfolding zero_words
length-append [] zero = refl
length-append [] (suc n) = omega (arith, length-append [] n)
length-append (w ∷ ws) n = omega (arith, length-append ws n)

-- Rows are appended to a full last row.
append_empty_rows-IsPadded :
    (v : PaddedBitVec) (count : ℕ)
    → IsPadded v
    → v.bits_in_last_row ≡ v.bits_per_row
    → (v' : PaddedBitVec) × (append_empty_rows v count ≡ some v') × IsPadded v'
unfolding append_empty_rows
append_empty_rows-IsPadded v count p full =
    let test : (v.bits_in_last_row == v.bits_per_row) ≡ true =
      eq→== v.bits_in_last_row v.bits_per_row full in
    let added = count * v.words_per_row in
    (
      record v { words = v.words ++ zero_words added; rows = v.rows + count },
      rw test refl,
      record {
        word_bits = append-words v.words added p.word_bits;
        row_words = p.row_words;
        last_row = p.last_row;
        size = omega (arith, length-append v.words added, p.size);
      },
    )
