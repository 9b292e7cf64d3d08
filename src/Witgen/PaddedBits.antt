-- ===== src/Witgen/PaddedBits.antt =====
-- executor/src/witgen/data_structures/padded_bitvec.rs: the flags of a trace, each row from a new
-- 32-bit word on. `none` is a panic.
pub mod Masking
pub mod Access
pub mod Flags
pub mod Shapes
use powdr.Prelude.{
  ℕ, zero, suc, ◌+◌, ◌-◌, ◌*◌, ◌/◌, ◌%◌, ◌^◌, Bool, true, false, ltb, leb, ◌==◌, ◌&&◌, ◌||◌, not,
  if◌then◌else◌, Option, none, some, List, [], ◌∷◌, ◌++◌, length, get_elem?, set, take, bit_and,
  bit_or,
}
use powdr.Goldilocks.{from_bool}

pub record PaddedBitVec : Type 0 where
  pub words : List ℕ
  pub bits_per_row : ℕ
  pub words_per_row : ℕ
  pub rows : ℕ
  pub bits_in_last_row : ℕ

unfoldable pub new : ℕ → PaddedBitVec
new bits_per_row = record {
  words = [];
  bits_per_row = bits_per_row;
  words_per_row = (bits_per_row + 31) / 32;
  rows = 0;
  bits_in_last_row = bits_per_row;
}

unfoldable pub truncate_to_rows : PaddedBitVec → ℕ → Option PaddedBitVec
truncate_to_rows v len =
    if leb len v.rows
    then some (
        if ltb len v.rows
        then record v {
          words = take (len * v.words_per_row) v.words;
          bits_in_last_row = v.bits_per_row;
          rows = len;
        }
        else v)
    else none

unfoldable pub clear : PaddedBitVec → PaddedBitVec
clear v = record v { words = []; rows = 0; bits_in_last_row = v.bits_per_row }

-- `*last_word |= 1 << bit`; `none` on an empty list.
unfoldable pub or_last : List ℕ → ℕ → Option (List ℕ)
or_last [] bit = none
or_last (w ∷ []) bit = some (bit_or w (1 * 2 ^ bit) ∷ [])
or_last (w ∷ next ∷ ws) bit = elim (or_last (next ∷ ws) bit) [
  | none ↦ none
  | some ws' ↦ some (w ∷ ws')
]

unfoldable pub push : PaddedBitVec → Bool → Option PaddedBitVec
push v value =
    if v.bits_in_last_row == v.bits_per_row
    then some (record v {
      words = v.words ++ (from_bool value ∷ []);
      rows = v.rows + 1;
      bits_in_last_row = 1;
    })
    else if v.bits_in_last_row % 32 == 0
    then some (record v {
      words = v.words ++ (from_bool value ∷ []);
      bits_in_last_row = v.bits_in_last_row + 1;
    })
    else if value
    then elim (or_last v.words (v.bits_in_last_row % 32)) [
      | none ↦ none
      | some words ↦ some (record v { words = words; bits_in_last_row = v.bits_in_last_row + 1 })
    ]
    else some (record v { bits_in_last_row = v.bits_in_last_row + 1 })

unfoldable pub zero_words : ℕ → List ℕ
zero_words zero = []
zero_words (suc n) = 0 ∷ zero_words n

unfoldable pub append_empty_rows : PaddedBitVec → ℕ → Option PaddedBitVec
append_empty_rows v count =
    if v.bits_in_last_row == v.bits_per_row
    then some (record v {
      words = v.words ++ zero_words (count * v.words_per_row);
      rows = v.rows + count;
    })
    else none

unfoldable pub to_word_and_bit_mask : PaddedBitVec → ℕ → ℕ → Option (ℕ × ℕ)
to_word_and_bit_mask v row col =
    if leb v.rows row || (row + 1 == v.rows && leb v.bits_in_last_row col)
    then none
    else some (row * v.words_per_row + col / 32, 1 * 2 ^ (col % 32))

unfoldable pub get_bit : PaddedBitVec → ℕ → ℕ → Option Bool
get_bit v row col = elim (to_word_and_bit_mask v row col) [
  | none ↦ none
  | some (word_index, bit_mask) ↦ elim (get_elem? v.words word_index) [
    | none ↦ none
    | some word ↦ some (not (bit_and word bit_mask == 0))
  ]
]

unfoldable pub set_bit : PaddedBitVec → ℕ → ℕ → Bool → Option PaddedBitVec
set_bit v row col value = elim (to_word_and_bit_mask v row col) [
  | none ↦ none
  | some (word_index, bit_mask) ↦ elim (get_elem? v.words word_index) [
    | none ↦ none
    | some word ↦ some (record v {
      words =
          set v.words word_index
            (if value then bit_or word bit_mask else bit_and word (2 ^ 32 - 1 - bit_mask));
    })
  ]
]
