-- ===== src/PrioMap/LevelTwo.antt =====
-- `PriorityMapL2` (src/public/priomapl2.h): an array of words, and a word with one bit for each of
-- them that is not zero. A priority is a word's index times the word's bits, plus a bit.
-- The shifts of the `int` 1 are those of words of fewer than 32 bits.
pub mod Members
pub mod Highest
use Prim.Native.Nat.{bit_and, bit_or}
use native.Mathlib.Nat.{mod-eq_of_lt, mod-lt, div-add-mod}
use mark.Prelude.{
  ℕ, zero, suc, ◌+◌, ◌-◌, ◌*◌, ◌/◌, ◌%◌, ◌^◌, ◌≤◌, ◌<◌, ◌≡◌, ◌≢◌, refl, Bool, true, false, not, inl,
  inr, arith, ◌==◌, if◌then◌else◌, Bool-cases, ◌&&◌, ◌||◌, ◌∙◌, sym, ap,
}
use mark.Prelude.Bits.{
  testbit, testbit-zero, testbit-pow, testbit-bit_or, testbit-bit_and, testbit-complement,
  complement, bit_and_mask, bit_or-lt, bit_and-lt, pow-pos, pow-lt-pow,
}
use mark.PrioMap.Word.{
  word_bits, prio_bit, prio_map_word_index, priority_from_bitmap, priority_from_bitmap-top_bit,
  top_bit, top_bit-le, top_bit_set, top_bit_above, top_bit_zero,
}
use mark.PrioMap.Interface.{PriorityMap}

pub record MapL2 : Type 0 where
  pub words : ℕ → ℕ
  pub map_l2 : ℕ

-- The constructor clears every word.
pub empty : MapL2
empty = record { words = λ i. 0; map_l2 = 0 }

abbrev pub store : (ℕ → ℕ) → ℕ → ℕ → ℕ → ℕ
store words i w j = if j == i then w else words j

module _ (shift : ℕ) where
  unfoldable pub set : ℕ → MapL2 → MapL2
  set prio m =
      let i = prio_map_word_index shift prio in
      record {
        words = store m.words i (bit_or (m.words i) (2 ^ prio_bit shift prio));
        map_l2 = bit_or m.map_l2 (2 ^ i);
      }

  unfoldable pub clear : ℕ → MapL2 → MapL2
  clear prio m =
      let i = prio_map_word_index shift prio in
      let w = bit_and (m.words i) (complement (word_bits shift) (2 ^ prio_bit shift prio)) in
      record {
        words = store m.words i w;
        map_l2 =
            if w == 0 then bit_and m.map_l2 (complement (word_bits shift) (2 ^ i)) else m.map_l2;
      }

  unfoldable pub highest_priority : MapL2 → ℕ
  highest_priority m =
      let idx = priority_from_bitmap (word_bits shift) m.map_l2 in
      if idx == 0
      then 0
      else (priority_from_bitmap (word_bits shift) (m.words (idx - 1))
          + (idx - 1) * word_bits shift)
        % 2 ^ word_bits shift

  pub member : MapL2 → ℕ → Bool
  member m q = testbit (m.words (prio_map_word_index shift q)) (prio_bit shift q)

  -- Every word is a word, and the second level has the bits of the words that are not zero.
  pub record IsConsistent (m : MapL2) : Type 0 where
    pub bounded : (i : ℕ) → m.words i < 2 ^ word_bits shift
    pub agrees : (i : ℕ) → i < word_bits shift → testbit m.map_l2 i ≡ not (m.words i == 0)
