-- ===== src/PrioMap/LevelTwo/Members.antt =====
-- `Set` and `Clear` of `PriorityMapL2` against the set of priorities.
use Prim.Native.Nat.{bit_and, bit_or}
use native.Mathlib.Nat.{mod-lt, div-add-mod}
use mark.Prelude.{
  ℕ, ◌+◌, ◌*◌, ◌/◌, ◌^◌, ◌<◌, ◌≡◌, false, not, inl, inr, arith, ◌==◌, Bool-cases, ◌&&◌, ◌||◌, ap,
}
use mark.Prelude.Bits.{
  testbit, testbit-zero, testbit-pow, testbit-bit_or, testbit-bit_and, testbit-complement,
  complement, bit_and_mask, bit_or-lt, bit_and-lt, zero-bit_and, pow-pos, pow-lt-pow,
}
use mark.PrioMap.Word.{word_bits, prio_bit, prio_map_word_index}
use mark.PrioMap.LevelTwo.{MapL2, empty, set, clear, member, IsConsistent}

pub word_in_range : (q n : ℕ) → q < n * n → q / n < n
word_in_range q n h = grind arith

module _ (shift : ℕ) where
  abbrev word_of : ℕ → ℕ
  word_of q = prio_map_word_index shift q

  abbrev bit_of : ℕ → ℕ
  bit_of q = prio_bit shift q

  pub bit_of-lt : (q : ℕ) → bit_of q < word_bits shift
  bit_of-lt q = rw (bit_and_mask shift q) (mod-lt q (pow-pos shift))

  -- A priority is its word and its bit.
  pub split : (q : ℕ) → word_of q * word_bits shift + bit_of q ≡ q
  split q = rw (bit_and_mask shift q) (omega (arith, div-add-mod q (2 ^ shift)))

  -- Two priorities of one word are equal when their bits are.
  same_bit : (p q : ℕ) → word_of q ≡ word_of p → (bit_of q == bit_of p) ≡ (q == p)
  same_bit p q e = ground (arith, split p, split q, ap (λ t. t * word_bits shift) e)

  other_word : (p q : ℕ) → (word_of q == word_of p) ≡ false → (q == p) ≡ false
  other_word p q e = elim (Bool-cases (q == p)) [
    | inl same ↦ let h : q ≡ p = ground arith in ground (arith, ap (λ t. t / 2 ^ shift) h)
    | inr d ↦ d
  ]

  pub member-empty : (q : ℕ) → member shift empty q ≡ false
  unfolding member empty
  member-empty q = testbit-zero (bit_of q)

  pub member-set :
      (p q : ℕ) (m : MapL2) → member shift (set shift p m) q ≡ (q == p || member shift m q)
  unfolding member set
  member-set p q m = elim (Bool-cases (word_of q == word_of p)) [
    | inl same ↦
        let e : word_of q ≡ word_of p = ground arith in
        rw (same, testbit-bit_or, testbit-pow, same_bit p q e) (rw e (ground arith))
    | inr other ↦ rw (other, other_word p q other)
  ]

  pub member-clear :
      (p q : ℕ) (m : MapL2) → member shift (clear shift p m) q ≡ (not (q == p) && member shift m q)
  unfolding member clear
  member-clear p q m = elim (Bool-cases (word_of q == word_of p)) [
    | inl same ↦
        let e : word_of q ≡ word_of p = ground arith in
        rw
          (
            same,
            testbit-bit_and,
            testbit-complement (word_bits shift) (2 ^ bit_of p) (bit_of q)
                (pow-lt-pow (bit_of p) (word_bits shift) (bit_of-lt p)) (bit_of-lt q),
            testbit-pow,
            same_bit p q e,
          )
          (rw e (ground arith))
    | inr other ↦ rw (other, other_word p q other)
  ]

  pub empty-IsConsistent : IsConsistent shift empty
  unfolding empty
  empty-IsConsistent = record {
    bounded = λ i. pow-pos (word_bits shift);
    agrees = λ i h. testbit-zero i;
  }

  -- A word with a bit set is not zero.
  or-nonzero : (w b : ℕ) → (bit_or w (2 ^ b) == 0) ≡ false
  or-nonzero w b = elim (Bool-cases (bit_or w (2 ^ b) == 0)) [
    | inl z ↦
        let e : bit_or w (2 ^ b) ≡ 0 = ground arith in
        ground (
          arith,
          ap (λ t. testbit t b) e,
          testbit-bit_or w (2 ^ b) b,
          testbit-pow b b,
          testbit-zero b,
        )
    | inr d ↦ d
  ]

  cleared_was_set : (w c : ℕ) → w ≡ 0 → bit_and w c ≡ 0
  cleared_was_set w c e = rw e (zero-bit_and c)

  pub set-IsConsistent :
      (p : ℕ) (m : MapL2)
      → word_of p < word_bits shift
      → IsConsistent shift m
      → IsConsistent shift (set shift p m)
  unfolding set
  set-IsConsistent p m h c = record {
    bounded = λ i. ground (
      arith,
      c.bounded i,
      bit_or-lt (word_bits shift) (m.words (word_of p)) (2 ^ bit_of p) (c.bounded (word_of p))
          (pow-lt-pow (bit_of p) (word_bits shift) (bit_of-lt p)),
    );
    agrees = λ i l. ground (
      arith,
      testbit-bit_or m.map_l2 (2 ^ word_of p) i,
      testbit-pow (word_of p) i,
      or-nonzero (m.words (word_of p)) (bit_of p),
      c.agrees i l,
    );
  }

  -- `clear` of a priority in range leaves the second level of the map in agreement with its words:
  -- the bit of a word that becomes zero is cleared with it.
  pub clear-IsConsistent :
      (p : ℕ) (m : MapL2)
      → word_of p < word_bits shift
      → IsConsistent shift m
      → IsConsistent shift (clear shift p m)
  unfolding clear
  clear-IsConsistent p m h c = record {
    bounded = λ i. ground (
      arith,
      c.bounded i,
      bit_and-lt (word_bits shift) (m.words (word_of p))
          (complement (word_bits shift) (2 ^ bit_of p)) (c.bounded (word_of p)),
    );
    agrees = λ i l. ground (
      arith,
      testbit-bit_and m.map_l2 (complement (word_bits shift) (2 ^ word_of p)) i,
      testbit-complement (word_bits shift) (2 ^ word_of p) i
          (pow-lt-pow (word_of p) (word_bits shift) h) l,
      testbit-pow (word_of p) i,
      c.agrees i l,
      cleared_was_set (m.words (word_of p)) (complement (word_bits shift) (2 ^ bit_of p)),
    );
  }

  -- In a two-level map with words of fewer than 32 bits, whose second level agrees with its words,
  -- `set` of a priority that the array has room for adds it to those that the map holds, and `clear`
  -- takes it from them; after both the second level agrees with the words again.
  pub array_updates :
      (p q : ℕ) (m : MapL2)
      → word_bits shift < 32
      → p < word_bits shift * word_bits shift
      → IsConsistent shift m
      → (IsConsistent shift (set shift p m) × IsConsistent shift (clear shift p m))
        × (member shift (set shift p m) q ≡ (q == p || member shift m q))
        × (member shift (clear shift p m) q ≡ (not (q == p) && member shift m q))
  array_updates p q m small h c =
      let inside = word_in_range p (word_bits shift) h in
      (
        (set-IsConsistent p m inside c, clear-IsConsistent p m inside c),
        member-set p q m,
        member-clear p q m,
      )
