-- ===== src/PrioMap/LevelOne.antt =====
-- `PriorityMapL1` (src/public/priomapl1.h): one word, whose bit `p` stands for priority `p`.
-- `1 << uXPrioBit` shifts an `int`: it is the word `2 ^ b` below the sign bit, and from there on
-- `undefined` is set, whatever the size of the word.
use Prim.Native.Nat.{bit_and, bit_or}
use mark.Prelude.{
  ℕ, suc, ℕ-cases, ltb, inl, inr, refl, ◌+◌, if◌then◌else◌, ◌^◌, ◌≤◌, ◌<◌, ◌≡◌, Bool, true, false,
  not, arith, ◌==◌, ◌&&◌, ◌||◌, ◌∙◌,
}
use mark.Prelude.Bits.{
  testbit, testbit-zero, testbit-pow, testbit-bit_or, testbit-bit_and, testbit-complement,
  complement, bit_and_mask, pow-pos, pow-lt-pow,
}
use mark.PrioMap.Word.{
  word_bits, prio_bit, priority_from_bitmap, priority_from_bitmap-top_bit, top_bit-le, top_bit_set,
  top_bit_above, top_bit,
}
use mark.PrioMap.Interface.{PriorityMap}
use native.Mathlib.Nat.{mod-eq_of_lt}

pub record MapL1 : Type 0 where
  pub map : ℕ
  pub undefined : Bool

unfoldable pub empty : MapL1
empty = record { map = 0; undefined = false }

-- The bits of an `int`; a port with fewer has words of eight bits.
abbrev pub int_bits : ℕ
int_bits = 32

-- Whether `1 << b` has left the range of an `int`, now or before.
abbrev overflowed : ℕ → Bool → Bool
overflowed b before = if ltb (b + 1) int_bits then before else true

module _ (shift : ℕ) where
  unfoldable pub set : ℕ → MapL1 → MapL1
  set prio m = record {
    map = bit_or m.map (2 ^ prio_bit shift prio);
    undefined = overflowed (prio_bit shift prio) m.undefined;
  }

  unfoldable pub clear : ℕ → MapL1 → MapL1
  clear prio m = record {
    map = bit_and m.map (complement (word_bits shift) (2 ^ prio_bit shift prio));
    undefined = overflowed (prio_bit shift prio) m.undefined;
  }

  unfoldable pub highest_priority : MapL1 → ℕ
  highest_priority m = priority_from_bitmap (word_bits shift) m.map

  pub member : MapL1 → ℕ → Bool
  member m q = testbit m.map q

  prio_bit_small : (p : ℕ) → p < word_bits shift → prio_bit shift p ≡ p
  prio_bit_small p h = bit_and_mask shift p ∙ mod-eq_of_lt h

  pub member-set :
      (p q : ℕ) (m : MapL1)
      → p < word_bits shift
      → q < word_bits shift
      → member (set p m) q ≡ (q == p || member m q)
  unfolding member set
  member-set p q m hp hq = rw (prio_bit_small p hp, testbit-bit_or, testbit-pow) (ground arith)

  pub member-clear :
      (p q : ℕ) (m : MapL1)
      → p < word_bits shift
      → q < word_bits shift
      → member (clear p m) q ≡ (not (q == p) && member m q)
  unfolding member clear
  member-clear p q m hp hq =
      rw
        (
          prio_bit_small p hp,
          testbit-bit_and,
          testbit-complement (word_bits shift) (2 ^ p) q (pow-lt-pow p (word_bits shift) hp) hq,
          testbit-pow,
        )
        (ground arith)

  word_updates :
      (p q : ℕ) (m : MapL1)
      → p < word_bits shift
      → q < word_bits shift
      → (member (set p m) q ≡ (q == p || member m q))
        × (member (clear p m) q ≡ (not (q == p) && member m q))
  word_updates p q m hp hq = (member-set p q m hp hq, member-clear p q m hp hq)

  as_top_bit : (m : MapL1) → highest_priority m ≡ top_bit (word_bits shift) m.map
  unfolding highest_priority
  as_top_bit m = priority_from_bitmap-top_bit (word_bits shift) m.map (pow-pos shift)

  pub highest-le : (m : MapL1) → highest_priority m ≤ word_bits shift
  highest-le m = rw (as_top_bit m) (top_bit-le (word_bits shift) m.map)

  pub highest_member : (m : MapL1) (p : ℕ) → highest_priority m ≡ suc p → member m p ≡ true
  unfolding member
  highest_member m p e = top_bit_set (word_bits shift) m.map p (rw (as_top_bit m) at e)

  pub highest_above :
      (m : MapL1) (q : ℕ) → highest_priority m ≤ q → q < word_bits shift → member m q ≡ false
  unfolding member
  highest_above m q h l = top_bit_above (word_bits shift) m.map q (rw (as_top_bit m) at h) l

  word_highest :
      (m : MapL1)
      → ((p : ℕ) → highest_priority m ≡ suc p → member m p ≡ true)
        × ((q : ℕ) → highest_priority m ≤ q → q < word_bits shift → member m q ≡ false)
  word_highest m = (highest_member m, highest_above m)

  set_defined :
      (p : ℕ) (m : MapL1)
      → p < word_bits shift
      → p + 1 < int_bits
      → m.undefined ≡ false
      → ((set p m).undefined ≡ false) × ((clear p m).undefined ≡ false)
  unfolding set clear
  set_defined p m hp small d = rw (prio_bit_small p hp) (ground arith, ground arith)

  -- In a one-word map of at most 32 bits with no undefined shift so far, for priorities in range
  -- whose bit is below the sign bit of an `int`, `set` adds its priority to those that the map
  -- holds, and `clear` takes its priority from them, and neither makes an undefined shift;
  -- `highest_priority` is one more than a priority of the map that none of the map is above, or 0 if
  -- the map holds none.
  pub word_map :
      (p q : ℕ) (m : MapL1)
      → word_bits shift ≤ int_bits
      → p < word_bits shift
      → q < word_bits shift
      → p + 1 < int_bits
      → m.undefined ≡ false
      → (((set p m).undefined ≡ false) × ((clear p m).undefined ≡ false))
        × ((member (set p m) q ≡ (q == p || member m q))
            × (member (clear p m) q ≡ (not (q == p) && member m q)))
        × ((highest_priority m ≡ suc q → member m q ≡ true)
            × (highest_priority m ≤ q → member m q ≡ false))
  word_map p q m fits hp hq small d =
      let (top, above) = word_highest m in
      (set_defined p m hp small d, word_updates p q m hp hq, (top q, λ h. above q h hq))

  pub member-empty : (q : ℕ) → member empty q ≡ false
  unfolding member empty
  member-empty q = testbit-zero q

  pub empty_defined : empty.undefined ≡ false
  unfolding empty
  empty_defined = refl

  -- No shift was undefined, and the map holds none but the first `num` priorities.
  pub record IsTidy (num : ℕ) (m : MapL1) : Type 0 where
    pub defined : m.undefined ≡ false
    pub beyond : (q : ℕ) → num ≤ q → q < word_bits shift → member m q ≡ false

  -- The map for `num` priorities, whose bits are below the sign bit of an `int`.
  module _ (num : ℕ) (room : num ≤ word_bits shift) (positive : num < int_bits) where
    pub set-IsTidy : (p : ℕ) (m : MapL1) → p < num → IsTidy num m → IsTidy num (set p m)
    set-IsTidy p m h c = record {
      defined = (set_defined p m (omega arith) (omega arith) c.defined).0;
      beyond = λ q from to. ground (arith, member-set p q m, c.beyond q, h, from, room);
    }

    pub clear-IsTidy : (p : ℕ) (m : MapL1) → p < num → IsTidy num m → IsTidy num (clear p m)
    clear-IsTidy p m h c = record {
      defined = (set_defined p m (omega arith) (omega arith) c.defined).1;
      beyond = λ q from to. ground (arith, member-clear p q m, c.beyond q, h, from, room);
    }

    pub highest-le_num : (m : MapL1) → IsTidy num m → highest_priority m ≤ num
    highest-le_num m c = elim (ℕ-cases (highest_priority m)) [
      | inl is_zero ↦ omega (arith, is_zero)
      | inr (p, is_suc) ↦
          ground (arith, is_suc, highest_member m p is_suc, c.beyond p, highest-le m)
    ]

    abbrev pub map_l1 : PriorityMap MapL1
    map_l1 = record {
      capacity = num;
      empty = empty;
      set = set;
      clear = clear;
      highest_priority = highest_priority;
      member = member;
      IsConsistent = IsTidy num;
      empty-IsConsistent = record { defined = empty_defined; beyond = λ q from to. member-empty q };
      set-IsConsistent = set-IsTidy;
      clear-IsConsistent = clear-IsTidy;
      member-empty = member-empty;
      member-set = λ p q m hp hq. member-set p q m (omega arith) (omega arith);
      member-clear = λ p q m hp hq. member-clear p q m (omega arith) (omega arith);
      highest-le = highest-le_num;
      highest_member = λ m p c e. highest_member m p e;
      highest_above = λ m q c h l. highest_above m q h (omega arith);
    }
