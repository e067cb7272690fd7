-- ===== src/PrioMap/LevelTwo/Highest.antt =====
-- `HighestPriority` of `PriorityMapL2`, where the priorities of the map fit the type `T`, and the
-- map as the schedulers' priority map.
use native.Mathlib.Nat.{mod-eq_of_lt}
use mark.Prelude.{
  ℕ, suc, ltb, ℕ-cases, ◌+◌, ◌-◌, ◌*◌, ◌/◌, ◌%◌, ◌^◌, ◌≤◌, ◌<◌, ◌≡◌, ◌≢◌, true, false, inl, inr,
  arith, ◌==◌, if◌then◌else◌, Bool-cases, ap,
}
use mark.Prelude.Bits.{testbit, bit_and_mask, testbit-zero, pow-pos}
use mark.PrioMap.Word.{
  word_bits, prio_bit, prio_map_word_index, priority_from_bitmap-top_bit, top_bit, top_bit-le,
  top_bit_set, top_bit_above, top_bit_zero,
}
use mark.PrioMap.Interface.{PriorityMap}
use mark.PrioMap.LevelTwo.{MapL2, empty, set, clear, highest_priority, member, IsConsistent}
use mark.PrioMap.LevelTwo.Members.{
  word_in_range, split, bit_of-lt, empty-IsConsistent, set-IsConsistent, clear-IsConsistent,
  member-empty, member-set, member-clear,
}

top_bound : (a b n : ℕ) → a ≤ n → b < n → a + b * n ≤ n * n
top_bound a b n h k = grind arith

div_lem : (n a b : ℕ) → b < n → (a * n + b) / n ≡ a
div_lem n a b h = grind arith

mod_lem : (n a b : ℕ) → b < n → (a * n + b) % n ≡ b
mod_lem n a b h = grind arith

positive : (n : ℕ) → n ≢ 0 → 0 < n
positive n h = omega arith

-- A priority of a lower word lies below the first of a higher one.
lower : (t b i j n : ℕ) → j < i → b < n → t + i * n ≤ j * n + b → 0 < t → ⊥
lower t b i j n h hb l pos = grind arith

module _ (shift : ℕ) (room : word_bits shift * word_bits shift < 2 ^ word_bits shift) where
  abbrev bits : ℕ
  bits = word_bits shift

  -- The value that is computed before the cast to `T`.
  top : MapL2 → ℕ
  top m =
      if top_bit bits m.map_l2 == 0
      then 0
      else top_bit bits (m.words (top_bit bits m.map_l2 - 1)) + (top_bit bits m.map_l2 - 1) * bits

  top-le : (m : MapL2) → top m ≤ bits * bits
  unfolding top
  top-le m =
      let idx = top_bit bits m.map_l2 in
      ground (
        arith,
        top_bit-le bits m.map_l2,
        top_bit-le bits (m.words (idx - 1)),
        top_bound (top_bit bits (m.words (idx - 1))) (idx - 1) bits,
      )

  abbrev cast : MapL2 → ℕ
  cast m =
      if top_bit bits m.map_l2 == 0
      then 0
      else (top_bit bits (m.words (top_bit bits m.map_l2 - 1)) + (top_bit bits m.map_l2 - 1) * bits)
        % 2 ^ bits

  -- Nothing is lost in the cast.
  cast-top : (m : MapL2) → top m ≤ bits * bits → cast m ≡ top m
  unfolding top
  cast-top m h = elim (Bool-cases (top_bit bits m.map_l2 == 0)) [
    | inl z ↦ rw z
    | inr nz ↦ rw nz (mod-eq_of_lt (omega (arith, room, rw nz at h)))
  ]

  highest_priority-top : (m : MapL2) → highest_priority shift m ≡ top m
  unfolding highest_priority
  highest_priority-top m =
      rw
        (
          priority_from_bitmap-top_bit bits m.map_l2 (pow-pos shift),
          priority_from_bitmap-top_bit bits (m.words (top_bit bits m.map_l2 - 1)) (pow-pos shift),
        )
        (cast-top m (top-le m))

  word_zero :
      (m : MapL2) (i : ℕ)
      → IsConsistent shift m
      → i < bits
      → testbit m.map_l2 i ≡ false
      → m.words i ≡ 0
  word_zero m i c h e = ground (arith, c.agrees i h)

  top-suc :
      (m : MapL2) (i : ℕ)
      → top_bit bits m.map_l2 ≡ suc i
      → top m ≡ top_bit bits (m.words i) + i * bits
  unfolding top
  top-suc m i e = let back : suc i - 1 ≡ i = omega arith in rw (e, back) (ground arith)

  member_at :
      (m : MapL2) (i b : ℕ) → b < bits → member shift m (i * bits + b) ≡ testbit (m.words i) b
  unfolding member
  member_at m i b h = rw (bit_and_mask shift (i * bits + b), div_lem bits i b h, mod_lem bits i b h)

  -- A word that the second level points at is not zero.
  nonzero_word :
      (m : MapL2) (i : ℕ)
      → IsConsistent shift m
      → top_bit bits m.map_l2 ≡ suc i
      → top_bit bits (m.words i) ≢ 0
  nonzero_word m i c e z = ground (
    arith,
    c.agrees i (omega (arith, top_bit-le bits m.map_l2)),
    top_bit_set bits m.map_l2 i e,
    top_bit_zero bits (m.words i) (c.bounded i) z,
  )

  top_zero : (m : MapL2) → top_bit bits m.map_l2 ≡ 0 → top m ≡ 0
  unfolding top
  top_zero m e = rw e

  pub highest-le : (m : MapL2) → highest_priority shift m ≤ bits * bits
  highest-le m = rw (highest_priority-top m) (top-le m)

  pub highest_member :
      (m : MapL2) (p : ℕ)
      → IsConsistent shift m
      → highest_priority shift m ≡ suc p
      → member shift m p ≡ true
  highest_member m p c e = elim (ℕ-cases (top_bit bits m.map_l2)) [
    | inl z ↦ absurd (omega (arith, top_zero m z, highest_priority-top m))
    | inr (i, ei) ↦ elim (ℕ-cases (top_bit bits (m.words i))) [
      | inl z ↦ absurd (nonzero_word m i c ei z)
      | inr (b, eb) ↦
          let at : p ≡ i * bits + b = omega (arith, top-suc m i ei, highest_priority-top m) in
          rw (at, member_at m i b (omega (arith, top_bit-le bits (m.words i))))
            (top_bit_set bits (m.words i) b eb)
    ]
  ]

  above_split :
      (m : MapL2) (j b : ℕ)
      → IsConsistent shift m
      → top m ≤ j * bits + b
      → j < bits
      → b < bits
      → testbit (m.words j) b ≡ false
  above_split m j b c h hj hb = elim (Bool-cases (ltb j (top_bit bits m.map_l2))) [
    | inr out ↦
        rw (word_zero m j c hj (top_bit_above bits m.map_l2 j (ground arith) hj)) (testbit-zero b)
    | inl below ↦ elim (ℕ-cases (top_bit bits m.map_l2)) [
      | inl z ↦ absurd (ground arith)
      | inr (i, ei) ↦ elim (Bool-cases (j == i)) [
        | inl same ↦
            let e : j ≡ i = ground arith in
            rw e (
              top_bit_above bits (m.words i) b (omega (arith, top-suc m i ei, ap (λ t. t * bits) e))
                hb)
        | inr other ↦ absurd (
            lower (top_bit bits (m.words i)) b i j bits (ground arith) hb
              (omega (arith, top-suc m i ei))
              (positive (top_bit bits (m.words i)) (nonzero_word m i c ei)))
      ]
    ]
  ]

  pub highest_above :
      (m : MapL2) (q : ℕ)
      → IsConsistent shift m
      → highest_priority shift m ≤ q
      → q < bits * bits
      → member shift m q ≡ false
  unfolding member
  highest_above m q c h l =
      above_split m (prio_map_word_index shift q) (prio_bit shift q) c
        (rw (split shift q) (rw (highest_priority-top m) at h)) (word_in_range q bits l)
        (bit_of-lt shift q)

  abbrev pub map_l2 : PriorityMap MapL2
  map_l2 = record {
    capacity = bits * bits;
    empty = empty;
    set = set shift;
    clear = clear shift;
    highest_priority = highest_priority shift;
    member = member shift;
    IsConsistent = IsConsistent shift;
    empty-IsConsistent = empty-IsConsistent shift;
    set-IsConsistent = λ p m h c. set-IsConsistent shift p m (word_in_range p bits h) c;
    clear-IsConsistent = λ p m h c. clear-IsConsistent shift p m (word_in_range p bits h) c;
    member-empty = member-empty shift;
    member-set = λ p q m hp hq. member-set shift p q m;
    member-clear = λ p q m hp hq. member-clear shift p q m;
    highest-le = λ m c. highest-le m;
    highest_member = highest_member;
    highest_above = highest_above;
  }
