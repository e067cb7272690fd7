-- ===== src/PrioMap/Word.antt =====
-- What the two templates share: the masks, the shifts and `PriorityFromBitmap`, for a word of
-- `2 ^ shift` bits.
use Prim.Native.Nat.{bit_and}
use native.Mathlib.Nat.{pow-suc}
use mark.Prelude.{
  ℕ, zero, suc, ◌+◌, ◌-◌, ◌/◌, ◌^◌, ◌≤◌, ◌<◌, ◌≡◌, refl, true, false, inl, inr, arith, ◌==◌,
  if◌then◌else◌, Bool-cases,
}
use mark.Prelude.Bits.{testbit, bit_and-pow, bit_and_comm, pow-pos, lt-pow_of_clear}

-- `m_uXPrioMapBits`
abbrev pub word_bits : ℕ → ℕ
word_bits shift = 2 ^ shift

-- `PrioBit`
abbrev pub prio_bit : ℕ → ℕ → ℕ
prio_bit shift prio = bit_and prio (2 ^ shift - 1)

-- `PrioMapWordIndex`
abbrev pub prio_map_word_index : ℕ → ℕ → ℕ
prio_map_word_index shift prio = prio / 2 ^ shift

-- The `while (uXMask)` loop of `PriorityFromBitmap`, with fuel; `skipped` is `u8Zeros`.
unfoldable pub scan : ℕ → ℕ → ℕ → ℕ → ℕ → ℕ
scan zero bits word mask skipped = 0
scan (suc fuel) bits word mask skipped =
    let rest = scan fuel bits word (mask / 2) (skipped + 1) in
    if mask == 0 then 0 else if bit_and mask word == 0 then rest else bits - skipped

-- A mask of `bits` bits is shifted out in `bits` rounds.
unfoldable pub priority_from_bitmap : ℕ → ℕ → ℕ
unfolding scan
priority_from_bitmap bits word = scan (bits + 1) bits word (2 ^ (bits - 1)) 0

-- One more than the highest of the lowest `n` bits that is set, or 0.
unfoldable pub top_bit : ℕ → ℕ → ℕ
top_bit zero word = 0
top_bit (suc n) word = let rest = top_bit n word in if testbit word n then suc n else rest

abbrev mask_of : ℕ → ℕ
mask_of zero = 0
mask_of (suc n) = 2 ^ n

mask_half : (n : ℕ) → mask_of (suc n) / 2 ≡ mask_of n
mask_half zero = refl
mask_half (suc n) = omega (arith, pow-suc 2 n)

pow-nonzero : (n : ℕ) → (2 ^ n == 0) ≡ false
pow-nonzero n = ground (arith, pow-pos n)

scan_lem :
    (fuel bits word n skipped : ℕ)
    → n < fuel
    → n + skipped ≡ bits
    → scan fuel bits word (mask_of n) skipped ≡ top_bit n word
unfolding scan top_bit
scan_lem zero bits word n skipped h e = absurd (omega arith)
scan_lem (suc fuel) bits word zero skipped h e = refl
scan_lem (suc fuel) bits word (suc n) skipped h e =
    rw
      (
        pow-nonzero n,
        bit_and_comm (2 ^ n) word,
        bit_and-pow word n,
        mask_half n,
        scan_lem fuel bits word n (skipped + 1) (omega arith) (omega arith),
      )
      (ground arith)

pub priority_from_bitmap-top_bit :
    (bits word : ℕ) → 0 < bits → priority_from_bitmap bits word ≡ top_bit bits word
unfolding priority_from_bitmap
priority_from_bitmap-top_bit zero word h = absurd (omega arith)
priority_from_bitmap-top_bit (suc n) word h =
    let e : suc n - 1 ≡ n = omega arith in
    rw e (scan_lem (suc n + 1) (suc n) word (suc n) 0 (omega arith) (omega arith))

pub top_bit-le : (n word : ℕ) → top_bit n word ≤ n
unfolding top_bit
top_bit-le zero word = omega arith
top_bit-le (suc n) word = ground (arith, top_bit-le n word)

pub top_bit_set : (n word p : ℕ) → top_bit n word ≡ suc p → testbit word p ≡ true
unfolding top_bit
top_bit_set zero word p e = absurd (omega arith)
top_bit_set (suc n) word p e = elim (Bool-cases (testbit word n)) [
  | inl b ↦ let same : p ≡ n = omega (arith, rw b at e) in rw same b
  | inr b ↦ top_bit_set n word p (rw b at e)
]

pub top_bit_above : (n word q : ℕ) → top_bit n word ≤ q → q < n → testbit word q ≡ false
unfolding top_bit
top_bit_above zero word q h l = absurd (omega arith)
top_bit_above (suc n) word q h l = elim (Bool-cases (testbit word n)) [
  | inl b ↦ absurd (omega (arith, rw b at h))
  | inr b ↦ elim (Bool-cases (q == n)) [
    | inl same ↦ let e : q ≡ n = ground arith in rw e b
    | inr other ↦ top_bit_above n word q (rw b at h) (ground arith)
  ]
]

-- A word of `n` bits with no highest bit is zero.
pub top_bit_zero : (n word : ℕ) → word < 2 ^ n → top_bit n word ≡ 0 → word ≡ 0
unfolding top_bit
top_bit_zero zero word h e = omega arith
top_bit_zero (suc n) word h e = elim (Bool-cases (testbit word n)) [
  | inl b ↦ absurd (omega (arith, rw b at e))
  | inr b ↦ top_bit_zero n word (lt-pow_of_clear n word h b) (rw b at e)
]
