-- ===== src/MemUtil/Memory/Blocks.antt =====
-- What CopyMemory, SetMemory and CompareMemory of lib/memutil/memutil.cpp do to a block of bytes.
use mark.Prelude.{
  ℕ, zero, suc, ◌+◌, ◌≤◌, ◌<◌, ◌≡◌, refl, ap, ◌∙◌, ◌⊎◌, ◌↔◌, inl, inr, true, arith, update, ℕ-cases,
}
use mark.MemUtil.Memory.{Memory, copy_memory, compare_memory, set_memory}

-- The blocks of `n` bytes at `a` and at `b` hold the same bytes.
abbrev pub SameBlock : ℕ → ℕ → ℕ → Memory → Memory → Type 0
SameBlock a b n m m' = (i : ℕ) → i < n → m (a + i) ≡ m' (b + i)

-- Nothing changed outside the `n` bytes at `a`.
abbrev pub SameOutside : ℕ → ℕ → Memory → Memory → Type 0
SameOutside a n m m' = (p : ℕ) → (p < a) ⊎ (a + n ≤ p) → m' p ≡ m p

pub copy_memory-outside :
    (dst src n : ℕ) (m : Memory) → SameOutside dst n m (copy_memory dst src n m)
unfolding copy_memory
copy_memory-outside dst src zero m p out = refl
copy_memory-outside dst src (suc n) m p out =
    copy_memory-outside (dst + 1) (src + 1) n (update m dst (m src)) p (ground arith) ∙ ground arith

-- A statement about the bytes of a block, from the first one and the block behind it.
pub first_and_rest :
    (P : ℕ → ℕ → Type 0) (a b n : ℕ)
    → P a b
    → ((i : ℕ) → i < n → P (a + 1 + i) (b + 1 + i))
    → (i : ℕ) → i < suc n
    → P (a + i) (b + i)
first_and_rest P a b n first rest i h = elim (ℕ-cases i) [
  | inl e ↦
      let ea : a + i ≡ a = omega arith in let eb : b + i ≡ b = omega arith in rw (ea, eb) first
  | inr (j, e) ↦
      let ea : a + i ≡ a + 1 + j = omega arith in
      let eb : b + i ≡ b + 1 + j = omega arith in rw (ea, eb) (rest j (omega arith))
]

pub copy_memory-inside :
    (dst src n : ℕ) (m : Memory)
    → (dst ≤ src) ⊎ (src + n ≤ dst)
    → SameBlock dst src n (copy_memory dst src n m) m
unfolding copy_memory
copy_memory-inside dst src (suc n) m apart =
    let m' : Memory = update m dst (m src) in
    first_and_rest (λ p q. copy_memory (dst + 1) (src + 1) n m' p ≡ m q) dst src n
      (copy_memory-outside (dst + 1) (src + 1) n m' dst (inl (omega arith)) ∙ ground arith)
      (λ i h. copy_memory-inside (dst + 1) (src + 1) n m' (ground arith) i h ∙ ground arith)
copy_memory-inside dst src zero m apart = λ i h. absurd (omega arith)

-- Where the destination is not above the source, or is behind it, `copy_memory` makes the block at
-- the destination what the source was, and changes nothing else.
pub copy_memory-copies :
    (dst src n : ℕ) (m : Memory)
    → (dst ≤ src) ⊎ (src + n ≤ dst)
    → SameBlock dst src n (copy_memory dst src n m) m
      × SameOutside dst n m (copy_memory dst src n m)
copy_memory-copies dst src n m apart =
    (copy_memory-inside dst src n m apart, copy_memory-outside dst src n m)

set_memory-outside : (dst v n : ℕ) (m : Memory) → SameOutside dst n m (set_memory dst v n m)
unfolding set_memory
set_memory-outside dst v zero m p out = refl
set_memory-outside dst v (suc n) m p out =
    set_memory-outside (dst + 1) v n (update m dst v) p (ground arith) ∙ ground arith

set_memory-inside : (dst v n : ℕ) (m : Memory) (i : ℕ) → i < n → set_memory dst v n m (dst + i) ≡ v
unfolding set_memory
set_memory-inside dst v zero m i h = absurd (omega arith)
set_memory-inside dst v (suc n) m i h =
    let m' : Memory = update m dst v in
    first_and_rest (λ p q. set_memory (dst + 1) v n m' p ≡ v) dst dst n
      (set_memory-outside (dst + 1) v n m' dst (inl (omega arith)) ∙ ground arith)
      (λ j k. set_memory-inside (dst + 1) v n m' j k) i h

first_of :
    (a b n : ℕ) (m : Memory)
    → SameBlock a b (suc n) m m
    → (m a ≡ m b) × SameBlock (a + 1) (b + 1) n m m
first_of a b n m s =
    let at : (i j : ℕ) → i ≡ j → m i ≡ m j = λ i j e. ap m e in
    (
      at a (a + 0) (omega arith) ∙ s 0 (omega arith) ∙ at (b + 0) b (omega arith),
      λ i h.
          at (a + 1 + i) (a + suc i) (omega arith)
          ∙ s (suc i) (omega arith)
          ∙ at (b + suc i) (b + 1 + i) (omega arith),
    )

-- `compare_memory` is true just when the two blocks hold the same bytes.
pub compare_memory-same :
    (a b n : ℕ) (m : Memory) → (compare_memory a b n m ≡ true) ↔ SameBlock a b n m m
unfolding compare_memory
compare_memory-same a b zero m = (λ e i h. absurd (omega arith), λ s. refl)
compare_memory-same a b (suc n) m =
    let ih = compare_memory-same (a + 1) (b + 1) n m in
    (
      λ e. first_and_rest (λ p q. m p ≡ m q) a b n (ground arith) (λ i h. ih.0 (ground arith) i h),
      λ s.
          let (first, rest) = first_of a b n m s in
          let equal : compare_memory (a + 1) (b + 1) n m ≡ true = ih.1 rest in
          ground (arith, first, equal),
    )

-- `set_memory` writes its byte to each address of the block, and changes nothing else.
pub set_memory-fills :
    (dst v n : ℕ) (m : Memory)
    → ((i : ℕ) → i < n → set_memory dst v n m (dst + i) ≡ v)
      × SameOutside dst n m (set_memory dst v n m)
set_memory-fills dst v n m = (set_memory-inside dst v n m, set_memory-outside dst v n m)
