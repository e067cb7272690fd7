-- ===== src/MemUtil/Memory/Sums.antt =====
-- The checksums of lib/memutil/memutil.cpp are sums modulo a power of two.
use native.Mathlib.Nat.{mod-add-mod}
use mark.Prelude.{ℕ, zero, suc, ◌+◌, ◌%◌, ◌^◌, ◌≡◌, refl, sym, ap, ◌∙◌, arith}
use mark.MemUtil.Memory.{Memory, sum_from, checksum8, checksum16}

-- The bytes of a block, added up with no limit.
unfoldable pub total : ℕ → ℕ → Memory → ℕ
total at zero m = 0
total at (suc n) m = m at + total (at + 1) n m

sum_from-total :
    (w acc at n : ℕ) (m : Memory)
    → acc % 2 ^ w ≡ acc
    → sum_from w acc at n m ≡ (acc + total at n m) % 2 ^ w
unfolding sum_from total
sum_from-total w acc at zero m h = sym h ∙ ap (λ a. a % 2 ^ w) (omega arith)
sum_from-total w acc at (suc n) m h =
    let same : (acc + m at) % 2 ^ w % 2 ^ w ≡ (acc + m at) % 2 ^ w = grind arith in
    sum_from-total w ((acc + m at) % 2 ^ w) (at + 1) n m same
    ∙ mod-add-mod (acc + m at) (2 ^ w) (total (at + 1) n m)
    ∙ ap (λ a. a % 2 ^ w) (omega arith)

-- Bytes that follow a block add their sum to its own.
total-append : (at n k : ℕ) (m : Memory) → total at (n + k) m ≡ total at n m + total (at + n) k m
unfolding total
total-append at zero k m =
    let none_more : total at (0 + k) m ≡ total at k m = ap (λ i. total at i m) (omega arith) in
    let shift : total at k m ≡ total (at + 0) k m = ap (λ a. total a k m) (omega arith) in
    omega (arith, none_more, shift)
total-append at (suc n) k m =
    let shift : total (at + 1 + n) k m ≡ total (at + suc n) k m =
      ap (λ a. total a k m) (omega arith) in
    let longer : suc n + k ≡ suc (n + k) = omega arith in
    rw longer (omega (arith, total-append (at + 1) n k m, shift))

-- `checksum8` and `checksum16` are the sum of the bytes modulo 2^8 and 2^16, and the checksum of
-- two blocks that follow each other is the sum of their checksums, modulo the same power.
pub checksum-append :
    (at n k : ℕ) (m : Memory)
    → (checksum8 at (n + k) m ≡ (checksum8 at n m + checksum8 (at + n) k m) % 2 ^ 8)
      × (checksum16 at (n + k) m ≡ (checksum16 at n m + checksum16 (at + n) k m) % 2 ^ 16)
      × (checksum8 at n m ≡ checksum16 at n m % 2 ^ 8)
unfolding checksum8 checksum16
checksum-append at n k m =
    let s = λ (w i l : ℕ) (e : 0 % 2 ^ w ≡ 0). sum_from-total w 0 i l m e in
    (
      omega (arith, s 8 at (n + k) refl, s 8 at n refl, s 8 (at + n) k refl, total-append at n k m),
      omega (
        arith,
        s 16 at (n + k) refl,
        s 16 at n refl,
        s 16 (at + n) k refl,
        total-append at n k m,
      ),
      omega (arith, s 8 at n refl, s 16 at n refl),
    )
