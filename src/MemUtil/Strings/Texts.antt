-- ===== src/MemUtil/Strings/Texts.antt =====
-- What StringLength, CompareStrings and CopyString of lib/memutil/memutil.cpp do to strings.
use mark.Prelude.{
  ℕ, zero, suc, ◌+◌, ◌%◌, ◌^◌, ◌≤◌, ◌<◌, ◌≡◌, ◌≢◌, refl, ap, ◌∙◌, ◌⊎◌, ◌↔◌, inl, inr, Bool, true,
  false, ◌&&◌, some, List, [], ◌∷◌, arith, update, ◌==◌, ℕ-cases,
}
use mark.MemUtil.Memory.{Memory, copy_memory}
use mark.MemUtil.Strings.{length_from, string_length, compare_strings, copy_string}

-- At `at` stand `n` characters, none of them zero, and then a zero.
pub data IsString (m : Memory) : ℕ → ℕ → Type 0 where
  ends : {at : ℕ} → m at ≡ 0 → IsString m at 0
  char : {at n : ℕ} → m at ≢ 0 → IsString m (at + 1) n → IsString m at (suc n)

-- No character is zero, and the end is.
pub char_of : {m : Memory} {at n : ℕ} (i : ℕ) → IsString m at n → i < n → m (at + i) ≢ 0
char_of i (ends e) h = absurd (omega arith)
char_of {m} {at} i (char ne s) h = elim (ℕ-cases i) [
  | inl e ↦ let here : at + i ≡ at = omega arith in rw here ne
  | inr (j, e) ↦
      let there : at + i ≡ at + 1 + j = omega arith in rw there (char_of j s (omega arith))
]

pub end_of : {m : Memory} {at n : ℕ} → IsString m at n → m (at + n) ≡ 0
end_of {m} {at} (ends e) = ap m (omega arith) ∙ e
end_of {m} {at} (char {n} ne s) =
    let shift : at + suc n ≡ at + 1 + n = omega arith in ap m shift ∙ end_of s

-- The characters of a string.
unfoldable pub text : ℕ → ℕ → Memory → List ℕ
text at zero m = []
text at (suc n) m = m at ∷ text (at + 1) n m

length_from-counts :
    (fuel at n len : ℕ) (m : Memory)
    → IsString m at n
    → n < fuel
    → len < 2 ^ 16
    → length_from fuel at len m ≡ some ((len + n) % 2 ^ 16)
unfolding length_from
length_from-counts zero at n len m s h w = absurd (omega arith)
length_from-counts (suc fuel) at zero len m (ends e) h w = ground (arith, e)
length_from-counts (suc fuel) at (suc n) len m (char ne s) h w =
    let ih =
      length_from-counts fuel (at + 1) n ((len + 1) % 2 ^ 16) m s (omega arith) (omega arith) in
    let same : ((len + 1) % 2 ^ 16 + n) % 2 ^ 16 ≡ (len + suc n) % 2 ^ 16 = omega arith in
    ground (arith, ih, same)

-- With more fuel than the string has characters, `string_length` is their number modulo 2^16.
pub string_length-counts :
    (fuel at n : ℕ) (m : Memory)
    → IsString m at n
    → n < fuel
    → string_length fuel at m ≡ some (n % 2 ^ 16)
unfolding string_length
string_length-counts fuel at n m s h =
    length_from-counts fuel at n 0 m s h (omega arith) ∙ ap (λ k. some (k % 2 ^ 16)) (omega arith)

-- Whether two lists of characters are the same.
unfoldable pub same_text : List ℕ → List ℕ → Bool
same_text [] [] = true
same_text [] (y ∷ ys) = false
same_text (x ∷ xs) [] = false
same_text (x ∷ xs) (y ∷ ys) = (x == y) && same_text xs ys

same_text_iff : (xs ys : List ℕ) → (same_text xs ys ≡ true) ↔ (xs ≡ ys)
unfolding same_text
same_text_iff [] [] = (λ e. refl, λ e. refl)
same_text_iff [] (y ∷ ys) = ground arith
same_text_iff (x ∷ xs) [] = ground arith
same_text_iff (x ∷ xs) (y ∷ ys) = ground (arith, same_text_iff xs ys)

compare_strings-same_text :
    (fuel a b n k : ℕ) (m : Memory)
    → IsString m a n
    → IsString m b k
    → n < fuel
    → compare_strings fuel a b m ≡ some (same_text (text a n m) (text b k m))
unfolding compare_strings text same_text
compare_strings-same_text zero a b n k m sa sb h = absurd (omega arith)
compare_strings-same_text (suc fuel) a b zero zero m (ends ea) (ends eb) h = ground (arith, ea, eb)
compare_strings-same_text (suc fuel) a b zero (suc k) m (ends ea) (char nb sb) h =
    ground (arith, ea, nb)
compare_strings-same_text (suc fuel) a b (suc n) zero m (char na sa) (ends eb) h =
    ground (arith, na, eb)
compare_strings-same_text (suc fuel) a b (suc n) (suc k) m (char na sa) (char nb sb) h =
    let ih = compare_strings-same_text fuel (a + 1) (b + 1) n k m sa sb (omega arith) in
    ground (arith, na, nb, ih)

-- With more fuel than the first string has characters, `compare_strings` returns, and returns true
-- just when the two strings hold the same characters.
pub compare_strings-text :
    (fuel a b n k : ℕ) (m : Memory)
    → IsString m a n
    → IsString m b k
    → n < fuel
    → (same : Bool) × (compare_strings fuel a b m ≡ some same)
      × ((same ≡ true) ↔ (text a n m ≡ text b k m))
compare_strings-text fuel a b n k m sa sb h = (
  same_text (text a n m) (text b k m),
  compare_strings-same_text fuel a b n k m sa sb h,
  same_text_iff (text a n m) (text b k m),
)

-- A write beside a string leaves it a string.
IsString-update :
    {m : Memory} {at n : ℕ} (p v : ℕ)
    → IsString m at n
    → (p < at) ⊎ (at + n < p)
    → IsString (update m p v) at n
IsString-update p v (ends e) out = ends (ground (arith, e))
IsString-update p v (char ne s) out =
    char (ground (arith, ne)) (IsString-update p v s (ground arith))

-- With more fuel than the string has characters, where the destination is not above the source or is
-- behind its zero, `copy_string` does what `copy_memory` of its characters does: the zero that ends
-- the string is not copied.
pub copy_string-copy_memory :
    (fuel dst src n : ℕ) (m : Memory)
    → IsString m src n
    → n < fuel
    → (dst ≤ src) ⊎ (src + n < dst)
    → copy_string fuel dst src m ≡ some (copy_memory dst src n m)
unfolding copy_string copy_memory
copy_string-copy_memory zero dst src n m s h apart = absurd (omega arith)
copy_string-copy_memory (suc fuel) dst src zero m (ends e) h apart = ground (arith, e)
copy_string-copy_memory (suc fuel) dst src (suc n) m (char ne s) h apart =
    let m' : Memory = update m dst (m src) in
    let s' : IsString m' (src + 1) n = IsString-update dst (m src) s (ground arith) in
    let ih =
      copy_string-copy_memory fuel (dst + 1) (src + 1) n m' s' (omega arith) (ground arith) in
    ground (arith, ne, ih)
