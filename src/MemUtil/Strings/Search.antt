-- ===== src/MemUtil/Strings/Search.antt =====
-- What StringSearch of lib/memutil/memutil.cpp finds.
use mark.Prelude.{
  ℕ, zero, suc, ◌+◌, ◌%◌, ◌^◌, ◌≤◌, ◌<◌, ◌≡◌, ◌≢◌, refl, sym, ap, ◌∙◌, ◌⊎◌, inl, inr, false, some,
  arith, ◌==◌, Bool-cases, dec_lt, if_false,
}
use mark.MemUtil.Memory.{Memory}
use mark.MemUtil.Memory.Blocks.{SameBlock, first_and_rest}
use mark.MemUtil.Strings.{at_index, minus_one, match_from, search_from, string_search}
use mark.MemUtil.Strings.Texts.{IsString, ends, char, char_of}

abbrev Zero : Memory → ℕ → Type 0
Zero m p = m p ≡ 0

-- Only at its end is a string zero.
at_end : {m : Memory} {at n j : ℕ} → IsString m at n → j ≤ n → m (at + j) ≡ 0 → j ≡ n
at_end {n} {j} s h e = elim (dec_lt j n) [ yes l ↦ absurd (char_of j s l e) | no l ↦ omega arith ]

-- Where a search ends: at -1, or at the index of a match inside the `n` bytes at `buffer`.
abbrev pub Found : Memory → ℕ → ℕ → ℕ → ℕ → ℕ → Type 0
Found m buffer n pat k r = (r ≡ minus_one) ⊎ ((r + k ≤ n) × SameBlock (buffer + r) pat k m m)

module _ (buffer n : ℕ) (m : Memory) (short : n + 1 < 2 ^ 15) where
  within : (idx : ℕ) → idx ≤ n + 1 → at_index buffer idx m ≡ m (buffer + idx)
  within idx h = ground arith

  -- The inner loop stops after `j` characters that match, not behind the zero of the buffer.
  match_from-stops :
      (fuel idx pat k : ℕ)
      → Zero m (buffer + n)
      → IsString m pat k
      → idx ≤ n
      → n < idx + fuel
      → (j : ℕ) × (j ≤ k)
        × (idx + j ≤ n)
        × SameBlock (buffer + idx) pat j m m
        × (match_from fuel buffer idx pat m ≡ some (pat + j, idx + j))
  unfolding match_from
  match_from-stops zero idx pat k z s h f = absurd (omega arith)
  match_from-stops (suc fuel) idx pat zero z (ends e) h f =
      (0, omega arith, omega arith, λ i l. absurd (omega arith), ground (arith, e))
  match_from-stops (suc fuel) idx pat (suc k) z (char ne s) h f =
      elim (Bool-cases (m (buffer + idx) == m pat)) [
        | inl same ↦
            let equal : m (buffer + idx) ≡ m pat = ground arith in
            let not_end : idx ≢ n = λ e. ne (sym equal ∙ ap (λ i. m (buffer + i)) e ∙ z) in
            let wrap : (idx + 1) % 2 ^ 16 ≡ idx + 1 = omega arith in
            let (j, j_in, i_in, matches, result) =
              match_from-stops fuel (idx + 1) (pat + 1) k z s (omega arith) (omega arith) in
            let pat_on : pat + 1 + j ≡ pat + suc j = omega arith in
            let idx_on : idx + 1 + j ≡ idx + suc j = omega arith in
            let next : buffer + (idx + 1) ≡ buffer + idx + 1 = omega arith in
            (
              suc j,
              omega arith,
              omega arith,
              first_and_rest (λ p q. m p ≡ m q) (buffer + idx) pat j equal
                  (λ i l. ap (λ b. m (b + i)) (sym next) ∙ matches i l),
              rw wrap (ground (arith, within idx, same, ne, result, pat_on, idx_on)),
            )
        | inr differ ↦
            (0, omega arith, omega arith, λ i l. absurd (omega arith), ground (arith, within idx))
      ]

  not_behind :
      (idx : ℕ)
      → Zero m (buffer + (n + 1))
      → idx ≤ n + 1
      → (at_index buffer idx m == 0) ≡ false
      → idx ≤ n
  not_behind idx z h goes = elim (dec_lt n idx) [
    | yes l ↦
        let last : idx ≡ n + 1 = omega arith in
        let zero_there : m (buffer + idx) ≡ 0 = ap (λ i. m (buffer + i)) last ∙ z in
        absurd (ground (arith, within idx h, zero_there, goes))
    | no l ↦ omega arith
  ]

  search_from-Found :
      (fuel idx pat k : ℕ)
      → Zero m (buffer + n)
      → Zero m (buffer + (n + 1))
      → IsString m pat k
      → idx ≤ n + 1
      → n + 1 < idx + fuel
      → (r : ℕ) × (search_from fuel buffer idx pat m ≡ some r) × Found m buffer n pat k r
  unfolding search_from
  search_from-Found zero idx pat k z z' s h f = absurd (omega arith)
  search_from-Found (suc fuel) idx pat k z z' s h f =
      elim (Bool-cases (at_index buffer idx m == 0)) [
        | inl stops ↦ (minus_one, ground (arith, stops), inl refl)
        | inr goes ↦
            let inside : idx ≤ n = not_behind idx z' h goes in
            let (j, j_in, i_in, matches, result) =
              match_from-stops (suc fuel) idx pat k z s inside (omega arith) in
            let wrap : (idx + j + 1) % 2 ^ 16 ≡ idx + j + 1 = omega arith in
            elim (Bool-cases (m (pat + j) == 0)) [
              | inl whole ↦
                  let ended : j ≡ k = at_end s j_in (ground arith) in
                  (
                    idx,
                    ground (arith, goes, result, whole),
                    inr (omega arith, λ i l. matches i (omega arith)),
                  )
              | inr part ↦
                  let (r, rest, found) =
                    search_from-Found fuel (idx + j + 1) pat k z z' s (omega arith) (omega arith) in
                  (
                    r,
                    rw (if_false _ _ goes, result)
                        (if_false _ _ part ∙ ap (λ i. search_from fuel buffer i pat m) wrap ∙ rest),
                    found,
                  )
            ]
      ]

-- In a buffer of fewer than 2^15 bytes that ends with two zeros, with more fuel than it has bytes,
-- `string_search` returns -1 or the index of a match that lies inside the buffer.
pub string_search-Found :
    (fuel buffer n pat k : ℕ) (m : Memory)
    → n + 1 < 2 ^ 15
    → Zero m (buffer + n)
    → Zero m (buffer + (n + 1))
    → IsString m pat k
    → n + 1 < fuel
    → (r : ℕ) × (string_search fuel buffer pat m ≡ some r) × Found m buffer n pat k r
unfolding string_search
string_search-Found fuel buffer n pat k m short z z' s f =
    search_from-Found buffer n m short fuel 0 pat k z z' s (omega arith) (omega arith)
