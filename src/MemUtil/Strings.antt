-- ===== src/MemUtil/Strings.antt =====
-- Zero-terminated strings: StringLength, CompareStrings, CopyString and StringSearch of
-- lib/memutil/memutil.cpp. A loop that runs until it meets a zero has fuel, and is `none` without.
pub mod Texts
pub mod Search
use mark.Prelude.{
  ℕ, zero, suc, ◌+◌, ◌-◌, ◌%◌, ◌^◌, Bool, true, false, not, ◌&&◌, ◌||◌, Option, none, some, update,
  ◌==◌, ltb, if◌then◌else◌, ◌>>=◌,
}
use mark.MemUtil.Memory.{Memory}

unfoldable pub length_from : ℕ → ℕ → ℕ → Memory → Option ℕ
length_from zero str len m = none
length_from (suc fuel) str len m =
    let rest = length_from fuel (str + 1) ((len + 1) % 2 ^ 16) m in
    if m str == 0 then some len else rest

unfoldable pub string_length : ℕ → ℕ → Memory → Option ℕ
unfolding length_from
string_length fuel str m = length_from fuel str 0 m

unfoldable pub compare_strings : ℕ → ℕ → ℕ → Memory → Option Bool
compare_strings zero a b m = none
compare_strings (suc fuel) a b m =
    let rest = compare_strings fuel (a + 1) (b + 1) m in
    if not (m a == 0) && not (m b == 0)
    then (if not (m a == m b) then some false else rest)
    else some ((m a == 0) && (m b == 0))

-- The overload with a length, which counts down.
unfoldable pub compare_strings_within : ℕ → ℕ → ℕ → Memory → Bool
compare_strings_within a b zero m = true
compare_strings_within a b (suc len) m =
    let rest = compare_strings_within (a + 1) (b + 1) len m in
    if not (m a == 0) && not (m b == 0)
    then (if not (m a == m b) then false else rest)
    else ((m a == 0) && (m b == 0))

-- The loop ends at the zero, which it does not copy.
unfoldable pub copy_string : ℕ → ℕ → ℕ → Memory → Option Memory
copy_string zero dst src m = none
copy_string (suc fuel) dst src m =
    let rest = copy_string fuel (dst + 1) (src + 1) (update m dst (m src)) in
    if m src == 0 then some m else rest

-- `szBuffer_[i16Idx]` for the bit pattern of an `int16_t`.
abbrev pub at_index : ℕ → ℕ → Memory → ℕ
at_index buffer idx m = if ltb idx (2 ^ 15) then m (buffer + idx) else m (buffer + idx - 2 ^ 16)

-- The inner loop of StringSearch: where it leaves the pattern and the index.
unfoldable pub match_from : ℕ → ℕ → ℕ → ℕ → Memory → Option (ℕ × ℕ)
match_from zero buffer idx pat m = none
match_from (suc fuel) buffer idx pat m =
    let rest = match_from fuel buffer ((idx + 1) % 2 ^ 16) (pat + 1) m in
    if not (m pat == 0) && not (at_index buffer idx m == 0)
    then (if not (m pat == at_index buffer idx m) then some (pat, idx) else rest)
    else some (pat, idx)

-- The bit pattern of -1.
abbrev pub minus_one : ℕ
minus_one = 2 ^ 16 - 1

unfoldable pub search_from : ℕ → ℕ → ℕ → ℕ → Memory → Option ℕ
search_from zero buffer idx pattern_at m = none
search_from (suc fuel) buffer idx pattern_at m =
    if at_index buffer idx m == 0 then some minus_one else do
      (pat, end) ← match_from (suc fuel) buffer idx pattern_at m
      let rest = search_from fuel buffer ((end + 1) % 2 ^ 16) pattern_at m in
          if m pat == 0 then some idx else rest

unfoldable pub string_search : ℕ → ℕ → ℕ → Memory → Option ℕ
unfolding search_from match_from
string_search fuel buffer pattern_at m = search_from fuel buffer 0 pattern_at m
