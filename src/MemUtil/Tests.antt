-- ===== src/MemUtil/Tests.antt =====
-- Runs of lib/memutil at concrete memories.
use Prim.Native.Char.{code}
use Prim.Native.String.{String}
use mark.Prelude.{
  ℕ, zero, suc, ◌+◌, ◌<◌, ◌≡◌, refl, ◌↔◌, inr, ◌>>=◌, not, ◌&&◌, ◌==◌, ◌≤◌, Bool, some, List, [],
  ◌∷◌, ◌++◌, get_or, arith,
}
use mark.MemUtil.Memory.{Memory, checksum8, copy_memory, set_memory}
use mark.MemUtil.Memory.Blocks.{SameOutside}
use mark.MemUtil.Strings.{
  compare_strings, compare_strings_within, copy_string, string_search, minus_one,
}
use mark.MemUtil.Strings.Texts.{
  IsString, ends, char, text, compare_strings-text, copy_string-copy_memory,
}
use mark.MemUtil.Strings.Search.{Found, string_search-Found}
use mark.MemUtil.Decimal.{w8, w32, digit_count, decimal_to_string}
use mark.MemUtil.Decimal.RoundTrip.{IsDigit, read_digits}
use mark.MemUtil.Decimal.Shortest.{first_wrapped, IsShortest, decimal_to_string-decimal}
use mark.MemUtil.Tokens.{Token, tokenize}
use mark.MemUtil.Tokens.Layout.{Tokenized}
use mark.MemUtil.Tokens.Rounds.{tokenize-Tokenized}

abbrev codes : String → List ℕ
codes String.[] = []
codes (String.◌∷◌ c s) = code c ∷ codes s

-- Bytes from address 0 on, and zeros behind them.
abbrev holding : List ℕ → Memory
holding bytes at = get_or bytes at 0

abbrev reads_string : Memory → ℕ → ℕ → Bool
reads_string m at zero = m at == 0
reads_string m at (suc n) = not (m at == 0) && reads_string m (at + 1) n

checked : {m : Memory} (at n : ℕ) → reads_string m at n ≡ Bool.true → IsString m at n
checked at zero e = ends (ground arith)
checked at (suc n) e = char (ground arith) (checked (at + 1) n (ground arith))

-- "abcd" at 0, with two zeros, and "cd" at 6.
abbrev two_strings : Memory
two_strings = holding (codes "abcd" ++ (0 ∷ 0 ∷ codes "cd"))

-- A comparison of different strings.
compare_runs : compare_strings 9 0 6 two_strings ≡ some Bool.false
unfolding compare_strings
compare_runs = refl

-- The length overload looks at no more characters than it is told to.
within_runs : compare_strings_within 2 6 2 two_strings ≡ Bool.true
unfolding compare_strings_within
within_runs = refl

compare_strings-text_example :
    (same : Bool) × (compare_strings 9 0 6 two_strings ≡ some same)
    × ((same ≡ Bool.true) ↔ (text 0 4 two_strings ≡ text 6 2 two_strings))
compare_strings-text_example =
    compare_strings-text 9 0 6 4 2 two_strings (checked 0 4 refl) (checked 6 2 refl) (omega arith)

copy_string-copy_memory_example :
    copy_string 9 10 6 two_strings ≡ some (copy_memory 10 6 2 two_strings)
copy_string-copy_memory_example =
    copy_string-copy_memory 9 10 6 2 two_strings (checked 6 2 refl) (omega arith)
      (inr (omega arith))

-- The copy of "cd" onto "abcd" reads as "cdcd", for no zero is copied.
copy_string_no_zero :
    (copy_string 9 0 6 two_strings >>= λ m. compare_strings 9 0 6 m) ≡ some Bool.false
unfolding copy_string compare_strings
copy_string_no_zero = refl

-- "aab" at 0, with two zeros, and "ab" at 5.
abbrev repeated : Memory
repeated = holding (codes "aab" ++ (0 ∷ 0 ∷ codes "ab"))

-- The pattern stands at index 1, and is not found.
search_misses : string_search 9 0 5 repeated ≡ some minus_one
unfolding string_search
search_misses = refl

string_search-Found_example :
    (r : ℕ) × (string_search 9 0 6 two_strings ≡ some r) × Found two_strings 0 4 6 2 r
string_search-Found_example =
    string_search-Found 9 0 4 6 2 two_strings (omega arith) refl refl (checked 6 2 refl)
      (omega arith)

decimal_to_string-decimal_example :
    (read_digits 3 (digit_count w8 207) (decimal_to_string w8 207 3 two_strings) ≡ 207)
    × IsString (decimal_to_string w8 207 3 two_strings) 3 (digit_count w8 207)
    × SameOutside 3 (digit_count w8 207 + 1) two_strings (decimal_to_string w8 207 3 two_strings)
    × (IsShortest (digit_count w8 207) 207 ↔ (207 < first_wrapped w8))
    × (digit_count w8 207 ≤ 21)
    × ((i : ℕ) → i < digit_count w8 207 → IsDigit (decimal_to_string w8 207 3 two_strings (3 + i)))
decimal_to_string-decimal_example = decimal_to_string-decimal w8 207 3 two_strings (omega arith)

-- Twelve digits for a number of ten.
wrapped_digits : digit_count w32 4_000_000_000 ≡ 12
unfolding digit_count
wrapped_digits = refl

-- Two words, the second one quoted with a space in it.
abbrev command : Memory
command = holding (codes "go  \"a b\" ")

abbrev no_tokens : ℕ → Token
no_tokens j = record { text = 0; len = 0 }

abbrev first_two : ℕ × (ℕ → Token) → List Token
first_two (count, tokens) = tokens 0 ∷ tokens 1 ∷ []

tokenize_runs :
    (tokenize 20 0 no_tokens 4 command >>= λ r. some (first_two r))
    ≡ some (record { text = 0; len = 2 } ∷ record { text = 4; len = 5 } ∷ [])
unfolding tokenize
tokenize_runs = refl

tokenize-Tokenized_example :
    (r : ℕ × (ℕ → Token)) × (tokenize 20 0 no_tokens 4 command ≡ some r)
    × Tokenized command 0 10 4 no_tokens r
tokenize-Tokenized_example =
    tokenize-Tokenized 20 0 10 4 no_tokens command (omega arith) (checked 0 10 refl) (omega arith)
      (omega arith) (omega arith)

-- Ten bytes of 100, modulo 2^8.
checksum_runs : checksum8 0 10 (set_memory 0 100 10 command) ≡ 232
unfolding checksum8 set_memory
checksum_runs = refl
