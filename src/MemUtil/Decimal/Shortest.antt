-- ===== src/MemUtil/Decimal/Shortest.antt =====
-- What DecimalToString of lib/memutil/memutil.cpp prints, and how many digits.
use mark.Prelude.{ℕ, ◌+◌, ◌-◌, ◌^◌, ◌≤◌, ◌<◌, ◌≡◌, ◌⊎◌, ◌↔◌, arith}
use mark.MemUtil.Decimal.{Width, w8, w16, w32, w64, bits, grow, digit_count, decimal_to_string}
use mark.MemUtil.Memory.{Memory}
use mark.MemUtil.Memory.Blocks.{SameOutside}
use mark.MemUtil.Strings.Texts.{IsString}
use mark.MemUtil.Decimal.RoundTrip.{IsDigit, read_digits, decimal_to_string-reads}

-- From this value on, the power of ten has wrapped around to one that the value is not below.
abbrev pub first_wrapped : Width → ℕ
first_wrapped w8 = 2 ^ 8
first_wrapped w16 = 2 ^ 16
first_wrapped w32 = 1_410_065_408
first_wrapped w64 = 10 ^ 19

abbrev pub IsShortest : ℕ → ℕ → Type 0
IsShortest n v = (n ≡ 1) ⊎ (10 ^ (n - 1) ≤ v)

-- The digits begin with a superfluous zero just from 1410065408 = 10^10 % 2^32 on for 32 bits and
-- from 10^19 on for 64 bits, and never for 8 and 16 bits; there are never more than 21.
pub digit_count-IsShortest :
    (w : Width) (v : ℕ)
    → v < 2 ^ bits w
    → (IsShortest (digit_count w v) v ↔ (v < first_wrapped w)) × (digit_count w v ≤ 21)
unfolding digit_count grow
digit_count-IsShortest w8 v h = ground arith
digit_count-IsShortest w16 v h = ground arith
digit_count-IsShortest w32 v h = ground arith
digit_count-IsShortest w64 v h = ground arith

-- Each overload of `decimal_to_string` prints the characters 0 to 9 that read as its argument, and a
-- zero behind them, and writes nowhere else. There are at most 21 digits, and they begin with no
-- superfluous zero just when the argument is below 1410065408 = 10^10 % 2^32 for 32 bits or below
-- 10^19 for 64 bits, and always for 8 and 16 bits.
pub decimal_to_string-decimal :
    (w : Width) (v text : ℕ) (m : Memory)
    → v < 2 ^ bits w
    → (read_digits text (digit_count w v) (decimal_to_string w v text m) ≡ v)
      × IsString (decimal_to_string w v text m) text (digit_count w v)
      × SameOutside text (digit_count w v + 1) m (decimal_to_string w v text m)
      × (IsShortest (digit_count w v) v ↔ (v < first_wrapped w))
      × (digit_count w v ≤ 21)
      × ((i : ℕ) → i < digit_count w v → IsDigit (decimal_to_string w v text m (text + i)))
decimal_to_string-decimal w v text m h =
    let (reads, ended, outside, digits) = decimal_to_string-reads w v text m h in
    let (shortest, few) = digit_count-IsShortest w v h in
    (reads, ended, outside, shortest, few, digits)
