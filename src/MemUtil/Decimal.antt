-- ===== src/MemUtil/Decimal.antt =====
-- The four overloads of DecimalToString of lib/memutil/memutil.cpp.
pub mod RoundTrip
pub mod Shortest
use mark.Prelude.{
  ℕ, zero, suc, ◌+◌, ◌*◌, ◌/◌, ◌%◌, ◌^◌, Bool, true, false, ◌&&◌, update, leb, ltb, if◌then◌else◌,
}
use mark.MemUtil.Memory.{Memory}

-- The type of the argument chooses the overload.
pub data Width : Type 0 where
  w8 w16 w32 w64 : Width

abbrev pub bits : Width → ℕ
bits w8 = 8
bits w16 = 16
bits w32 = 32
bits w64 = 64

-- The loop that finds how many digits to print: `max` grows up to `limit`, and the power of ten
-- that it compares with wraps around.
unfoldable pub grow : ℕ → ℕ → ℕ → ℕ → ℕ → ℕ → ℕ
grow w limit zero value max compare = max
grow w limit (suc fuel) value max compare =
    let more = grow w limit fuel value (max + 1) (compare * 10 % 2 ^ w) in
    if leb compare value && ltb max limit then more else max

-- `max` starts at 1, so that `limit` rounds are enough.
unfoldable pub digit_count : Width → ℕ → ℕ
unfolding grow
digit_count w8 value = if leb 100 value then 3 else if leb 10 value then 2 else 1
digit_count w16 value = grow 16 5 5 value 1 10
digit_count w32 value = grow 32 12 12 value 1 10
digit_count w64 value = grow 64 21 21 value 1 10

-- The loop that prints the digits from the last one to the first.
unfoldable pub write_digits : ℕ → ℕ → ℕ → Memory → Memory
write_digits text zero tmp m = m
write_digits text (suc max) tmp m =
    write_digits text max (tmp / 10) (update m (text + max) (b'0' + tmp % 10))

unfoldable pub decimal_to_string : Width → ℕ → ℕ → Memory → Memory
unfolding digit_count write_digits
decimal_to_string w value text m =
    let max = digit_count w value in write_digits text max value (update m (text + max) 0)
