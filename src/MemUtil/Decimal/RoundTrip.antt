-- ===== src/MemUtil/Decimal/RoundTrip.antt =====
-- The text that DecimalToString of lib/memutil/memutil.cpp prints reads as the number.
use mark.Prelude.{
  ℕ, zero, suc, ◌+◌, ◌-◌, ◌*◌, ◌/◌, ◌%◌, ◌^◌, ◌≤◌, ◌<◌, ◌≡◌, refl, sym, ap, ◌∙◌, inr, arith, update,
}
use mark.MemUtil.Memory.{Memory}
use mark.MemUtil.Memory.Blocks.{SameOutside}
use mark.MemUtil.Strings.Texts.{IsString, ends, char}
use mark.MemUtil.Decimal.{
  Width, w8, w16, w32, w64, bits, grow, digit_count, write_digits, decimal_to_string,
}

-- The number that `n` digits at `text` stand for.
unfoldable pub read_digits : ℕ → ℕ → Memory → ℕ
read_digits text zero m = 0
read_digits text (suc n) m = read_digits text n m * 10 + (m (text + n) - b'0')

write_digits-outside : (text n v : ℕ) (m : Memory) → SameOutside text n m (write_digits text n v m)
unfolding write_digits
write_digits-outside text zero v m p out = refl
write_digits-outside text (suc n) v m p out =
    write_digits-outside text n (v / 10) (update m (text + n) (b'0' + v % 10)) p (ground arith)
    ∙ ground arith

read_digits-write_digits :
    (text n v : ℕ) (m : Memory) → v < 10 ^ n → read_digits text n (write_digits text n v m) ≡ v
unfolding read_digits write_digits
read_digits-write_digits text zero v m h = omega arith
read_digits-write_digits text (suc n) v m h =
    let m' : Memory = update m (text + n) (b'0' + v % 10) in
    let ih = read_digits-write_digits text n (v / 10) m' (grind arith) in
    let last : write_digits text n (v / 10) m' (text + n) ≡ b'0' + v % 10 =
      write_digits-outside text n (v / 10) m' (text + n) (inr (omega arith)) ∙ ground arith in
    omega (arith, ih, last)

abbrev pub IsDigit : ℕ → Type 0
IsDigit c = (b'0' ≤ c) × (c ≤ b'9')

write_digits-IsDigit :
    (text n v : ℕ) (m : Memory) (i : ℕ) → i < n → IsDigit (write_digits text n v m (text + i))
unfolding write_digits
write_digits-IsDigit text zero v m i h = absurd (omega arith)
write_digits-IsDigit text (suc n) v m i h =
    let m' : Memory = update m (text + n) (b'0' + v % 10) in
    let last = write_digits-outside text n (v / 10) m' (text + n) (inr (omega arith)) in
    ground (arith, last, write_digits-IsDigit text n (v / 10) m' i)

-- Enough digits for every value of the type.
fits : (w : Width) (v : ℕ) → v < 2 ^ bits w → v < 10 ^ digit_count w v
unfolding digit_count grow
fits w8 v h = ground arith
fits w16 v h = ground arith
fits w32 v h = ground arith
fits w64 v h = ground arith

IsString-digits :
    (m : Memory) (at n : ℕ)
    → ((i : ℕ) → i < n → IsDigit (m (at + i)))
    → m (at + n) ≡ 0
    → IsString m at n
IsString-digits m at zero digit e = ends (ap m (omega arith) ∙ e)
IsString-digits m at (suc n) digit e =
    let here : at + 0 ≡ at = omega arith in
    let shift : (i : ℕ) → at + suc i ≡ at + 1 + i = λ i. omega arith in
    let first : IsDigit (m at) = ap_digit here (digit 0 (omega arith)) in
    char (λ z. ground (arith, first, z))
      (IsString-digits m (at + 1) n (λ i h. ap_digit (shift i) (digit (suc i) (omega arith)))
        (ap m (sym (shift n)) ∙ e))
  where
    ap_digit : {i j : ℕ} → i ≡ j → IsDigit (m i) → IsDigit (m j)
    ap_digit e d = let same = ap m e in ground (arith, same, d)

-- Each overload of `decimal_to_string` prints digits that read as its argument, and a zero behind
-- them, and writes nowhere else.
pub decimal_to_string-reads :
    (w : Width) (v text : ℕ) (m : Memory)
    → v < 2 ^ bits w
    → (read_digits text (digit_count w v) (decimal_to_string w v text m) ≡ v)
      × IsString (decimal_to_string w v text m) text (digit_count w v)
      × SameOutside text (digit_count w v + 1) m (decimal_to_string w v text m)
      × ((i : ℕ) → i < digit_count w v → IsDigit (decimal_to_string w v text m (text + i)))
unfolding decimal_to_string
decimal_to_string-reads w v text m h =
    let n = digit_count w v in
    let m' : Memory = update m (text + n) 0 in
    let behind = write_digits-outside text n v m' in
    (
      read_digits-write_digits text n v m' (fits w v h),
      IsString-digits (write_digits text n v m') text n (write_digits-IsDigit text n v m')
          (behind (text + n) (inr (omega arith)) ∙ ground arith),
      λ p out. behind p (ground arith) ∙ ground arith,
      write_digits-IsDigit text n v m',
    )
