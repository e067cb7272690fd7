-- ===== src/Prelude/Bits.antt =====
-- The bits of a machine word: the native `bit_and` and `bit_or` bit by bit, the complement within a
-- width, and the single bits `1 << b`.
use Prim.Native.Nat.{
  ℕ, zero, suc, ◌+◌, ◌-◌, ◌*◌, ◌/◌, ◌%◌, ◌^◌, ◌≤◌, ◌<◌, min, max, bit_and, bit_or, digits,
  bit_and-bitwise, bit_or-bitwise,
}
use mathlib.Core.Path.{◌≡◌, refl, sym, ap, ◌∙◌}
use mathlib.Core.Bool.{Bool, false, not, ◌&&◌, ◌||◌}
use native.Mathlib.Nat.{pow-suc, add-mul-mod_self_left, mod-eq_of_lt, mod-lt, div-add-mod}
use native.Mathlib.Omega.{arith}
use mark.Prelude.Tests.{◌==◌}

-- Bit `i` of `x`.
unfoldable pub testbit : ℕ → ℕ → Bool
testbit x zero = (x % 2) == 1
testbit x (suc i) = testbit (x / 2) i

-- `~x` on a word of `w` bits.
abbrev pub complement : ℕ → ℕ → ℕ
complement w x = 2 ^ w - 1 - x

-- The digits of an operation do not depend on how many rounds are allowed, once there are enough.
enough_rounds :
    (rest : ℕ → ℕ) (op : ℕ → ℕ → ℕ) (x y few many : ℕ)
    → x ≤ few
    → few ≤ many
    → digits rest op few x y ≡ digits rest op many x y
enough_rounds rest op zero y zero zero h k = refl
enough_rounds rest op zero y zero (suc many) h k = refl
enough_rounds rest op zero y (suc few) (suc many) h k = refl
enough_rounds rest op zero y (suc few) zero h k = absurd (omega arith)
enough_rounds rest op (suc x) y zero many h k = absurd (omega arith)
enough_rounds rest op (suc x) y (suc few) zero h k = absurd (omega arith)
enough_rounds rest op (suc x) y (suc few) (suc many) h k =
    ap (λ d. d * 2 + op (suc x % 2) (y % 2))
      (enough_rounds rest op (suc x / 2) (y / 2) few many (omega arith) (omega arith))

pub zero-bit_and : (y : ℕ) → bit_and 0 y ≡ 0
zero-bit_and = bit_and-bitwise 0

zero-bit_or : (y : ℕ) → bit_or 0 y ≡ y
zero-bit_or = bit_or-bitwise 0

pub bit_and_step : (x y : ℕ) → bit_and x y ≡ bit_and (x / 2) (y / 2) * 2 + min (x % 2) (y % 2)
bit_and_step zero y = rw (zero-bit_and y) (omega (arith, zero-bit_and (y / 2)))
bit_and_step (suc x) y =
    let halves =
      enough_rounds (λ d. zero) min (suc x / 2) (y / 2) (suc x / 2) x (omega arith) (omega arith) in
    bit_and-bitwise (suc x) y
    ∙ ap (λ d. d * 2 + min (suc x % 2) (y % 2)) (sym (bit_and-bitwise (suc x / 2) (y / 2) ∙ halves))

pub bit_or_step : (x y : ℕ) → bit_or x y ≡ bit_or (x / 2) (y / 2) * 2 + max (x % 2) (y % 2)
bit_or_step zero y = rw (zero-bit_or y) (omega (arith, zero-bit_or (y / 2)))
bit_or_step (suc x) y =
    let halves =
      enough_rounds (λ d. d) max (suc x / 2) (y / 2) (suc x / 2) x (omega arith) (omega arith) in
    bit_or-bitwise (suc x) y
    ∙ ap (λ d. d * 2 + max (suc x % 2) (y % 2)) (sym (bit_or-bitwise (suc x / 2) (y / 2) ∙ halves))

bit_and_half : (a b : ℕ) → bit_and a b / 2 ≡ bit_and (a / 2) (b / 2)
bit_and_half a b = omega (arith, bit_and_step a b)

bit_or_half : (a b : ℕ) → bit_or a b / 2 ≡ bit_or (a / 2) (b / 2)
bit_or_half a b = omega (arith, bit_or_step a b)

bit_and-le : (bound x y : ℕ) → x ≤ bound → bit_and x y ≤ y
bit_and-le bound zero y h = rw (zero-bit_and y) (omega arith)
bit_and-le zero (suc x) y h = absurd (omega arith)
bit_and-le (suc bound) (suc x) y h =
    let half = bit_and-le bound (suc x / 2) (y / 2) (omega arith) in
    omega (arith, half, bit_and_step (suc x) y)

bit_and-zero : (x : ℕ) → bit_and x 0 ≡ 0
bit_and-zero x = let bound = bit_and-le x x 0 (omega arith) in omega (arith, bound)

pub testbit-bit_and : (a b i : ℕ) → testbit (bit_and a b) i ≡ (testbit a i && testbit b i)
unfolding testbit
testbit-bit_and a b zero = ground (arith, bit_and_step a b)
testbit-bit_and a b (suc i) = rw (bit_and_half a b) (testbit-bit_and (a / 2) (b / 2) i)

pub testbit-bit_or : (a b i : ℕ) → testbit (bit_or a b) i ≡ (testbit a i || testbit b i)
unfolding testbit
testbit-bit_or a b zero = ground (arith, bit_or_step a b)
testbit-bit_or a b (suc i) = rw (bit_or_half a b) (testbit-bit_or (a / 2) (b / 2) i)

pub testbit-zero : (i : ℕ) → testbit 0 i ≡ false
unfolding testbit
testbit-zero zero = refl
testbit-zero (suc i) = testbit-zero i

half_pow : (b : ℕ) → 2 ^ suc b / 2 ≡ 2 ^ b
half_pow b = omega (arith, pow-suc 2 b)

complement_half : (w x : ℕ) → x < 2 ^ suc w → complement (suc w) x / 2 ≡ complement w (x / 2)
complement_half w x h = omega (arith, pow-suc 2 w)

pub testbit-pow : (b i : ℕ) → testbit (2 ^ b) i ≡ (i == b)
unfolding testbit
testbit-pow zero zero = refl
testbit-pow zero (suc i) = ground (arith, testbit-zero i)
testbit-pow (suc b) zero = ground (arith, pow-suc 2 b)
testbit-pow (suc b) (suc i) = rw (half_pow b) (testbit-pow b i ∙ ground arith)

pub testbit-complement :
    (w x i : ℕ) → x < 2 ^ w → i < w → testbit (complement w x) i ≡ not (testbit x i)
unfolding testbit
testbit-complement zero x i h p = absurd (omega arith)
testbit-complement (suc w) x zero h p = ground (arith, pow-suc 2 w)
testbit-complement (suc w) x (suc i) h p =
    rw (complement_half w x h)
      (testbit-complement w (x / 2) i (omega (arith, pow-suc 2 w)) (omega arith))

-- Bits beyond the width of a word are clear.
pub testbit_beyond : (w x i : ℕ) → x < 2 ^ w → w ≤ i → testbit x i ≡ false
unfolding testbit
testbit_beyond zero x i h p = let e : x ≡ 0 = omega arith in rw e (testbit-zero i)
testbit_beyond (suc w) x zero h p = absurd (omega arith)
testbit_beyond (suc w) x (suc i) h p =
    testbit_beyond w (x / 2) i (omega (arith, pow-suc 2 w)) (omega arith)

-- A word below `2 ^ suc n` whose bit `n` is clear lies below `2 ^ n`.
pub lt-pow_of_clear : (n x : ℕ) → x < 2 ^ suc n → testbit x n ≡ false → x < 2 ^ n
unfolding testbit
lt-pow_of_clear zero x h c = ground arith
lt-pow_of_clear (suc n) x h c =
    omega (arith, lt-pow_of_clear n (x / 2) (omega (arith, pow-suc 2 (suc n))) c, pow-suc 2 n)

pub pow-pos : (n : ℕ) → 0 < 2 ^ n
pow-pos zero = omega arith
pow-pos (suc n) = omega (arith, pow-suc 2 n, pow-pos n)

pub bit_and-lt : (w a b : ℕ) → a < 2 ^ w → bit_and a b < 2 ^ w
bit_and-lt zero a b h = let e : a ≡ 0 = omega arith in rw e (rw (zero-bit_and b) (omega arith))
bit_and-lt (suc w) a b h = omega (
  arith,
  bit_and_step a b,
  pow-suc 2 w,
  bit_and-lt w (a / 2) (b / 2) (omega (arith, pow-suc 2 w)),
)

pub bit_or-lt : (w a b : ℕ) → a < 2 ^ w → b < 2 ^ w → bit_or a b < 2 ^ w
bit_or-lt zero a b h k = let e : a ≡ 0 = omega arith in rw e (rw (zero-bit_or b) (omega arith))
bit_or-lt (suc w) a b h k = omega (
  arith,
  bit_or_step a b,
  pow-suc 2 w,
  bit_or-lt w (a / 2) (b / 2) (omega (arith, pow-suc 2 w)) (omega (arith, pow-suc 2 w)),
)

pub pow-lt-pow : (b w : ℕ) → b < w → 2 ^ b < 2 ^ w
pow-lt-pow b zero h = absurd (omega arith)
pow-lt-pow zero (suc w) h = omega (arith, pow-suc 2 w, pow-pos w)
pow-lt-pow (suc b) (suc w) h = omega (arith, pow-suc 2 w, pow-suc 2 b, pow-lt-pow b w (omega arith))

bit_and_comm_fuel : (n a b : ℕ) → a ≤ n → bit_and a b ≡ bit_and b a
bit_and_comm_fuel n zero b h = zero-bit_and b ∙ sym (bit_and-zero b)
bit_and_comm_fuel zero (suc a) b h = absurd (omega arith)
bit_and_comm_fuel (suc n) (suc a) b h = omega (
  arith,
  bit_and_step (suc a) b,
  bit_and_step b (suc a),
  bit_and_comm_fuel n (suc a / 2) (b / 2) (omega arith),
)

pub bit_and_comm : (a b : ℕ) → bit_and a b ≡ bit_and b a
bit_and_comm a b = bit_and_comm_fuel a a b (omega arith)

-- The bit that `a & b` is tested for, where `b` is a single bit.
pub bit_and-pow : (a n : ℕ) → (bit_and a (2 ^ n) == 0) ≡ not (testbit a n)
unfolding testbit
bit_and-pow a zero = ground (arith, bit_and_step a 1, bit_and-zero (a / 2))
bit_and-pow a (suc n) = ground (arith, bit_and_step', pow-suc 2 n, bit_and-pow (a / 2) n)
  where
    bit_and_step' :
        bit_and a (2 ^ suc n) ≡ bit_and (a / 2) (2 ^ n) * 2 + min (a % 2) (2 ^ suc n % 2)
    bit_and_step' = rw (half_pow n) at (bit_and_step a (2 ^ suc n))

mod_two : (n a : ℕ) → a % 2 ^ suc n ≡ (a / 2) % 2 ^ n * 2 + a % 2
mod_two n a =
    ap (λ t. t % 2 ^ suc n) whole
    ∙ add-mul-mod_self_left low (2 ^ suc n) (a / 2 / 2 ^ n)
    ∙ mod-eq_of_lt small
  where
    low : ℕ
    low = a / 2 % 2 ^ n * 2 + a % 2

    small : low < 2 ^ suc n
    small = omega (arith, pow-suc 2 n, mod-lt (a / 2) (pow-pos n))

    whole : a ≡ low + 2 ^ suc n * (a / 2 / 2 ^ n)
    whole = rw (pow-suc 2 n) (omega (arith, div-add-mod (a / 2) (2 ^ n)))

-- Masking with `n` ones is the remainder.
pub bit_and_mask : (n a : ℕ) → bit_and a (2 ^ n - 1) ≡ a % 2 ^ n
bit_and_mask zero a = rw (bit_and-zero a) (omega arith)
bit_and_mask (suc n) a =
    omega (arith, step, pow-suc 2 n, pow-pos n, bit_and_mask n (a / 2), mod_two n a)
  where
    half : (2 ^ suc n - 1) / 2 ≡ 2 ^ n - 1
    half = omega (arith, pow-suc 2 n)

    step :
        bit_and a (2 ^ suc n - 1)
        ≡ bit_and (a / 2) (2 ^ n - 1) * 2 + min (a % 2) ((2 ^ suc n - 1) % 2)
    step = rw half at (bit_and_step a (2 ^ suc n - 1))
