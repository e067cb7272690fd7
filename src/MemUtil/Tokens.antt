-- ===== src/MemUtil/Tokens.antt =====
-- Tokenize of lib/memutil/memutil.cpp. The indices are bytes, and wrap around.
pub mod Layout
pub mod Separators
pub mod Rounds
use mark.Prelude.{
  ℕ, zero, suc, ◌+◌, ◌-◌, ◌%◌, ◌^◌, Bool, true, false, not, ◌&&◌, Option, none, some, update, ◌==◌,
  leb, if◌then◌else◌,
}
use mark.MemUtil.Memory.{Memory}

-- `Token_t`
pub record Token : Type 0 where
  pub text : ℕ
  pub len : ℕ

abbrev pub next_u8 : ℕ → ℕ
next_u8 i = (i + 1) % 2 ^ 8

-- The variables of the loop, and the array that it fills.
pub record Scan : Type 0 where
  pub i : ℕ
  pub last_arg : ℕ
  pub curr_arg : ℕ
  pub escape : Bool
  pub tokens : ℕ → Token

-- What a round leads to: another one, or the count that is returned with the array.
pub data Outcome : Type 0 where
  again : Scan → Outcome
  returns : ℕ → (ℕ → Token) → Outcome
  stuck : Outcome

unfoldable pub skip_spaces : ℕ → ℕ → ℕ → Memory → Option ℕ
skip_spaces zero buffer i m = none
skip_spaces (suc fuel) buffer i m =
    let rest = skip_spaces fuel buffer (next_u8 i) m in
    if m (buffer + i) == b' ' then rest else some i

-- The token from the last separator to here.
unfoldable pub write_token : ℕ → Scan → ℕ → Token
write_token buffer s =
    update s.tokens s.curr_arg
      (record { text = buffer + s.last_arg; len = (s.i + 2 ^ 8 - s.last_arg) % 2 ^ 8 })

-- What follows the loop.
unfoldable pub finish : ℕ → Scan → Memory → Outcome
unfolding write_token
finish buffer s m =
    if not (s.i == 0) && (m (buffer + s.i) == 0) && not (s.i == s.last_arg)
    then returns (next_u8 s.curr_arg) (write_token buffer s)
    else returns s.curr_arg s.tokens

-- Behind the spaces at `i` the next token begins.
abbrev pub resume : Scan → ℕ → (ℕ → Token) → Option ℕ → Outcome
resume s curr tokens none = stuck
resume s curr tokens (some j) =
    again (record s { i = j; last_arg = j; curr_arg = curr; tokens = tokens })

unfoldable pub separate : ℕ → ℕ → ℕ → Scan → Memory → Outcome
unfolding write_token skip_spaces
separate fuel buffer max s m =
    let curr = next_u8 s.curr_arg in
    if leb max curr
    then returns max (write_token buffer s)
    else resume s curr (write_token buffer s) (skip_spaces fuel buffer (next_u8 s.i) m)

-- A round of the loop, or what follows it.
unfoldable pub round : ℕ → ℕ → ℕ → Scan → Memory → Outcome
unfolding finish separate
round fuel buffer max s m =
    let c = m (buffer + s.i) in
    let next = next_u8 s.i in
    if c == 0
    then finish buffer s m
    else if c == b'"'
    then again (record s { escape = not s.escape; i = next })
    else if c == b'\\'
    then again (record s { i = if not (m (buffer + next) == 0) then next_u8 next else next })
    else if s.escape
    then again (record s { i = next })
    else if not (c == b' ')
    then again (record s { i = next })
    else separate fuel buffer max s m

unfoldable pub tokenize_from : ℕ → ℕ → ℕ → Scan → Memory → Option (ℕ × (ℕ → Token))
unfolding round
tokenize_from zero buffer max s m = none
tokenize_from (suc fuel) buffer max s m = elim (round (suc fuel) buffer max s m) [
  | again s' ↦ tokenize_from fuel buffer max s' m
  | returns count tokens ↦ some (count, tokens)
  | stuck ↦ none
]

unfoldable pub tokenize : ℕ → ℕ → (ℕ → Token) → ℕ → Memory → Option (ℕ × (ℕ → Token))
unfolding tokenize_from
tokenize fuel buffer tokens max m =
    tokenize_from fuel buffer max
      (record { i = 0; last_arg = 0; curr_arg = 0; escape = false; tokens = tokens }) m
