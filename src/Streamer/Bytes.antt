-- ===== src/Streamer/Bytes.antt =====
-- The operations of the class `Streamer` on one byte, and its queries (lib/streamer/streamer.cpp).
use mark.Prelude.{
  ℕ, ◌+◌, ◌-◌, ◌%◌, ◌^◌, Bool, true, false, not, Option, none, some, opt_eq, update, ◌==◌, leb,
  if◌then◌else◌,
}
use mark.Streamer.{Streamer}

-- `m_u16Head++` and the test behind it.
abbrev pub advance : ℕ → ℕ → ℕ
advance size i = if leb size ((i + 1) % 2 ^ 16) then 0 else (i + 1) % 2 ^ 16

-- `m_u16Avail--`
abbrev pub one_less : ℕ → ℕ
one_less n = (n + 2 ^ 16 - 1) % 2 ^ 16

-- The byte that was read, if one was.
unfoldable pub read : Streamer → Option ℕ × Streamer
read s =
    if s.avail == s.size
    then (none, s)
    else if opt_eq (some s.tail) s.lock_addr
    then (none, s)
    else (
      some (s.buffer s.tail),
      record s { tail = advance s.size s.tail; avail = (s.avail + 1) % 2 ^ 16 },
    )

unfoldable pub write : ℕ → Streamer → Bool × Streamer
write byte s =
    if s.avail == 0 then (false, s) else if opt_eq s.lock_addr (some s.head) then (false, s) else (
      true,
      record s {
        buffer = update s.buffer s.head byte;
        head = advance s.size s.head;
        avail = one_less s.avail;
      },
    )

-- The index of the slot that was claimed, if one was.
unfoldable pub claim : Streamer → Option ℕ × Streamer
claim s =
    if s.avail == 0 then (none, s) else if opt_eq s.lock_addr (some s.head) then (none, s) else (
      some s.head,
      record s {
        lock_addr = if opt_eq s.lock_addr none then some s.head else s.lock_addr;
        head = advance s.size s.head;
        avail = one_less s.avail;
      },
    )

unfoldable pub lock : ℕ → Streamer → Streamer
lock addr s = record s { lock_addr = some addr }

unfoldable pub unlock : Streamer → Streamer
unlock s = record s { lock_addr = none }

unfoldable pub can_read : Streamer → Bool
can_read s = not (s.avail == s.size)

unfoldable pub can_write : Streamer → Bool
can_write s = not (s.avail == 0)

unfoldable pub is_empty : Streamer → Bool
is_empty s = s.avail == s.size

-- `GetAvailable` returns the size.
unfoldable pub get_available : Streamer → ℕ
get_available s = s.size
