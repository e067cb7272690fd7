-- ===== src/Streamer/Blocks.antt =====
-- The operations of the class `Streamer` on many bytes (lib/streamer/streamer.cpp). The data are
-- outside of the ring's buffer.
use mark.Prelude.{
  ℕ, zero, suc, ◌+◌, ◌-◌, ◌%◌, ◌^◌, none, some, update, ◌==◌, leb, ltb, if◌then◌else◌,
}
use mark.Streamer.{Streamer}
use mark.Streamer.Bytes.{lock, unlock}

-- `for (...) { *pu8Dst++ = *pu8Src++; }`
unfoldable pub copy_bytes : ℕ → ℕ → ℕ → (ℕ → ℕ) → (ℕ → ℕ) → ℕ → ℕ
copy_bytes zero dst src from to = to
copy_bytes (suc n) dst src from to =
    copy_bytes n (dst + 1) (src + 1) from (update to dst (from src))

-- The local variables that the first section sets: how many bytes to copy, how many of them fit
-- before the end of the buffer, and the index to begin at.
pub record Transfer : Type 0 where
  pub count : ℕ
  pub pre_wrap : ℕ
  pub start : ℕ

abbrev pub sub16 : ℕ → ℕ → ℕ
sub16 a b = (a + 2 ^ 16 - b) % 2 ^ 16

-- The index after a transfer.
abbrev pub skip : ℕ → ℕ → Transfer → ℕ
skip size i t =
    if leb t.count t.pre_wrap
    then (i + t.count) % 2 ^ 16
    else (i + t.count + 2 ^ 16 - size) % 2 ^ 16

unfoldable pub begin_write : ℕ → Streamer → Transfer × Streamer
unfolding lock
begin_write len s =
    let count = if ltb len s.avail then len else s.avail in
    let t : Transfer = record { count = count; pre_wrap = sub16 s.size s.head; start = s.head } in
    (t, lock s.head (record s { avail = sub16 s.avail count; head = skip s.size s.head t }))

-- With interrupts enabled.
unfoldable pub copy_in : (ℕ → ℕ) → Transfer → (ℕ → ℕ) → ℕ → ℕ
unfolding copy_bytes
copy_in bytes t buffer =
    if t.count == 0
    then buffer
    else if leb t.count t.pre_wrap
    then copy_bytes t.count t.start 0 bytes buffer
    else copy_bytes (t.count - t.pre_wrap) 0 t.pre_wrap bytes
        (copy_bytes t.pre_wrap t.start 0 bytes buffer)

unfoldable pub write_many : (ℕ → ℕ) → ℕ → Streamer → ℕ × Streamer
unfolding begin_write copy_in unlock
write_many bytes len s = elim s.lock_addr [
  | some _ ↦ (0, s)
  | none ↦
      let (t, s') = begin_write len s in
      (t.count, unlock (record s' { buffer = copy_in bytes t s'.buffer }))
]

unfoldable pub begin_read : ℕ → Streamer → Transfer × Streamer
unfolding lock
begin_read len s =
    let allocated = sub16 s.size s.avail in
    let count = if ltb len allocated then len else allocated in
    (record { count = count; pre_wrap = sub16 s.size s.tail; start = s.tail }, lock s.tail s)

unfoldable pub copy_out : Transfer → (ℕ → ℕ) → (ℕ → ℕ) → ℕ → ℕ
unfolding copy_bytes
copy_out t buffer bytes =
    if leb t.count t.pre_wrap
    then copy_bytes t.count 0 t.start buffer bytes
    else copy_bytes (t.count - t.pre_wrap) t.pre_wrap 0 buffer
        (copy_bytes t.pre_wrap 0 t.start buffer bytes)

unfoldable pub end_read : Transfer → Streamer → Streamer
unfolding unlock
end_read t s =
    unlock (record s { avail = (s.avail + t.count) % 2 ^ 16; tail = skip s.size s.tail t })

-- The count, the array that was read into, and the stream.
unfoldable pub read_many : (ℕ → ℕ) → ℕ → Streamer → ℕ × (ℕ → ℕ) × Streamer
unfolding begin_read copy_out end_read
read_many bytes len s = elim s.lock_addr [
  | some _ ↦ (0, bytes, s)
  | none ↦
      let (t, s') = begin_read len s in
      (
        t.count,
        if sub16 s.size s.avail == 0 then bytes else copy_out t s'.buffer bytes,
        end_read t s',
      )
]
