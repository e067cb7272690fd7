-- ===== src/Streamer/Tests.antt =====
-- Runs of lib/streamer on small rings.
use mark.Prelude.{
  ℕ, ◌+◌, ◌≤◌, ◌<◌, ◌≡◌, ◌≢◌, refl, ◌⊎◌, ◌↔◌, Bool, none, some, List, [], ◌∷◌, ◌++◌, arith, min,
  get_or, tabulate, if◌then◌else◌,
}
use mark.Streamer.{Streamer, init}
use mark.Streamer.Bytes.{read, write, claim, can_read, can_write, is_empty}
use mark.Streamer.Blocks.{write_many, read_many}
use mark.Streamer.Ring.{used, contents, IsRing}
use mark.Streamer.Ring.Writes.{write_many-appends}
use mark.Streamer.Ring.Reads.{read_many-takes, as_list}
use mark.Streamer.Ring.Singles.{one_byte}
use mark.Streamer.Ring.Locked.{between, read-between}

abbrev blank : ℕ → ℕ
blank i = 0

abbrev letters : ℕ → ℕ
letters i = 97 + i

-- A ring of four slots that holds two bytes, from its last slot on.
abbrev two_bytes : Streamer
two_bytes = record {
  buffer = λ i. get_or (5 ∷ 0 ∷ 0 ∷ 4 ∷ []) i 0;
  lock_addr = none;
  size = 4;
  avail = 2;
  head = 1;
  tail = 3;
}

two_bytes-IsRing : IsRing two_bytes
two_bytes-IsRing = record {
  size_pos = omega arith;
  size_in = omega arith;
  avail_in = omega arith;
  head_in = omega arith;
  tail_in = omega arith;
  reaches = refl;
}

contents-two_bytes : contents two_bytes ≡ 4 ∷ 5 ∷ []
unfolding contents
contents-two_bytes = refl

write_many-appends_example :
    (s' : Streamer) × (write_many letters 7 two_bytes ≡ (min 7 2, s'))
    × (contents s' ≡ contents two_bytes ++ tabulate (min 7 2) letters)
    × IsRing s'
    × (s'.lock_addr ≡ none)
write_many-appends_example = write_many-appends two_bytes letters 7 two_bytes-IsRing refl

read_many-takes_example :
    (bytes' : ℕ → ℕ) × (s' : Streamer) × (read_many blank 7 two_bytes
      ≡ (min 7 (used two_bytes), bytes', s'))
    × (contents two_bytes ≡ tabulate (min 7 (used two_bytes)) bytes' ++ contents s')
    × ((i : ℕ) → min 7 (used two_bytes) ≤ i → bytes' i ≡ blank i)
    × IsRing s'
    × (s'.lock_addr ≡ none)
read_many-takes_example = read_many-takes two_bytes blank 7 two_bytes-IsRing refl

one_byte_example :
    ((((write 9 two_bytes).0 ≡ Bool.true) ↔ ((0 < 2) × (two_bytes.lock_addr ≢ some 1)))
      × (contents (write 9 two_bytes).1
          ≡ (if (write 9 two_bytes).0 then contents two_bytes ++ (9 ∷ []) else contents two_bytes))
      × IsRing (write 9 two_bytes).1)
    × ((((read two_bytes).0 ≡ none) ↔ ((used two_bytes ≡ 0) ⊎ (two_bytes.lock_addr ≡ some 3)))
        × (contents two_bytes ≡ as_list (read two_bytes).0 ++ contents (read two_bytes).1)
        × IsRing (read two_bytes).1)
one_byte_example = one_byte two_bytes 9 two_bytes-IsRing (omega arith) (omega arith)

read-between_example :
    (rest : List ℕ) × (contents two_bytes
      ≡ as_list (read (between 7 two_bytes.buffer two_bytes)).0 ++ rest)
read-between_example =
    read-between two_bytes two_bytes.buffer 7 two_bytes-IsRing (omega arith) (omega arith)
      (λ i h. refl)

-- A write of as many bytes as fit before the end leaves the head at the size, and the next write of
-- one byte goes behind the buffer.
abbrev filled : Streamer
filled = (read (write_many letters 4 (init blank 4)).1).1

filled_head : filled.head ≡ 4
unfolding read write_many init
filled_head = refl

written_behind : (write 7 filled).1.buffer 4 ≡ 7
unfolding read write write_many init
written_behind = refl

-- A claim locks the slot that it takes, and a read stops there.
claim_locks : ((claim (init blank 4)).0 ≡ some 0) × ((read (claim (init blank 4)).1).0 ≡ none)
unfolding claim read init
claim_locks = (refl, refl)

queries :
    (can_read two_bytes ≡ Bool.true)
    × (can_write two_bytes ≡ Bool.true)
    × (is_empty two_bytes ≡ Bool.false)
unfolding can_read can_write is_empty
queries = (refl, refl, refl)
