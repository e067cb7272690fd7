-- ===== src/Streamer/Ring/Singles.antt =====
-- A write and a read of one byte in lib/streamer/streamer.cpp, on every branch.
use mark.Prelude.{ℕ, ◌≡◌, ◌≢◌, ◌<◌, ◌↔◌, ◌⊎◌, true, none, some, [], ◌∷◌, ◌++◌, if◌then◌else◌}
use mark.Streamer.{Streamer}
use mark.Streamer.Bytes.{read, write}
use mark.Streamer.Ring.{used, contents, IsRing}
use mark.Streamer.Ring.Writes.{write-appends}
use mark.Streamer.Ring.Reads.{read-takes, as_list}

-- In a ring whose indices lie in the buffer, a write of one byte succeeds just when there is room
-- and the next slot is not locked; it puts the byte behind the others if it succeeds and leaves them
-- if it fails. A read of one byte fails just when there is none or its slot is locked, and takes the
-- first byte otherwise. Both leave a ring.
pub one_byte :
    (s : Streamer) (byte : ℕ)
    → IsRing s
    → s.head < s.size
    → s.tail < s.size
    → ((((write byte s).0 ≡ true) ↔ ((0 < s.avail) × (s.lock_addr ≢ some s.head)))
        × (contents (write byte s).1
            ≡ (if (write byte s).0 then contents s ++ (byte ∷ []) else contents s))
        × IsRing (write byte s).1)
      × ((((read s).0 ≡ none) ↔ ((used s ≡ 0) ⊎ (s.lock_addr ≡ some s.tail)))
          × (contents s ≡ as_list (read s).0 ++ contents (read s).1)
          × IsRing (read s).1)
one_byte s byte r head_in tail_in = (write-appends s byte r head_in, read-takes s r tail_in)
