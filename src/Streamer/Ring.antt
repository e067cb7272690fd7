-- ===== src/Streamer/Ring.antt =====
-- The bytes in the ring of lib/streamer/streamer.cpp as a queue, and when a state is a ring.
pub mod Copies
pub mod Writes
pub mod Reads
pub mod Singles
pub mod Locked
use mark.Prelude.{ℕ, ◌-◌, ◌^◌, ◌≤◌, ◌<◌, ◌≡◌, List, place, tabulate}
use mark.Streamer.{Streamer}

abbrev pub used : Streamer → ℕ
used s = s.size - s.avail

-- An index at the size stands for the first slot.
abbrev pub first : ℕ → ℕ → ℕ
first size i = place size i 0

-- The bytes from the tail to the head.
unfoldable pub contents : Streamer → List ℕ
unfolding tabulate
contents s = tabulate (used s) (λ i. s.buffer (place s.size (first s.size s.tail) i))

pub record IsRing (s : Streamer) : Type 0 where
  pub size_pos : 0 < s.size
  pub size_in : s.size < 2 ^ 16
  pub avail_in : s.avail ≤ s.size
  pub head_in : s.head ≤ s.size
  pub tail_in : s.tail ≤ s.size
  pub reaches : first s.size s.head ≡ place s.size (first s.size s.tail) (used s)
