-- ===== src/Streamer/Ring/Locked.antt =====
-- The lock of lib/streamer/streamer.cpp: an interrupt that reads between the two critical sections of
-- a write of many bytes.
use mark.Prelude.{
  ℕ, ◌<◌, ◌≡◌, sym, ap, ◌∙◌, inl, inr, false, none, some, List, ◌∷◌, ◌++◌, ◌⊎◌, arith, place,
  opt_eq,
}
use mark.Streamer.{Streamer}
use mark.Streamer.Bytes.{read, lock}
use mark.Streamer.Blocks.{begin_write}
use mark.Streamer.Ring.{used, first, contents, IsRing}
use mark.Streamer.Ring.Reads.{as_list, after_byte, contents-after_byte}

-- The state between the critical sections of a write, where the slots have come to hold `now`.
abbrev pub between : ℕ → (ℕ → ℕ) → Streamer → Streamer
between len now s = record (begin_write len s).1 { buffer = now }

read-cases :
    (s : Streamer)
    → ((read s).0 ≡ none)
      ⊎ (((read s).0 ≡ some (s.buffer s.tail)) × (opt_eq (some s.tail) s.lock_addr ≡ false))
unfolding read
read-cases s = ground arith

bytes_there :
    (s : Streamer)
    → IsRing s
    → s.head < s.size
    → s.tail < s.size
    → opt_eq (some s.tail) (some s.head) ≡ false
    → 0 < used s
bytes_there s r head_in tail_in free = ground (arith, r.reaches, r.avail_in, free)

-- While a write of many bytes copies them, and the slots of the bytes that were there before hold
-- them still, a read of one byte fails or takes the first of those bytes, where the indices of the
-- ring lie in the buffer: it gives none of the bytes that are being written.
pub read-between :
    (s : Streamer) (now : ℕ → ℕ) (len : ℕ)
    → IsRing s
    → s.head < s.size
    → s.tail < s.size
    → ((i : ℕ)
        → i < used s
        → now (place s.size (first s.size s.tail) i)
          ≡ s.buffer (place s.size (first s.size s.tail) i))
    → (rest : List ℕ) × (contents s ≡ as_list (read (between len now s)).0 ++ rest)
unfolding begin_write lock
read-between s now len r head_in tail_in kept =
    let s' = between len now s in
    elim (read-cases s') [
      | inl fails ↦ (contents s, ap (λ b. as_list b ++ contents s) (sym fails))
      | inr (gives, free) ↦
          let some_used : 0 < used s = bytes_there s r head_in tail_in free in
          let at_tail : place s.size (first s.size s.tail) 0 ≡ s.tail = ground arith in
          let own : now s.tail ≡ s.buffer s.tail =
            ap now (sym at_tail) ∙ kept 0 some_used ∙ ap s.buffer at_tail in
          (
            contents (after_byte s r tail_in some_used),
            contents-after_byte s r tail_in some_used
                ∙ ap (λ b. b ∷ contents (after_byte s r tail_in some_used)) (sym own)
                ∙ ap (λ b. as_list b ++ contents (after_byte s r tail_in some_used)) (sym gives),
          )
    ]
