-- ===== src/Streamer/Ring/Reads.antt =====
-- A read of lib/streamer/streamer.cpp takes bytes from the front.
use mark.Prelude.{
  Bool-cases, ℕ, suc, ◌+◌, ◌-◌, ◌%◌, ◌^◌, ◌≤◌, ◌<◌, ◌≡◌, refl, sym, ap, ◌∙◌, ◌⊎◌, ◌↔◌, inl, inr,
  false, Option, none, some, List, [], ◌∷◌, ◌++◌, arith, ◌==◌, ltb, opt_eq, if◌then◌else◌, min,
  place, tabulate, tabulate-same, tabulate-append, if_true, if_false,
}
use mark.Streamer.{Streamer}
use mark.Streamer.Bytes.{advance, read, lock, unlock}
use mark.Streamer.Blocks.{Transfer, sub16, skip, begin_read, copy_out, end_read, read_many}
use mark.Streamer.Ring.{used, first, contents, IsRing}
use mark.Streamer.Ring.Copies.{copy_out-inside, copy_out-outside}
use mark.Streamer.Ring.Writes.{skipped, advance-place, opt_eq-eq, opt_eq_of}

-- How many bytes a read of `len` bytes takes.
abbrev pub ready_for : ℕ → Streamer → ℕ
ready_for len s =
    let allocated = sub16 s.size s.avail in if ltb len allocated then len else allocated

later :
    (size t t' k i : ℕ)
    → t < size
    → k + i ≤ size
    → t' ≡ place size t k
    → place size t (k + i) ≡ place size t' i
later size t t' k i t_in h e = ground (arith, e)

module _ (s : Streamer) (r : IsRing s) (bytes : ℕ → ℕ) (len : ℕ) where
  abbrev plan : Transfer
  plan = record { count = ready_for len s; pre_wrap = sub16 s.size s.tail; start = s.tail }

  plan_rest : plan.pre_wrap ≡ s.size - s.tail
  plan_rest = omega (arith, r.tail_in, r.size_in)

  allocated : sub16 s.size s.avail ≡ used s
  allocated = omega (arith, r.avail_in, r.size_in)

  plan_fits : plan.count ≤ used s
  plan_fits = ground (arith, allocated)

  abbrev after_read : Streamer
  after_read = record s {
    lock_addr = none;
    avail = (s.avail + ready_for len s) % 2 ^ 16;
    tail = skip s.size s.tail plan;
  }

  abbrev bytes_after : ℕ → ℕ
  bytes_after = if sub16 s.size s.avail == 0 then bytes else copy_out plan s.buffer bytes

  read_many-after_read :
      s.lock_addr ≡ none → read_many bytes len s ≡ (ready_for len s, bytes_after, after_read)
  unfolding read_many begin_read end_read lock unlock
  read_many-after_read free = rw free refl

  avail_after : (s.avail + ready_for len s) % 2 ^ 16 ≡ s.avail + ready_for len s
  avail_after = omega (arith, plan_fits, r.avail_in, r.size_in)

  used_after : used s ≡ ready_for len s + used after_read
  used_after = omega (arith, avail_after, plan_fits, r.avail_in)

  tail_after :
      (skip s.size s.tail plan ≤ s.size)
      × (first s.size (skip s.size s.tail plan)
          ≡ place s.size (first s.size s.tail) (ready_for len s))
  tail_after = skipped s.size s.tail plan plan_rest (omega (arith, plan_fits)) r.tail_in r.size_in

  -- The slots from the new tail on are those behind the bytes that were read.
  later_slot :
      (i : ℕ)
      → ready_for len s + i ≤ used s
      → place s.size (first s.size s.tail) (ready_for len s + i)
        ≡ place s.size (first s.size (skip s.size s.tail plan)) i
  later_slot i h =
      later s.size (first s.size s.tail) (first s.size (skip s.size s.tail plan)) (ready_for len s)
        i (ground (arith, r.tail_in, r.size_pos)) (omega arith) tail_after.1

  after_read-IsRing : IsRing after_read
  after_read-IsRing = record {
    size_pos = r.size_pos;
    size_in = r.size_in;
    avail_in = omega (arith, avail_after, plan_fits, r.avail_in);
    head_in = r.head_in;
    tail_in = tail_after.0;
    reaches =
        r.reaches
        ∙ ap (place s.size (first s.size s.tail)) used_after
        ∙ later_slot (used after_read) (omega (arith, used_after));
  }

  byte_read :
      (i : ℕ)
      → i < ready_for len s
      → bytes_after i ≡ s.buffer (place s.size (first s.size s.tail) i)
  byte_read i h =
      let some_used : (sub16 s.size s.avail == 0) ≡ false = ground (arith, plan_fits, allocated) in
      ap (λ (b : ℕ → ℕ). b i) (if_false bytes (copy_out plan s.buffer bytes) some_used)
      ∙ copy_out-inside s.size plan r.tail_in plan_rest (omega (arith, plan_fits)) s.buffer bytes i
          h

  bytes_behind : (i : ℕ) → ready_for len s ≤ i → bytes_after i ≡ bytes i
  bytes_behind i h =
      let kept =
        copy_out-outside s.size plan r.tail_in plan_rest (omega (arith, plan_fits)) s.buffer bytes i
          h in
      ground (arith, kept)

  contents-after_read : contents s ≡ tabulate (ready_for len s) bytes_after ++ contents after_read
  unfolding contents
  contents-after_read =
      let slot : ℕ → ℕ = place s.size (first s.size s.tail) in
      let f : ℕ → ℕ = λ i. s.buffer (slot i) in
      let n = ready_for len s in
      let rest : tabulate (used after_read) (λ i. f (n + i)) ≡ contents after_read =
        tabulate-same (used after_read) (λ i. f (n + i)) _
          (λ i h. ap s.buffer (later_slot i (omega (arith, used_after)))) in
      let taken : tabulate n f ≡ tabulate n bytes_after =
        tabulate-same n f bytes_after (λ i h. sym (byte_read i h)) in
      ap (λ k. tabulate k f) used_after
      ∙ tabulate-append n (used after_read) f
      ∙ ap (λ xs. tabulate n f ++ xs) rest
      ∙ ap (λ xs. xs ++ contents after_read) taken

-- A read of many bytes from a ring that is not locked takes as many of them from the front as there
-- are, in order, says how many, writes no other byte of the array, and leaves a ring that is not
-- locked.
pub read_many-takes :
    (s : Streamer) (bytes : ℕ → ℕ) (len : ℕ)
    → IsRing s
    → s.lock_addr ≡ none
    → (bytes' : ℕ → ℕ) × (s' : Streamer) × (read_many bytes len s ≡ (min len (used s), bytes', s'))
      × (contents s ≡ tabulate (min len (used s)) bytes' ++ contents s')
      × ((i : ℕ) → min len (used s) ≤ i → bytes' i ≡ bytes i)
      × IsRing s'
      × (s'.lock_addr ≡ none)
read_many-takes s bytes len r free =
    let least : ready_for len s ≡ min len (used s) = ground (arith, allocated s r bytes len) in
    let out = bytes_after s r bytes len in
    let s' = after_read s r bytes len in
    (
      out,
      s',
      read_many-after_read s r bytes len free ∙ ap (λ (n : ℕ). (n, out, s')) least,
      contents-after_read s r bytes len ∙ ap (λ n. tabulate n out ++ contents s') least,
      λ i h. bytes_behind s r bytes len i (omega (arith, least)),
      after_read-IsRing s r bytes len,
      refl,
    )

module _ (s : Streamer) (r : IsRing s) (inside : s.tail < s.size) (some_used : 0 < used s) where
  abbrev pub after_byte : Streamer
  after_byte = record s { tail = advance s.size s.tail; avail = (s.avail + 1) % 2 ^ 16 }

  one_fewer : used s ≡ 1 + used after_byte
  one_fewer = omega (arith, r.avail_in, r.size_in)

  at_tail : first s.size s.tail ≡ s.tail
  at_tail = ground arith

  stepped : (advance s.size s.tail < s.size) × (advance s.size s.tail ≡ place s.size s.tail 1)
  stepped = advance-place s.size s.tail inside r.size_in

  later_byte :
      (i : ℕ)
      → 1 + i ≤ used s
      → place s.size (first s.size s.tail) (1 + i)
        ≡ place s.size (first s.size (advance s.size s.tail)) i
  later_byte i h =
      later s.size (first s.size s.tail) (first s.size (advance s.size s.tail)) 1 i
        (ground (arith, at_tail)) (omega arith) (ground (arith, stepped, at_tail))

  after_byte-IsRing : IsRing after_byte
  after_byte-IsRing = record {
    size_pos = r.size_pos;
    size_in = r.size_in;
    avail_in = omega (arith, r.avail_in, r.size_in);
    head_in = r.head_in;
    tail_in = omega (arith, stepped);
    reaches =
        r.reaches
        ∙ ap (place s.size (first s.size s.tail)) one_fewer
        ∙ later_byte (used after_byte) (omega (arith, one_fewer));
  }

  pub contents-after_byte : contents s ≡ s.buffer s.tail ∷ contents after_byte
  unfolding contents tabulate
  contents-after_byte =
      let slot : ℕ → ℕ = place s.size (first s.size s.tail) in
      let f : ℕ → ℕ = λ i. s.buffer (slot i) in
      let zeroth : slot 0 ≡ s.tail = ground (arith, at_tail) in
      let rest : tabulate (used after_byte) (λ i. f (suc i)) ≡ contents after_byte =
        tabulate-same (used after_byte) (λ i. f (suc i)) _
          (λ i h. ap s.buffer (ap slot (omega arith) ∙ later_byte i (omega (arith, one_fewer)))) in
      let fewer : used s ≡ suc (used after_byte) = omega (arith, one_fewer) in
      ap (λ k. tabulate k f) fewer
      ∙ ap (λ xs. s.buffer (slot 0) ∷ xs) rest
      ∙ ap (λ i. s.buffer i ∷ contents after_byte) zeroth

-- The bytes that a read of one byte gives.
abbrev pub as_list : Option ℕ → List ℕ
as_list none = []
as_list (some b) = b ∷ []

-- A read of one byte fails just when there is none or its slot is locked, and takes the first byte
-- otherwise; it leaves a ring, where the tail is an index of the buffer.
pub read-takes :
    (s : Streamer)
    → IsRing s
    → s.tail < s.size
    → (((read s).0 ≡ none) ↔ ((used s ≡ 0) ⊎ (s.lock_addr ≡ some s.tail)))
      × (contents s ≡ as_list (read s).0 ++ contents (read s).1)
      × IsRing (read s).1
unfolding read
read-takes s r inside = elim (Bool-cases (s.avail == s.size)) [
  | inl empty ↦
      let fails : read s ≡ (none, s) = if_true _ _ empty in
      rw fails ((λ _. inl (ground (arith, empty)), λ _. refl), refl, r)
  | inr some_byte ↦ elim (Bool-cases (opt_eq (some s.tail) s.lock_addr)) [
    | inl locked ↦
        let fails : read s ≡ (none, s) = if_false _ _ some_byte ∙ if_true _ _ locked in
        let is_locked : s.lock_addr ≡ some s.tail =
          sym (opt_eq-eq (some s.tail) s.lock_addr locked) in
        rw fails ((λ _. inr is_locked, λ _. refl), refl, r)
    | inr free ↦
        let some_used : 0 < used s = ground (arith, r.avail_in) in
        let result : read s ≡ (some (s.buffer s.tail), after_byte s r inside some_used) =
          if_false _ _ some_byte ∙ if_false _ _ free in
        rw result (
          (
            λ e. absurd (ground (arith, e)),
            λ e. absurd (ground (arith, e, some_used, opt_eq_of (some s.tail) s.lock_addr, free)),
          ),
          contents-after_byte s r inside some_used,
          after_byte-IsRing s r inside some_used,
        )
  ]
]
