-- ===== src/Streamer/Ring/Writes.antt =====
-- A write of lib/streamer/streamer.cpp adds bytes behind the others.
use mark.Prelude.{
  Bool-cases, ℕ, suc, ◌+◌, ◌-◌, ◌^◌, ◌≤◌, ◌<◌, ◌≡◌, ◌≢◌, refl, sym, ap, ◌∙◌, ◌↔◌, inl, inr, true,
  false, Option, none, some, [], ◌∷◌, ◌++◌, arith, update, ◌==◌, ltb, opt_eq, if◌then◌else◌, min,
  place, tabulate, tabulate-same, tabulate-append, tabulate-last, if_true, if_false,
}
use mark.Streamer.{Streamer}
use mark.Streamer.Bytes.{advance, one_less, write, lock, unlock}
use mark.Streamer.Blocks.{Transfer, sub16, skip, begin_write, copy_in, write_many}
use mark.Streamer.Ring.{used, first, contents, IsRing}
use mark.Streamer.Ring.Copies.{copy_in-inside, copy_in-outside}

pub opt_eq-eq : (a b : Option ℕ) → opt_eq a b ≡ true → a ≡ b
opt_eq-eq a b e = ground arith

pub opt_eq_of : (a b : Option ℕ) → a ≡ b → opt_eq a b ≡ true
opt_eq_of a b e = ground arith

-- How many bytes a write of `len` bytes takes.
abbrev pub room_for : ℕ → Streamer → ℕ
room_for len s = if ltb len s.avail then len else s.avail

-- The index after a transfer of at most as many bytes as the ring has.
pub skipped :
    (size i : ℕ) (t : Transfer)
    → t.pre_wrap ≡ size - i
    → t.count ≤ size
    → i ≤ size
    → size < 2 ^ 16
    → (skip size i t ≤ size) × (first size (skip size i t) ≡ place size (first size i) t.count)
skipped size i t rest fits i_in size_in = ground arith

module _ (s : Streamer) (r : IsRing s) where
  -- The slots behind the head, and those of the bytes that are in the ring.
  pub next_place :
      (i : ℕ)
      → i ≤ s.avail
      → place s.size (first s.size s.tail) (used s + i) ≡ place s.size (first s.size s.head) i
  next_place i h = ground (arith, r.reaches, r.avail_in, r.tail_in, r.head_in, r.size_pos)

  pub other_slot :
      (i j : ℕ)
      → i < used s
      → j < s.avail
      → place s.size (first s.size s.tail) i ≢ place s.size (first s.size s.head) j
  other_slot i j h l =
      λ e. ground (arith, r.reaches, r.avail_in, r.tail_in, r.head_in, r.size_pos, e)

  pub slot_in : (i : ℕ) → i < used s → place s.size (first s.size s.tail) i < s.size
  slot_in i h = ground (arith, r.tail_in, r.size_pos, r.avail_in)

  module _ (bytes : ℕ → ℕ) (len : ℕ) where
    -- The transfer that `begin_write` plans.
    abbrev plan : Transfer
    plan = record { count = room_for len s; pre_wrap = sub16 s.size s.head; start = s.head }

    plan_rest : plan.pre_wrap ≡ s.size - s.head
    plan_rest = omega (arith, r.head_in, r.size_in)

    abbrev pub after_write : Streamer
    after_write = record s {
      buffer = copy_in bytes plan s.buffer;
      lock_addr = none;
      avail = sub16 s.avail (room_for len s);
      head = skip s.size s.head plan;
    }

    plan_fits : plan.count ≤ s.avail
    plan_fits = ground arith

    write_many-after_write :
        s.lock_addr ≡ none → write_many bytes len s ≡ (room_for len s, after_write)
    unfolding write_many begin_write lock unlock
    write_many-after_write free = rw free refl

    avail_after : sub16 s.avail (room_for len s) ≡ s.avail - room_for len s
    avail_after = omega (arith, plan_fits, r.avail_in, r.size_in)

    head_after :
        (skip s.size s.head plan ≤ s.size)
        × (first s.size (skip s.size s.head plan)
            ≡ place s.size (first s.size s.head) (room_for len s))
    head_after =
        skipped s.size s.head plan plan_rest (omega (arith, plan_fits, r.avail_in)) r.head_in
          r.size_in

    used_after : used after_write ≡ used s + room_for len s
    used_after = omega (arith, avail_after, plan_fits, r.avail_in)

    after_write-IsRing : IsRing after_write
    after_write-IsRing = record {
      size_pos = r.size_pos;
      size_in = r.size_in;
      avail_in = omega (arith, avail_after, r.avail_in);
      head_in = head_after.0;
      tail_in = r.tail_in;
      reaches =
          head_after.1
          ∙ sym (next_place (room_for len s) plan_fits)
          ∙ ap (place s.size (first s.size s.tail)) (sym used_after);
    }

    contents-after_write : contents after_write ≡ contents s ++ tabulate (room_for len s) bytes
    unfolding contents
    contents-after_write =
        let slot : ℕ → ℕ = place s.size (first s.size s.tail) in
        let f : ℕ → ℕ = λ i. copy_in bytes plan s.buffer (slot i) in
        let fits : room_for len s ≤ s.size = omega (arith, plan_fits, r.avail_in) in
        let old : tabulate (used s) f ≡ tabulate (used s) (λ i. s.buffer (slot i)) =
          tabulate-same (used s) f (λ i. s.buffer (slot i))
            (λ i h.
              copy_in-outside s.size plan r.head_in plan_rest fits bytes s.buffer (slot i)
                (slot_in i h) (λ j l. other_slot i j h (omega (arith, plan_fits)))) in
        let fresh : tabulate (room_for len s) (λ i. f (used s + i))
            ≡ tabulate (room_for len s) bytes =
          tabulate-same (room_for len s) (λ i. f (used s + i)) bytes
            (λ i h.
              ap (copy_in bytes plan s.buffer) (next_place i (omega (arith, plan_fits)))
              ∙ copy_in-inside s.size plan r.head_in plan_rest fits bytes s.buffer i h) in
        ap (λ n. tabulate n f) used_after
        ∙ tabulate-append (used s) (room_for len s) f
        ∙ ap (λ xs. xs ++ tabulate (room_for len s) (λ i. f (used s + i))) old
        ∙ ap (λ xs. tabulate (used s) (λ i. s.buffer (slot i)) ++ xs) fresh

-- A write of many bytes into a ring that is not locked puts as many of them as there is room for
-- behind the others, in order, says how many, and leaves a ring that is not locked.
pub write_many-appends :
    (s : Streamer) (bytes : ℕ → ℕ) (len : ℕ)
    → IsRing s
    → s.lock_addr ≡ none
    → (s' : Streamer) × (write_many bytes len s ≡ (min len s.avail, s'))
      × (contents s' ≡ contents s ++ tabulate (min len s.avail) bytes)
      × IsRing s'
      × (s'.lock_addr ≡ none)
write_many-appends s bytes len r free =
    let least : room_for len s ≡ min len s.avail = ground arith in
    (
      after_write s r bytes len,
      write_many-after_write s r bytes len free
          ∙ ap (λ (n : ℕ). (n, after_write s r bytes len)) least,
      contents-after_write s r bytes len ∙ ap (λ n. contents s ++ tabulate n bytes) least,
      after_write-IsRing s r bytes len,
      refl,
    )

-- One step of the head, where it is an index of the buffer.
pub advance-place :
    (size i : ℕ)
    → i < size
    → size < 2 ^ 16
    → (advance size i < size) × (advance size i ≡ place size i 1)
advance-place size i h size_in = ground arith

module _ (s : Streamer) (r : IsRing s) (inside : s.head < s.size) (byte : ℕ)
    (room : 0 < s.avail) where
  abbrev after_byte : Streamer
  after_byte = record s {
    buffer = update s.buffer s.head byte;
    head = advance s.size s.head;
    avail = one_less s.avail;
  }

  at_head : first s.size s.head ≡ s.head
  at_head = ground arith

  one_used : used after_byte ≡ suc (used s)
  one_used = omega (arith, r.avail_in, r.size_in)

  after_byte-IsRing : IsRing after_byte
  after_byte-IsRing =
      let (in_buffer, next) = advance-place s.size s.head inside r.size_in in
      record {
        size_pos = r.size_pos;
        size_in = r.size_in;
        avail_in = omega (arith, r.avail_in, r.size_in);
        head_in = omega arith;
        tail_in = r.tail_in;
        reaches =
            ground (arith, in_buffer, next, next_place s r 1 (omega arith), at_head, one_used);
      }

  contents-after_byte : contents after_byte ≡ contents s ++ (byte ∷ [])
  unfolding contents
  contents-after_byte =
      let slot : ℕ → ℕ = place s.size (first s.size s.tail) in
      let f : ℕ → ℕ = λ i. update s.buffer s.head byte (slot i) in
      let old : tabulate (used s) f ≡ tabulate (used s) (λ i. s.buffer (slot i)) =
        tabulate-same (used s) f (λ i. s.buffer (slot i)) (λ i h. if_false _ _ (spared i h)) in
      let fresh : f (used s) ≡ byte = if_true _ _ last in
      ap (λ n. tabulate n f) one_used
      ∙ tabulate-last (used s) f
      ∙ ap (λ xs. xs ++ (f (used s) ∷ [])) old
      ∙ ap (λ x. tabulate (used s) (λ i. s.buffer (slot i)) ++ (x ∷ [])) fresh
    where
      spared : (i : ℕ) → i < used s → (place s.size (first s.size s.tail) i == s.head) ≡ false
      spared i h = ground (arith, other_slot s r i 0 h room)

      last : (place s.size (first s.size s.tail) (used s) == s.head) ≡ true
      last = ground (arith, r.reaches, at_head)

-- A write of one byte succeeds just when there is room and the next slot is not locked; it puts the
-- byte behind the others and leaves a ring, where the head is an index of the buffer.
pub write-appends :
    (s : Streamer) (byte : ℕ)
    → IsRing s
    → s.head < s.size
    → (((write byte s).0 ≡ true) ↔ ((0 < s.avail) × (s.lock_addr ≢ some s.head)))
      × (contents (write byte s).1
          ≡ (if (write byte s).0 then contents s ++ (byte ∷ []) else contents s))
      × IsRing (write byte s).1
unfolding write
write-appends s byte r inside = elim (Bool-cases (s.avail == 0)) [
  | inl full ↦
      let stays : write byte s ≡ (false, s) = if_true _ _ full in
      rw stays (ground (arith, full), refl, r)
  | inr room ↦ elim (Bool-cases (opt_eq s.lock_addr (some s.head))) [
    | inl locked ↦
        let stays : write byte s ≡ (false, s) = if_false _ _ room ∙ if_true _ _ locked in
        let is_locked : s.lock_addr ≡ some s.head = opt_eq-eq s.lock_addr (some s.head) locked in
        rw stays (ground (arith, is_locked), refl, r)
    | inr free ↦
        let some_room : 0 < s.avail = ground arith in
        let result : write byte s ≡ (true, after_byte s r inside byte some_room) =
          if_false _ _ room ∙ if_false _ _ free in
        rw result (
          (
            λ _. (some_room, λ e. ground (arith, opt_eq_of s.lock_addr (some s.head) e, free)),
            λ _. refl,
          ),
          contents-after_byte s r inside byte some_room,
          after_byte-IsRing s r inside byte some_room,
        )
  ]
]
