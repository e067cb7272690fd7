-- ===== src/Kernel/Mailbox/Deque.antt =====
-- The slots of a mailbox (src/mailbox.cpp) hold a queue with two ends.
use mark.Prelude.{
  ℕ, suc, ◌+◌, ◌-◌, ◌%◌, ◌^◌, ◌≤◌, ◌<◌, ◌≡◌, sym, ◌∙◌, ap, Bool, true, false, List, [], ◌∷◌, ◌++◌,
  arith, ◌==◌, if◌then◌else◌, place, tabulate, tabulate-same, tabulate-last,
}
use mark.Kernel.State.{Mailbox, update}
use mark.Prelude.{if_true, if_false}
use mark.Kernel.Mailbox.Slots.{forward, backward, write_slot, read_slot}

abbrev pub used : Mailbox → ℕ
used m = m.count - m.free

-- The elements from the tail to the head.
pub contents : Mailbox → List (List ℕ)
unfolding tabulate
contents m = tabulate (used m) (λ i. m.slot (place m.count m.tail (suc i)))

pub record IsRing (m : Mailbox) : Type 0 where
  pub head_in : m.head < m.count
  pub tail_in : m.tail < m.count
  pub count_in : m.count < 2 ^ 16
  pub free_in : m.free ≤ m.count
  pub reaches : m.head ≡ place m.count m.tail (used m)

forward-place : (count i : ℕ) → i < count → count < 2 ^ 16 → forward count i ≡ place count i 1
forward-place count i h c = grind arith

backward-place :
    (count i : ℕ) → i < count → (backward count i < count) × (place count (backward count i) 1 ≡ i)
backward-place count i h = (ground arith, ground arith)

module _ (m : Mailbox) (r : IsRing m) where
  step_head : forward m.count m.head ≡ place m.count m.head 1
  step_head = forward-place m.count m.head r.head_in r.count_in

  step_tail : forward m.count m.tail ≡ place m.count m.tail 1
  step_tail = forward-place m.count m.tail r.tail_in r.count_in

  -- A write at the head of a mailbox with a free slot keeps both indices inside the buffer, and the
  -- head as many slots after the tail as are in use.
  write_head-IsRing : (e : List ℕ) → 0 < m.free → IsRing (write_slot false e m)
  unfolding write_slot
  write_head-IsRing e room = record {
    head_in = ground (arith, step_head, r.head_in);
    tail_in = r.tail_in;
    count_in = r.count_in;
    free_in = ground (arith, r.free_in);
    reaches = ground (arith, step_head, r.reaches, r.free_in, r.tail_in);
  }

  -- A write at the tail of a mailbox with a free slot keeps both indices inside the buffer, and the
  -- head as many slots after the tail as are in use.
  write_tail-IsRing : (e : List ℕ) → 0 < m.free → IsRing (write_slot true e m)
  unfolding write_slot
  write_tail-IsRing e room = record {
    head_in = r.head_in;
    tail_in = ground (arith, r.tail_in);
    count_in = r.count_in;
    free_in = ground (arith, r.free_in);
    reaches = ground (arith, r.reaches, r.free_in, r.tail_in);
  }

  count_up : m.free < m.count → (m.free + 1) % 2 ^ 16 ≡ m.free + 1
  count_up h = grind (arith, r.count_in)

  -- A read at the head of a mailbox that is not empty keeps both indices inside the buffer, and the
  -- head as many slots after the tail as are in use.
  read_head-IsRing : m.free < m.count → IsRing (read_slot false m).1
  unfolding read_slot
  read_head-IsRing some_used = record {
    head_in = ground (arith, r.head_in);
    tail_in = r.tail_in;
    count_in = r.count_in;
    free_in = ground (arith, count_up some_used);
    reaches = ground (arith, count_up some_used, r.reaches, r.tail_in, r.head_in);
  }

  -- A read at the tail of a mailbox that is not empty keeps both indices inside the buffer, and the
  -- head as many slots after the tail as are in use.
  read_tail-IsRing : m.free < m.count → IsRing (read_slot true m).1
  unfolding read_slot
  read_tail-IsRing some_used = record {
    head_in = r.head_in;
    tail_in = ground (arith, step_tail, r.tail_in);
    count_in = r.count_in;
    free_in = ground (arith, count_up some_used);
    reaches = ground (arith, count_up some_used, step_tail, r.reaches, r.tail_in, r.head_in);
  }

  -- The slots of a write and a read, against those of the other elements.
  next_slot : 0 < m.free → (place m.count m.tail (suc (used m)) == forward m.count m.head) ≡ true
  next_slot room = ground (arith, step_head, r.reaches, r.free_in, r.tail_in)

  other_slot :
      (i : ℕ)
      → i < used m
      → 0 < m.free
      → (place m.count m.tail (suc i) == forward m.count m.head) ≡ false
  other_slot i h room = ground (arith, step_head, r.reaches, r.free_in, r.tail_in)

  tail_slot : (place m.count (backward m.count m.tail) 1 == m.tail) ≡ true
  tail_slot = ground (arith, r.tail_in)

  earlier_slot :
      (i : ℕ)
      → i < used m
      → 0 < m.free
      → (place m.count (backward m.count m.tail) (suc (suc i)) == m.tail) ≡ false
  earlier_slot i h room = ground (arith, r.tail_in, r.free_in)

  shifted_slot :
      (i : ℕ)
      → i < used m
      → 0 < m.free
      → place m.count (backward m.count m.tail) (suc (suc i)) ≡ place m.count m.tail (suc i)
  shifted_slot i h room = ground (arith, r.tail_in, r.free_in)

  next_place :
      (i : ℕ)
      → suc i < used m
      → place m.count m.tail (suc (suc i)) ≡ place m.count (forward m.count m.tail) (suc i)
  next_place i h = ground (arith, step_tail, r.tail_in, r.free_in)

  -- A write at the head of a mailbox with a free slot adds the element behind the others.
  contents-write_head :
      (e : List ℕ) → 0 < m.free → contents (write_slot false e m) ≡ contents m ++ (e ∷ [])
  unfolding contents write_slot
  contents-write_head e room =
      let f : ℕ → List ℕ = λ i. m.slot (place m.count m.tail (suc i)) in
      let f' : ℕ → List ℕ =
        λ i. update m.slot (forward m.count m.head) e (place m.count m.tail (suc i)) in
      let more : m.count - (m.free - 1) ≡ suc (used m) = ground (arith, r.free_in) in
      let old : tabulate (used m) f' ≡ tabulate (used m) f =
        tabulate-same (used m) f' f (λ i h. if_false _ _ (other_slot i h room)) in
      let fresh : f' (used m) ≡ e = if_true _ _ (next_slot room) in
      ap (λ n. tabulate n f') more
      ∙ tabulate-last (used m) f'
      ∙ ap (λ xs. xs ++ (f' (used m) ∷ [])) old
      ∙ ap (λ x. tabulate (used m) f ++ (x ∷ [])) fresh

  -- A write at the tail of a mailbox with a free slot adds the element before the others.
  contents-write_tail : (e : List ℕ) → 0 < m.free → contents (write_slot true e m) ≡ e ∷ contents m
  unfolding contents write_slot
  contents-write_tail e room =
      let f : ℕ → List ℕ = λ i. m.slot (place m.count m.tail (suc i)) in
      let f' : ℕ → List ℕ =
        λ i. update m.slot m.tail e (place m.count (backward m.count m.tail) (suc i)) in
      let more : m.count - (m.free - 1) ≡ suc (used m) = ground (arith, r.free_in) in
      let old : tabulate (used m) (λ i. f' (suc i)) ≡ tabulate (used m) f =
        tabulate-same (used m) (λ i. f' (suc i)) f
          (λ i h. if_false _ _ (earlier_slot i h room) ∙ ap m.slot (shifted_slot i h room)) in
      let fresh : f' 0 ≡ e = if_true _ _ (tail_slot) in
      ap (λ n. tabulate n f') more
      ∙ ap (λ xs. f' 0 ∷ xs) old
      ∙ ap (λ x. x ∷ tabulate (used m) f) fresh

  -- A read at the head of a mailbox that is not empty gives the last of its elements and leaves the
  -- others.
  contents-read_head :
      m.free < m.count → contents m ≡ contents (read_slot false m).1 ++ ((read_slot false m).0 ∷ [])
  unfolding contents read_slot
  contents-read_head some_used =
      let f : ℕ → List ℕ = λ i. m.slot (place m.count m.tail (suc i)) in
      let n = m.count - (m.free + 1) % 2 ^ 16 in
      let fewer : used m ≡ suc n = ground (arith, count_up some_used, r.free_in) in
      let newest : place m.count m.tail (suc n) ≡ m.head =
        ap (place m.count m.tail) (sym fewer) ∙ sym r.reaches in
      ap (λ k. tabulate k f) fewer
      ∙ tabulate-last n f
      ∙ ap (λ a. tabulate n f ++ (m.slot a ∷ [])) newest

  -- A read at the tail of a mailbox that is not empty gives the first of its elements and leaves the
  -- others.
  contents-read_tail :
      m.free < m.count → contents m ≡ (read_slot true m).0 ∷ contents (read_slot true m).1
  unfolding contents read_slot
  contents-read_tail some_used =
      let f : ℕ → List ℕ = λ i. m.slot (place m.count m.tail (suc i)) in
      let n = m.count - (m.free + 1) % 2 ^ 16 in
      let fewer : used m ≡ suc n = ground (arith, count_up some_used, r.free_in) in
      let rest : tabulate n (λ i. f (suc i))
          ≡ tabulate n (λ i. m.slot (place m.count (forward m.count m.tail) (suc i))) =
        tabulate-same n (λ i. f (suc i))
          (λ i. m.slot (place m.count (forward m.count m.tail) (suc i)))
          (λ i h. ap m.slot (next_place i (ground (arith, fewer)))) in
      ap (λ k. tabulate k f) fewer
      ∙ ap (λ a. m.slot a ∷ tabulate n (λ i. f (suc i))) (sym step_tail)
      ∙ ap (λ xs. m.slot (forward m.count m.tail) ∷ xs) rest

-- A write into a mailbox with a free slot adds the element behind the others at the head, or before
-- them at the tail; both indices stay inside the buffer, and the head as many slots after the tail
-- as are in use.
pub write_slot-contents :
    (m : Mailbox) (tail : Bool) (e : List ℕ)
    → IsRing m
    → 0 < m.free
    → IsRing (write_slot tail e m)
      × (contents (write_slot tail e m) ≡ (if tail then e ∷ contents m else contents m ++ (e ∷ [])))
write_slot-contents m true e r room = (write_tail-IsRing m r e room, contents-write_tail m r e room)
write_slot-contents m false e r room =
    (write_head-IsRing m r e room, contents-write_head m r e room)

-- A read from a mailbox that is not empty gives the last of its elements at the head, or the first
-- of them at the tail, and leaves the others; both indices stay inside the buffer, and the head as
-- many slots after the tail as are in use.
pub read_slot-contents :
    (m : Mailbox) (tail : Bool)
    → IsRing m
    → m.free < m.count
    → IsRing (read_slot tail m).1
      × (contents m ≡ (
          if tail
          then (read_slot tail m).0 ∷ contents (read_slot tail m).1
          else contents (read_slot tail m).1 ++ ((read_slot tail m).0 ∷ [])))
read_slot-contents m true r some_used =
    (read_tail-IsRing m r some_used, contents-read_tail m r some_used)
read_slot-contents m false r some_used =
    (read_head-IsRing m r some_used, contents-read_head m r some_used)
