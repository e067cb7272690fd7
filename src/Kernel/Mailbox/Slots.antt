-- ===== src/Kernel/Mailbox/Slots.antt =====
-- The slots of a mailbox as a ring: `head` is the slot written last at the head, `tail` is the slot
-- before the one at the tail, and the elements lie between them.
use mark.Prelude.{ℕ, ◌+◌, ◌-◌, ◌%◌, ◌^◌, Bool, List, ◌==◌, if◌then◌else◌}
use mark.Kernel.State.{Mailbox, update}

-- `MoveTailForward`, `MoveHeadForward`, `MoveTailBackward` and `MoveHeadBackward`, on an index.
abbrev pub forward : ℕ → ℕ → ℕ
forward count i = let j = (i + 1) % 2 ^ 16 in if j == count then 0 else j

abbrev pub backward : ℕ → ℕ → ℕ
backward count i = (if i == 0 then count else i) - 1

-- The claim of a slot in `Send_i`, and the copy of the element to it.
unfoldable pub write_slot : Bool → List ℕ → Mailbox → Mailbox
write_slot at_tail element m =
    if at_tail
    then record m {
      free = m.free - 1;
      slot = update m.slot m.tail element;
      tail = backward m.count m.tail;
    }
    else record m {
      free = m.free - 1;
      head = forward m.count m.head;
      slot = update m.slot (forward m.count m.head) element;
    }

-- The release of a slot in `Receive_i`, and the element that is copied from it.
unfoldable pub read_slot : Bool → Mailbox → List ℕ × Mailbox
read_slot at_tail m =
    if at_tail
    then (
      m.slot (forward m.count m.tail),
      record m { free = (m.free + 1) % 2 ^ 16; tail = forward m.count m.tail },
    )
    else (m.slot m.head, record m { free = (m.free + 1) % 2 ^ 16; head = backward m.count m.head })
