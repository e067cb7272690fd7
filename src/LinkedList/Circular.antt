-- ===== src/LinkedList/Circular.antt =====
-- `CircularLinkList` of src/ll.cpp.
use mark.Prelude.{ℕ, not, ◌&&◌, ◌||◌, none, some, update, opt_eq, if◌then◌else◌}
use mark.LinkedList.{Links, follow, set_next, set_prev, panic_if, clear_node}

unfoldable pub add : ℕ → Links → Links
add n l =
    let placed : Links = elim l.head [
      | none ↦ record l { head = some n; tail = some n }
      | some _ ↦ set_next l.tail (some n) l
    ] in
    let own = record placed {
      prev = update placed.prev n placed.tail;
      next = update placed.next n placed.head;
    } in
    set_prev own.head (some n) (record own { tail = some n })

-- The part of `Remove` behind the case of the only node.
unfoldable pub unlink : ℕ → Links → Links
unfolding clear_node
unlink n l =
    let checked =
      panic_if
        (not (opt_eq (follow l.next (l.prev n)) (some n))
          || not (opt_eq (follow l.prev (l.next n)) (some n)))
        l in
    let back = set_prev (checked.next n) (checked.prev n) checked in
    let joined = set_next (back.prev n) (back.next n) back in
    let new_head =
      if opt_eq joined.head (some n) then follow joined.next joined.head else joined.head in
    let new_tail =
      if opt_eq joined.tail (some n) then follow joined.prev joined.tail else joined.tail in
    clear_node n (record joined { head = new_head; tail = new_tail })

unfoldable pub remove : ℕ → Links → Links
unfolding unlink
remove n l =
    if opt_eq l.head (some n) && opt_eq l.head l.tail
    then record l { head = none; tail = none }
    else unlink n l

unfoldable pub pivot_forward : Links → Links
pivot_forward l = elim l.head [
  | none ↦ l
  | some h ↦ record l { head = l.next h; tail = follow l.next l.tail }
]

unfoldable pub pivot_backward : Links → Links
pivot_backward l = elim l.head [
  | none ↦ l
  | some h ↦ record l { head = l.prev h; tail = follow l.prev l.tail }
]

unfoldable pub insert_node_before : ℕ → ℕ → Links → Links
insert_node_before n at l =
    let own = record l { next = update l.next n (some at) } in
    let both = record own { prev = update own.prev n (own.prev at) } in
    let joined : Links = elim (both.prev at) [
      | none ↦ both
      | some p ↦ set_next (some p) (some n) both
    ] in
    set_prev (some at) (some n) joined
