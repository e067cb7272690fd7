-- ===== src/LinkedList/Double.antt =====
-- `DoubleLinkList` of src/ll.cpp.
use mark.Prelude.{ℕ, not, none, some, update, opt_eq, if◌then◌else◌}
use mark.LinkedList.{Links, set_next, panic_if, clear_node}

unfoldable pub add : ℕ → Links → Links
add n l =
    let own = record l { prev = update l.prev n l.tail; next = update l.next n none } in
    let linked : Links = elim l.head [
      | none ↦ record own { head = some n }
      | some _ ↦ set_next own.tail (some n) own
    ] in
    record linked { tail = some n }

-- The two neighbours are joined.
unfoldable pub unlink_prev : ℕ → Links → Links
unlink_prev n l = elim (l.prev n) [
  | none ↦ l
  | some p ↦
      let checked = panic_if (not (opt_eq (l.next p) (some n))) l in
      record checked { next = update l.next p (l.next n) }
]

unfoldable pub unlink_next : ℕ → Links → Links
unlink_next n l = elim (l.next n) [
  | none ↦ l
  | some q ↦
      let checked = panic_if (not (opt_eq (l.prev q) (some n))) l in
      record checked { prev = update l.prev q (l.prev n) }
]

unfoldable pub remove : ℕ → Links → Links
unfolding unlink_prev unlink_next clear_node
remove n l =
    let joined = unlink_next n (unlink_prev n l) in
    let new_head = if opt_eq joined.head (some n) then joined.next n else joined.head in
    let new_tail = if opt_eq joined.tail (some n) then joined.prev n else joined.tail in
    clear_node n (record joined { head = new_head; tail = new_tail })
