-- ===== src/LinkedList.antt =====
-- The intrusive lists of src/ll.cpp as they stand in memory: every node has a pointer to the next one
-- and one to the node before it, and a list has a pointer to its head and one to its tail.
pub mod Double
pub mod Circular
pub mod Chains
pub mod Relinks
pub mod Adds
pub mod Pivots
pub mod Distincts
pub mod Removes
pub mod Lines
mod Tests
use mark.Prelude.{ℕ, Bool, true, Option, none, some, update, if◌then◌else◌}

-- `LinkListNode` at each address, and a `LinkList`. A write through a null pointer sets `fault`; a
-- read through one gives a null pointer.
pub record Links : Type 0 where
  pub next : ℕ → Option ℕ
  pub prev : ℕ → Option ℕ
  pub head : Option ℕ
  pub tail : Option ℕ
  pub panicked : Bool
  pub fault : Bool

abbrev pub follow : (ℕ → Option ℕ) → Option ℕ → Option ℕ
follow link none = none
follow link (some a) = link a

abbrev pub set_next : Option ℕ → Option ℕ → Links → Links
set_next none v l = record l { fault = true }
set_next (some a) v l = record l { next = update l.next a v }

abbrev pub set_prev : Option ℕ → Option ℕ → Links → Links
set_prev none v l = record l { fault = true }
set_prev (some a) v l = record l { prev = update l.prev a v }

-- `Kernel::Panic(PANIC_LIST_UNLINK_FAILED)`, whose handler may return.
abbrev pub panic_if : Bool → Links → Links
panic_if bad l = if bad then record l { panicked = true } else l

unfoldable pub clear_node : ℕ → Links → Links
clear_node n l = record l { next = update l.next n none; prev = update l.prev n none }

unfoldable pub init : Links → Links
init l = record l { head = none; tail = none }
