-- ===== src/ThreadList.antt =====
-- The thread lists of src/threadlist.cpp, with the links of src/ll.cpp as the list of the threads from
-- the head to the tail, and src/public/threadlistlist.h's list of the lists that hold threads.
pub mod Ring
pub mod Effects
pub mod Priority
pub mod Order
mod Tests
pub mod Consistent
use mark.Prelude.{
  ℕ, ◌==◌, ◌+◌, Bool, true, false, Option, none, some, List, [], ◌∷◌, ◌++◌, if◌then◌else◌,
}
use mark.PrioMap.Interface.{PriorityMap}
use mark.ThreadList.Ring.{
  push_back, pivot_forward, remove_node, contains, head?, nonempty, insert_by_priority,
}

-- A thread and a list stand for their addresses.
abbrev pub ThreadId : Type 0
ThreadId = ℕ

abbrev pub ListId : Type 0
ListId = ℕ

-- `class ThreadList`: the ring, `m_uXPriority`, and whether `m_pclMap` is set.
pub record ThreadList : Type 0 where
  pub members : List ThreadId
  pub priority : ℕ
  pub mapped : Bool

-- Every thread list of the system, the scheduler's map and `ThreadListList`. `misused` is set by the
-- removal of a thread from a list that it is not on: the source follows the links of the thread then,
-- and panics, dereferences null or changes another list.
pub record ListStore (M : Type 0) : Type 0 where
  pub list : ListId → ThreadList
  pub map : M
  pub tracked : List ListId
  pub misused : Bool

abbrev pub empty_thread_list : ThreadList
empty_thread_list = record { members = []; priority = 0; mapped = false }

abbrev pub update_list : (ListId → ThreadList) → ListId → ThreadList → ListId → ThreadList
update_list f l v j = if j == l then v else f j

module _ {M : Type 0} where
  abbrev pub put_list : ListId → ThreadList → ListStore M → ListStore M
  put_list l v s = record s { list = update_list s.list l v }

  abbrev pub put_members : ListId → List ThreadId → ListStore M → ListStore M
  put_members l xs s = put_list l (record (s.list l) { members = xs }) s

  -- `ThreadList::SetPriority`
  abbrev pub set_priority : ListId → ℕ → ListStore M → ListStore M
  set_priority l p s = put_list l (record (s.list l) { priority = p }) s

  -- `ThreadList::SetMapPointer`, for the one map that there is.
  abbrev pub set_map_pointer : ListId → ListStore M → ListStore M
  set_map_pointer l s = put_list l (record (s.list l) { mapped = true }) s

  -- `ThreadList::HighestWaiter`
  abbrev pub highest_waiter : ListId → ListStore M → Option ThreadId
  highest_waiter l s = head? (s.list l).members

  -- `PivotForward` of a thread list.
  abbrev pub pivot_list : ListId → ListStore M → ListStore M
  pivot_list l s = put_members l (pivot_forward (s.list l).members) s

module _ {M : Type 0} ⦃pm : PriorityMap M⦄ where
  -- `ThreadList::Add(Thread*)`
  unfoldable pub add : ListId → ThreadId → ListStore M → ListStore M
  add l t s =
      let xs = (s.list l).members in
      record s {
        tracked = if nonempty xs then s.tracked else s.tracked ++ (l ∷ []);
        list =
            update_list s.list l (record (s.list l) { members = pivot_forward (push_back xs t) });
        map = if (s.list l).mapped then pm.set (s.list l).priority s.map else s.map;
      }

  -- `ThreadList::Add(Thread*, PriorityMap*, PORT_PRIO_TYPE)`
  unfoldable pub add_mapped : ListId → ThreadId → ℕ → ListStore M → ListStore M
  add_mapped l t p s = add l t (set_map_pointer l (set_priority l p s))

  -- `ThreadList::AddPriority`, where `cur` is `GetCurPriority` of each thread.
  unfoldable pub add_priority : (ThreadId → ℕ) → ListId → ThreadId → ListStore M → ListStore M
  add_priority cur l t s =
      let xs = (s.list l).members in
      if nonempty xs then put_members l (insert_by_priority cur t xs) s else add l t s

  -- `ThreadList::Remove`
  unfoldable pub remove : ListId → ThreadId → ListStore M → ListStore M
  remove l t s =
      let xs = remove_node (s.list l).members t in
      record s {
        list = update_list s.list l (record (s.list l) { members = xs });
        tracked = if nonempty xs then s.tracked else remove_node s.tracked l;
        misused = if contains (s.list l).members t then s.misused else true;
        map =
            if nonempty xs
            then s.map
            else if (s.list l).mapped
            then pm.clear (s.list l).priority s.map
            else s.map;
      }
