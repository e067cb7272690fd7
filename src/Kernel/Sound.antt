-- ===== src/Kernel/Sound.antt =====
-- The invariant of the kernel: the scheduler's map agrees with the ready lists, every thread's priority
-- is one of the scheduler's, and no blocking object shares a list with the scheduler.
pub mod Scheduling
pub mod Locks
pub mod Timers
pub mod Objects
pub mod Flags
pub mod Threads
pub mod Ticks
pub mod Compound
pub mod Channels
use mark.Prelude.{
  ℕ, suc, ◌+◌, ◌≤◌, ◌<◌, ◌≡◌, refl, Bool, true, false, inl, inr, Option, none, some, List, [], ◌∷◌,
  arith, ◌==◌, if◌then◌else◌, ltb, Bool-cases, ◌⊎◌,
}
use mark.PrioMap.Interface.{PriorityMap}
use mark.ThreadList.{ThreadId, ListId, ListStore, add, remove, add_priority, put_members}
use mark.ThreadList.Consistent.{
  IsConsistent, stop_list, ready_list, add_ready-IsConsistent, remove_ready-IsConsistent,
  add_plain-IsConsistent, remove_plain-IsConsistent, add_priority_plain-IsConsistent,
}
use mark.Kernel.State.{Kernel, Thread, Semaphore, Mutex, Notify, EventFlag, update}

pub record Sound {M : Type 0} ⦃pm : PriorityMap M⦄ (num : ℕ) (lists : ListStore M)
    (thread : ThreadId → Thread) (semaphore : ℕ → Semaphore) (mutex : ℕ → Mutex)
    (notify : ℕ → Notify) (event_flag : ℕ → EventFlag) : Type 0 where
  pub consistent : IsConsistent num lists
  pub in_range : (t : ThreadId) → (thread t).priority < num
  pub semaphore_apart : (i : ℕ) → num < (semaphore i).block_list
  pub mutex_apart : (i : ℕ) → num < (mutex i).block_list
  pub notify_apart : (i : ℕ) → num < (notify i).block_list
  pub event_flag_apart : (i : ℕ) → num < (event_flag i).block_list

module _ {M : Type 0} ⦃pm : PriorityMap M⦄ where
  abbrev pub IsSound : ℕ → Kernel M → Type 0
  IsSound num k = Sound num k.lists k.thread k.semaphore k.mutex k.notify k.event_flag
