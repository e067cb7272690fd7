-- ===== src/Kernel/Blocking.antt =====
-- `BlockingObject` of src/blocking.cpp, on the block list `l` of an object.
pub mod Moves
use mark.Prelude.{Option, none, some}
use mark.PrioMap.Interface.{PriorityMap}
use mark.ThreadList.{ThreadId, ListId, add, add_priority, remove}
use mark.Kernel.State.{Kernel, ready, blocked, set_state, set_current, fault}
use mark.Kernel.Scheduler.{scheduler_add, scheduler_remove}

module _ {M : Type 0} ⦃pm : PriorityMap M⦄ where
  -- `BlockingObject::Block`
  unfoldable pub block : ListId → ThreadId → Kernel M → Kernel M
  block l t k =
      let k' = scheduler_remove t k in
      set_state t blocked (set_current t (some l) (record k' { lists = add l t k'.lists }))

  -- `BlockingObject::BlockPriority`
  unfoldable pub block_priority : ListId → ThreadId → Kernel M → Kernel M
  block_priority l t k =
      let k' = scheduler_remove t k in
      set_state t blocked (
        set_current t (some l)
          (record k' { lists = add_priority (λ u. (k'.thread u).cur_priority) l t k'.lists }))

  -- `BlockingObject::UnBlock`
  unfoldable pub unblock : ThreadId → Kernel M → Kernel M
  unblock t k = elim (k.thread t).current [
    | none ↦ fault k
    | some l ↦
        let k' = scheduler_add t (record k { lists = remove l t k.lists }) in
        set_state t ready (set_current t (k'.thread t).owner k')
  ]
