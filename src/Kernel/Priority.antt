-- ===== src/Kernel/Priority.antt =====
-- `Thread::SetPriority`, `SetPriorityBase` and `InheritPriority` of src/thread.cpp.
use mark.Prelude.{ℕ, true, ◌||◌, none, some, ◌==◌, ltb, if◌then◌else◌}
use mark.PrioMap.Interface.{PriorityMap}
use mark.ThreadList.{ThreadId, add, remove}
use mark.ThreadList.Consistent.{ready_list}
use mark.Kernel.State.{Kernel, put_thread, set_current, fault}
use mark.Kernel.Quantum
use mark.Kernel.Scheduler.{
  scheduler_add, scheduler_remove, schedule, context_switch_swi, update_next,
}

module _ {M : Type 0} ⦃pm : PriorityMap M⦄ where
  -- `Thread::SetPriority`
  unfoldable pub set_priority : ThreadId → ℕ → Kernel M → Kernel M
  set_priority t prio k =
      let reschedule = t == k.current || ltb (k.thread k.current).priority prio in
      let k₁ = scheduler_remove t (if reschedule then Quantum.cancel k else k) in
      let k₂ =
        scheduler_add t
          (put_thread t (record (k₁.thread t) { cur_priority = prio; priority = prio }) k₁) in
      if reschedule
      then (if k₂.enabled
          then context_switch_swi (update_next (schedule k₂))
          else record k₂ { queued = true })
      else k₂

  -- `Thread::SetPriorityBase`, which ignores its argument.
  unfoldable pub set_priority_base : ThreadId → ℕ → Kernel M → Kernel M
  set_priority_base t prio k = elim (k.thread t).current [
    | none ↦ fault k
    | some l ↦
        let k' = record k { lists = remove l t k.lists } in
        let target = ready_list (k'.thread t).priority in
        let k'' = set_current t (some target) k' in record k'' { lists = add target t k''.lists }
  ]

module _ {M : Type 0} where
  -- `Thread::InheritPriority`
  unfoldable pub inherit_priority : ThreadId → ℕ → Kernel M → Kernel M
  inherit_priority t prio k =
      put_thread t (record (k.thread t) { owner = some (ready_list prio); cur_priority = prio }) k
