-- ===== src/Kernel/Scheduler.antt =====
-- src/scheduler.cpp, and `Thread::Yield`, `CoopYield` and `ContextSwitchSWI` of
-- src/thread.cpp.
use mark.Prelude.{
  ℕ, zero, suc, ◌+◌, ◌-◌, Bool, true, false, ◌&&◌, Option, none, some, ◌==◌, leb, opt_eq,
  if◌then◌else◌,
}
use mark.PrioMap.Interface.{PriorityMap}
use mark.ThreadList.Ring.{head?}
use mark.ThreadList.{ThreadId, ListStore, set_priority, set_map_pointer, add, remove, pivot_list}
use mark.ThreadList.Consistent.{ready_list}
use mark.Kernel.State.{Kernel, panic, fault}
use mark.Kernel.Quantum
use mark.Kernel.Stack.{get_stack_slack}

-- src/public/paniccodes.h
abbrev pub panic_stack_slack_violated : ℕ
panic_stack_slack_violated = 3

abbrev pub panic_no_ready_threads : ℕ
panic_no_ready_threads = 6

module _ {M : Type 0} ⦃pm : PriorityMap M⦄ where
  -- The loop of `Scheduler::Init`, from priority `p` on, `n` rounds.
  unfoldable pub init_lists : ℕ → ℕ → ListStore M → ListStore M
  init_lists zero p s = s
  init_lists (suc n) p s =
      init_lists n (p + 1) (set_map_pointer (ready_list p) (set_priority (ready_list p) p s))

  -- `Scheduler::Init` for `num` priorities.
  unfoldable pub init : ℕ → ListStore M → ListStore M
  unfolding init_lists
  init num s = init_lists num 0 s

  -- `Scheduler::Schedule`. With no priority in the map, a handler that returns from the panic lets the
  -- scheduler read outside the array of lists.
  unfoldable pub schedule : Kernel M → Kernel M
  schedule k =
      let prio = pm.highest_priority k.lists.map in
      if prio == 0
      then fault (panic panic_no_ready_threads k)
      else record k { next = head? (k.lists.list (ready_list (prio - 1))).members }

  -- `Scheduler::Add`
  abbrev pub scheduler_add : ThreadId → Kernel M → Kernel M
  scheduler_add t k = record k { lists = add (ready_list (k.thread t).priority) t k.lists }

  -- `Scheduler::Remove`
  abbrev pub scheduler_remove : ThreadId → Kernel M → Kernel M
  scheduler_remove t k = record k { lists = remove (ready_list (k.thread t).priority) t k.lists }

  -- `Thread::ContextSwitchSWI`
  unfoldable pub context_switch_swi : Kernel M → Kernel M
  context_switch_swi k =
      if k.enabled
      then (let k' =
            if leb (get_stack_slack (k.thread k.current)) k.guard_threshold
            then panic panic_stack_slack_violated k
            else k in
          record k' { switch_requests = k'.switch_requests + 1 })
      else k

  unfoldable pub update_target : Option ThreadId → Kernel M → Kernel M
  update_target none k = fault k
  update_target (some t) k = Quantum.update t k

  -- `Quantum::Update(g_pclNext)`
  abbrev pub update_next : Kernel M → Kernel M
  update_next k = update_target k.next k

  -- `Thread::Yield`
  unfoldable pub yield : Kernel M → Kernel M
  yield k =
      if k.enabled
      then (let k' = schedule k in
          if opt_eq (some k'.current) k'.next then k' else context_switch_swi (update_next k'))
      else record k { queued = true }

  -- `Scheduler::SetScheduler`, which returns the old state too.
  unfoldable pub set_scheduler : Bool → Kernel M → Bool × Kernel M
  set_scheduler enable k =
      let k' = record k { enabled = enable } in
      (k.enabled, if enable && k.queued then yield (record k' { queued = false }) else k')

  -- `Thread::CoopYield`
  unfoldable pub coop_yield : Kernel M → Kernel M
  coop_yield k = elim (k.thread k.current).current [
    | none ↦ fault k
    | some l ↦ yield (record k { lists = pivot_list l k.lists })
  ]
