-- ===== src/Kernel/Quiet.antt =====
-- What the scheduler's operations leave alone: every object, every thread and every list. They change
-- only the scheduler's flags, the next thread, the round-robin state and the requests for a switch.
use mark.Prelude.{
  ℕ, ◌≡◌, refl, ◌∙◌, Bool, true, false, Option, none, some, List, Option-cases, inl, inr,
  if◌then◌else◌, ◌==◌, leb, opt_eq, ◌&&◌,
}
use mark.PrioMap.Interface.{PriorityMap}
use mark.ThreadList.{ThreadId, ListStore}
use mark.Kernel.State.{
  Kernel, Thread, Semaphore, Mutex, Notify, EventFlag, ConditionVariable, ReaderWriterLock,
  MessageQueue, Mailbox, Timer,
}
use mark.Kernel.Quantum
use mark.Kernel.Stack.{get_stack_slack}
use mark.Kernel.Scheduler.{
  schedule, context_switch_swi, yield, set_scheduler, update_next, update_target,
}

pub record Objects (M : Type 0) : Type 0 where
  pub lists : ListStore M
  pub thread : ThreadId → Thread
  pub current : ThreadId
  pub started : Bool
  pub semaphore : ℕ → Semaphore
  pub mutex : ℕ → Mutex
  pub notify : ℕ → Notify
  pub event_flag : ℕ → EventFlag
  pub condvar : ℕ → ConditionVariable
  pub rwlock : ℕ → ReaderWriterLock
  pub queue : ℕ → MessageQueue
  pub mailbox : ℕ → Mailbox
  pub timer : ℕ → Timer
  pub timer_list : List ℕ
  pub timer_mutex : ℕ

module _ {M : Type 0} where
  abbrev pub objects : Kernel M → Objects M
  objects k = record {
    lists = k.lists;
    thread = k.thread;
    current = k.current;
    started = k.started;
    semaphore = k.semaphore;
    mutex = k.mutex;
    notify = k.notify;
    event_flag = k.event_flag;
    condvar = k.condvar;
    rwlock = k.rwlock;
    queue = k.queue;
    mailbox = k.mailbox;
    timer = k.timer;
    timer_list = k.timer_list;
    timer_mutex = k.timer_mutex;
  }

  objects-if :
      (b : Bool) (x y k : Kernel M)
      → objects x ≡ objects k
      → objects y ≡ objects k
      → objects (if b then x else y) ≡ objects k
  objects-if true x y k p q = p
  objects-if false x y k p q = q

  pub objects-quantum : (t : ThreadId) (k : Kernel M) → objects (Quantum.update t k) ≡ objects k
  unfolding Quantum.update
  objects-quantum t k = elim (Option-cases (k.thread t).current) [
    | inl e ↦ rw (e, Quantum.update)
    | inr (l, e) ↦ rw (e, Quantum.update) (objects-if _ _ _ k refl refl)
  ]

module _ {M : Type 0} ⦃pm : PriorityMap M⦄ where
  pub objects-schedule : (k : Kernel M) → objects (schedule k) ≡ objects k
  unfolding schedule
  objects-schedule k = objects-if (pm.highest_priority k.lists.map == 0) _ _ k refl refl

  objects-update_target :
      (o : Option ThreadId) (k : Kernel M) → objects (update_target o k) ≡ objects k
  unfolding update_target
  objects-update_target none k = refl
  objects-update_target (some t) k = objects-quantum t k

  pub objects-switch : (k : Kernel M) → objects (context_switch_swi k) ≡ objects k
  unfolding context_switch_swi
  objects-switch k =
      objects-if k.enabled _ k k
        (objects-if (leb (get_stack_slack (k.thread k.current)) k.guard_threshold) _ k k refl refl)
        refl

  pub objects-reschedule :
      (k : Kernel M) → objects (context_switch_swi (update_next (schedule k))) ≡ objects k
  objects-reschedule k =
      objects-switch (update_next (schedule k))
      ∙ objects-update_target (schedule k).next (schedule k)
      ∙ objects-schedule k

  pub objects-yield : (k : Kernel M) → objects (yield k) ≡ objects k
  unfolding yield
  objects-yield k =
      objects-if k.enabled _ _ k
        (objects-if (opt_eq (some (schedule k).current) (schedule k).next) _ _ k
          (objects-schedule k) (objects-reschedule k))
        refl

  pub objects-set_scheduler : (b : Bool) (k : Kernel M) → objects (set_scheduler b k).1 ≡ objects k
  unfolding set_scheduler
  objects-set_scheduler b k =
      objects-if (b && k.queued) _ _ k (objects-yield (record k { enabled = b; queued = false }))
        refl
