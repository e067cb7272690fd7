-- ===== src/Kernel/Thread.antt =====
-- The life of a thread: `Init`, `Start`, `Stop`, `Exit`, `Sleep` and the destructor of src/thread.cpp.
use mark.Prelude.{ℕ, Bool, false, none, some, ◌==◌, leb, if◌then◌else◌}
use mark.PrioMap.Interface.{PriorityMap}
use mark.ThreadList.{ThreadId, add, remove}
use mark.ThreadList.Consistent.{stop_list, ready_list}
use mark.Kernel.State.{
  Kernel, Thread, ThreadState, exit, ready, blocked, invalid, post_semaphore, put_thread, set_state,
  set_current, set_owner, panic, fault,
}
use mark.Kernel.State
use mark.Kernel.Quantum
use mark.Kernel.Scheduler.{scheduler_add, scheduler_remove, yield}
use mark.Kernel.TimerList
use mark.Kernel.Timer
use mark.Kernel.Semaphore

abbrev pub panic_running_thread_descoped : ℕ
panic_running_thread_descoped = 7

-- `THREAD_QUANTUM_DEFAULT`
abbrev pub default_quantum : ℕ
default_quantum = 4

module _ {M : Type 0} ⦃pm : PriorityMap M⦄ where
  -- `m_pclCurrent->Remove(this)`
  abbrev pub remove_from_current : ThreadId → Kernel M → Kernel M
  remove_from_current t k = elim (k.thread t).current [
    | none ↦ fault k
    | some l ↦ record k { lists = remove l t k.lists }
  ]

  -- `Thread::Init`: the stack is filled by the port's `InitStack`.
  unfoldable pub init :
      ThreadId → (untouched : ℕ → Bool) → (stack_size prio : ℕ) → Kernel M → Kernel M
  init t untouched stack_size prio k =
      let k₁ =
        put_thread t
          (record (k.thread t) {
            stack_size = stack_size;
            untouched = untouched;
            priority = prio;
            cur_priority = prio;
            quantum = default_quantum;
            owner = some (ready_list prio);
            current = some stop_list;
            state = State.stop;
          })
          (Timer.init (k.thread t).timer k) in
      record k₁ { lists = add stop_list t k₁.lists }

  -- `Thread::Start`
  unfoldable pub start : ThreadId → Kernel M → Kernel M
  start t k =
      let k₁ = scheduler_add t (record k { lists = remove stop_list t k.lists }) in
      let home = ready_list (k₁.thread t).priority in
      let k₂ = set_state t ready (set_current t (some home) (set_owner t (some home) k₁)) in
      if k₂.started
      then (if leb (k₂.thread k₂.current).cur_priority (k₂.thread t).cur_priority
          then yield (Quantum.update t k₂)
          else k₂)
      else k₂

  -- `Thread::~Thread`
  unfoldable pub destroy : ThreadId → Kernel M → Kernel M
  destroy t k = elim (k.thread t).state [
    | State.stop ↦
        set_state t exit (set_owner t none (set_current t none (remove_from_current t k)))
    | exit ↦ k
    | ready ↦ panic panic_running_thread_descoped k
    | blocked ↦ panic panic_running_thread_descoped k
    | invalid ↦ panic panic_running_thread_descoped k
  ]

  -- What `Stop` and `Exit` do to take a thread from its list.
  unfoldable pub leave : ThreadId → ThreadState → Kernel M → Kernel M
  leave t ready k = scheduler_remove t k
  leave t blocked k = remove_from_current t k
  leave t other k = k

  module _ (others : Kernel M → Kernel M) where
    abbrev pub cancel_own : ThreadId → Kernel M → Kernel M
    cancel_own t k = if t == k.current then Quantum.cancel k else k

    -- The critical section of `Stop`.
    unfoldable pub park : ThreadId → Kernel M → Kernel M
    park t k =
        let k₁ = leave t (k.thread t).state (cancel_own t k) in
        let k₂ = set_current t (some stop_list) (set_owner t (some stop_list) k₁) in
        let k₃ = set_state t State.stop (record k₂ { lists = add stop_list t k₂.lists }) in
        TimerList.remove others (k₃.thread t).timer k₃

    -- `Thread::Stop`
    unfoldable pub stop : ThreadId → Kernel M → Kernel M
    stop t k = elim (k.thread t).state [
      | State.stop ↦ k
      | _ ↦ if t == k.current then yield (park t k) else park t k
    ]

    abbrev pub leave_for_exit : ThreadId → Kernel M → Kernel M
    leave_for_exit t k = elim (k.thread t).state [
      | State.stop ↦ remove_from_current t k
      | _ ↦ leave t (k.thread t).state k
    ]

    -- The critical section of `Exit`.
    unfoldable pub retire : ThreadId → Kernel M → Kernel M
    retire t k =
        let k₁ = leave_for_exit t (cancel_own t k) in
        let k₂ =
          put_thread t
            (record (k₁.thread t) {
              current = none;
              owner = none;
              state = State.exit;
              cur_priority = 0;
              priority = 0;
            })
            k₁ in
        TimerList.remove others (k₂.thread t).timer k₂

    -- `Thread::Exit`
    unfoldable pub exit_thread : ThreadId → Kernel M → Kernel M
    exit_thread t k = elim (k.thread t).state [
      | State.exit ↦ k
      | _ ↦ if t == k.current then yield (retire t k) else retire t k
    ]

    -- `Thread::Sleep`, with the semaphore `s` on the caller's stack and the timer `u` of the pend.
    unfoldable pub sleep : ℕ → ℕ → ℕ → Kernel M → Kernel M
    sleep s u ms k =
        let t = (k.thread k.current).timer in
        let k₁ = Timer.init t (Semaphore.init s 0 1 k) in
        let k₂ = Timer.start others t false ms (post_semaphore s) k₁ in
        (Semaphore.pend_i others s u 0 k₂).1
