-- ===== src/Kernel/Semaphore.antt =====
-- `class Semaphore` of src/ksemaphore.cpp. `others` is what the rest of the system does while the
-- calling thread is blocked, and a timed wait uses the timer `t` on its stack.
pub mod Laws
pub mod Keeps
use mark.Prelude.{
  ℕ, ◌+◌, ◌-◌, Bool, true, false, not, ◌&&◌, Option, none, some, ◌==◌, leb, ltb, if◌then◌else◌,
}
use mark.PrioMap.Interface.{PriorityMap}
use mark.ThreadList.Ring.{nonempty}
use mark.ThreadList.{ThreadId, highest_waiter}
use mark.Kernel.State.{Kernel, Semaphore, timed_semaphore, put_semaphore, set_expired, panic, fault}
use mark.Kernel.Scheduler.{yield}
use mark.Kernel.Blocking.{block_priority, unblock}
use mark.Kernel.Timer

abbrev pub panic_active_semaphore_descoped : ℕ
panic_active_semaphore_descoped = 8

module _ {M : Type 0} where
  -- `Semaphore::Init`
  unfoldable pub init : ℕ → ℕ → ℕ → Kernel M → Kernel M
  init i init_val max_val k =
      put_semaphore i
        (record (k.semaphore i) { value = init_val; max_value = max_val; initialized = true }) k

  -- `Semaphore::~Semaphore`
  unfoldable pub destroy : ℕ → Kernel M → Kernel M
  destroy i k =
      if nonempty (k.lists.list (k.semaphore i).block_list).members
      then panic panic_active_semaphore_descoped k
      else k

  -- `Semaphore::GetCount`
  abbrev pub get_count : ℕ → Kernel M → ℕ
  get_count i k = (k.semaphore i).value

module _ {M : Type 0} ⦃pm : PriorityMap M⦄ where
  -- `Semaphore::WakeMe`
  abbrev pub wake_me : ThreadId → Kernel M → Kernel M
  wake_me t k = unblock t k

  -- `Semaphore::WakeNext`
  unfoldable pub wake_next : ℕ → Kernel M → Bool × Kernel M
  wake_next i k = elim (highest_waiter (k.semaphore i).block_list k.lists) [
    | none ↦ (false, fault k)
    | some t ↦
        let k' = unblock t k in
        (leb (k'.thread k'.current).cur_priority (k'.thread t).cur_priority, k')
  ]

  -- `TimedSemaphore_Callback`.
  unfoldable pub timed_callback : ThreadId → Kernel M → Kernel M
  timed_callback t k =
      let k' = wake_me t (set_expired t true k) in
      if leb (k'.thread k'.current).cur_priority (k'.thread t).cur_priority then yield k' else k'

  -- `Semaphore::Post`
  unfoldable pub post : ℕ → Kernel M → Bool × Kernel M
  post i k =
      let sem = k.semaphore i in
      if nonempty (k.lists.list sem.block_list).members
      then (let (woken, k') = wake_next i k in (true, if woken then yield k' else k'))
      else if ltb sem.value sem.max_value
      then (true, put_semaphore i (record sem { value = sem.value + 1 }) k)
      else (false, k)

  module _ (others : Kernel M → Kernel M) where
    -- `Semaphore::Pend_i` up to the call of `Thread::Yield`, where the count is zero.
    unfoldable pub wait_for : ℕ → ℕ → ℕ → Kernel M → Kernel M
    wait_for i t wait k =
        let k₁ =
          if wait == 0
          then k
          else Timer.start others t false wait (timed_semaphore i)
              (Timer.init t (set_expired k.current false k)) in
        yield (block_priority (k₁.semaphore i).block_list k₁.current k₁)

    -- `Semaphore::Pend_i`
    unfoldable pub pend_i : ℕ → ℕ → ℕ → Kernel M → Bool × Kernel M
    pend_i i t wait k =
        let k₀ = Timer.construct t k in
        let sem = k₀.semaphore i in
        if not (sem.value == 0)
        then (true, put_semaphore i (record sem { value = sem.value - 1 }) k₀)
        else (let k₁ = others (wait_for i t wait k₀) in
            if wait == 0
            then (true, k₁)
            else (let k₂ = Timer.stop others t k₁ in (not (k₂.thread k₂.current).expired, k₂)))
