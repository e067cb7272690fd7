-- ===== src/Kernel/Expiry.antt =====
-- The timer tick: what each callback does, and the body of the timer thread's loop (`KernelTimer_Task`
-- of the ports).
use mark.Prelude.{ℕ}
use mark.PrioMap.Interface.{PriorityMap}
use mark.ThreadList.{ThreadId}
use mark.Kernel.State.{
  Kernel, Callback, no_callback, timed_semaphore, timed_mutex, timed_event_flag, timed_notify,
  post_semaphore, user_callback,
}
use mark.Kernel.Quantum
use mark.Kernel.TimerList
use mark.Kernel.Semaphore
use mark.Kernel.TimedMutex
use mark.Kernel.EventFlag
use mark.Kernel.Notify

module _ {M : Type 0} ⦃pm : PriorityMap M⦄ (user : ℕ → ℕ → ThreadId → Kernel M → Kernel M) where
  -- `user f d` is the program's callback `f` with the data `d`.
  unfoldable pub call : Callback → ThreadId → Kernel M → Kernel M
  call no_callback t k = k
  call (timed_semaphore s) t k = Semaphore.timed_callback t k
  call (timed_mutex m) t k = TimedMutex.timed_callback t k
  call (timed_event_flag e) t k = EventFlag.timed_callback t k
  call (timed_notify n) t k = Notify.timed_callback t k
  call (post_semaphore s) t k = (Semaphore.post s k).1
  call (user_callback f d) t k = user f d t k

  -- One round of the timer thread after its semaphore has been posted.
  unfoldable pub timer_round : (others : Kernel M → Kernel M) → ℕ → Kernel M → Kernel M
  timer_round others fuel k =
      Quantum.clear_in_timer (TimerList.process others call fuel (Quantum.set_in_timer k))
