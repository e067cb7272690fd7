-- ===== src/Kernel/TimedMutex.antt =====
-- `Mutex::Claim(uint32_t)` of src/mutex.cpp, with the timer `t` on the caller's stack, and
-- `TimedMutex_Callback`.
use mark.Prelude.{ℕ, Bool, true, false, leb, if◌then◌else◌}
use mark.PrioMap.Interface.{PriorityMap}
use mark.ThreadList.{ThreadId}
use mark.Kernel.State.{Kernel, timed_mutex, set_expired}
use mark.Kernel.Scheduler.{yield}
use mark.Kernel.Blocking.{unblock}
use mark.Kernel.Mutex.{claim_i, release}
use mark.Kernel.Timer

module _ {M : Type 0} ⦃pm : PriorityMap M⦄ where
  unfoldable pub claim_timed :
      (others : Kernel M → Kernel M) → ℕ → ℕ → ℕ → Kernel M → Bool × Kernel M
  claim_timed others i t ms k =
      claim_i (λ s. Timer.start others t false ms (timed_mutex i) (Timer.init t s))
        (Timer.stop others t) others i ms (Timer.construct t k)

  -- A scope that holds a `LockGuard` with a timeout; the body may ask whether it is acquired.
  abbrev pub with_lock_timed :
      (others : Kernel M → Kernel M)
      → ℕ
      → ℕ
      → ℕ
      → (Bool → Kernel M → Kernel M)
      → Kernel M
      → Kernel M
  with_lock_timed others i t ms body k =
      let (acquired, k₁) = claim_timed others i t ms k in
      let k₂ = body acquired k₁ in if acquired then release i k₂ else k₂

  -- `TimedMutex_Callback`
  unfoldable pub timed_callback : ThreadId → Kernel M → Kernel M
  timed_callback t k =
      let k' = unblock t (set_expired t true k) in
      if leb (k'.thread k'.current).cur_priority (k'.thread t).cur_priority then yield k' else k'
