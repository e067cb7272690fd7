-- ===== src/Kernel/Sound/Ticks.antt =====
-- A round of the timer thread, the turns of the ready lists, and the timed claim of a mutex keep the
-- kernel sound.
use mark.Prelude.{ℕ, ◌≤◌, true, false, inl, inr, ◌==◌, Bool-cases, Option-cases, not}
use mark.PrioMap.Interface.{PriorityMap}
use mark.ThreadList.{ThreadId, ListId, pivot_list}
use mark.ThreadList.Consistent.{pivot_list-IsConsistent}
use mark.Kernel.State.{
  Kernel, Callback, no_callback, timed_semaphore, timed_mutex, timed_event_flag, timed_notify,
  post_semaphore, user_callback,
}
use mark.Kernel.Sound.{IsSound}
use mark.Kernel.Sound.Scheduling.{rebuild, yield-Sound, if-Sound}
use mark.Kernel.Scheduler.{coop_yield}
use mark.Kernel.Quantum
use mark.Kernel.Timer
use mark.Kernel.TimedMutex
use mark.Kernel.Expiry.{call, timer_round}
use mark.Kernel.Sound.Locks.{claim_i-Sound}
use mark.Kernel.Sound.Timers
use mark.Kernel.Sound.Timers.{start-Sound, timer_init-Sound, timer_remove-Sound, process-Sound}
use mark.Kernel.Sound.Objects.{
  post-Sound, semaphore_timeout-Sound, notify_timeout-Sound, event_flag_timeout-Sound, woken-Sound,
  expired-Sound,
}

module _ {M : Type 0} ⦃pm : PriorityMap M⦄ (num : ℕ) (fits : num ≤ pm.capacity) where
  abbrev Ok : Kernel M → Type 0
  Ok k = IsSound num k

  pub timed_mutex-Sound : (t : ThreadId) (k : Kernel M) → Ok k → Ok (TimedMutex.timed_callback t k)
  unfolding TimedMutex.timed_callback
  timed_mutex-Sound t k h = woken-Sound num fits t _ (expired-Sound num fits t true k h)

  pivot-Sound : (l : ListId) (k : Kernel M) → Ok k → Ok (record k { lists = pivot_list l k.lists })
  pivot-Sound l k h =
      rebuild num fits h (pivot_list-IsConsistent num fits l k.lists h.consistent) h.in_range

  pivot_active-Sound : (t : ThreadId) (k : Kernel M) → Ok k → Ok (Quantum.pivot_active t k)
  unfolding Quantum.pivot_active
  pivot_active-Sound t k h = elim (Option-cases (k.thread t).current) [
    | inl e ↦ rw (e, Quantum.pivot_active) h
    | inr (l, e) ↦ elim (Bool-cases (not (Quantum.is_single l k))) [
      | inl several ↦ rw (e, Quantum.pivot_active, several) (pivot-Sound l k h)
      | inr single ↦ rw (e, Quantum.pivot_active, single) h
    ]
  ]

  pub clear_in_timer-Sound : (k : Kernel M) → Ok k → Ok (Quantum.clear_in_timer k)
  unfolding Quantum.clear_in_timer
  clear_in_timer-Sound k h = elim (Option-cases k.active_thread) [
    | inl e ↦ rw (e, Quantum.clear_in_timer) h
    | inr (t, e) ↦
        rw (e, Quantum.clear_in_timer)
          (if-Sound num fits (k.ticks_remain == 0) _ _
            (pivot_active-Sound t (record k { in_timer = false }) h) h)
  ]

  pub coop_yield-Sound : (k : Kernel M) → Ok k → Ok (coop_yield k)
  unfolding coop_yield
  coop_yield-Sound k h = elim (Option-cases (k.thread k.current).current) [
    | inl e ↦ rw (e, coop_yield) h
    | inr (l, e) ↦ rw (e, coop_yield) (yield-Sound num fits _ (pivot-Sound l k h))
  ]

  module _ (user : ℕ → ℕ → ThreadId → Kernel M → Kernel M)
      (user_ok : (f d : ℕ) (t : ThreadId) (k : Kernel M)
        → IsSound num k
        → IsSound num (user f d t k)) where
    pub call-Sound : (cb : Callback) (t : ThreadId) (k : Kernel M) → Ok k → Ok (call user cb t k)
    unfolding call
    call-Sound no_callback t k h = h
    call-Sound (timed_semaphore s) t k h = semaphore_timeout-Sound num fits t k h
    call-Sound (timed_mutex m) t k h = timed_mutex-Sound t k h
    call-Sound (timed_event_flag e) t k h = event_flag_timeout-Sound num fits t k h
    call-Sound (timed_notify n) t k h = notify_timeout-Sound num fits t k h
    call-Sound (post_semaphore s) t k h = post-Sound num fits s k h
    call-Sound (user_callback f d) t k h = user_ok f d t k h

    pub timer_round-Sound :
        (others : Kernel M → Kernel M)
        → ((k : Kernel M) → IsSound num k → IsSound num (others k))
        → (fuel : ℕ) (k : Kernel M) → Ok k
        → Ok (timer_round user others fuel k)
    unfolding timer_round Quantum.set_in_timer
    timer_round-Sound others others_ok fuel k h = clear_in_timer-Sound _ (
        process-Sound num fits others others_ok (call user) call-Sound fuel (Quantum.set_in_timer k)
          h)

  module _ (others : Kernel M → Kernel M)
      (others_ok : (k : Kernel M) → IsSound num k → IsSound num (others k)) where
    pub claim_timed-Sound :
        (i t ms : ℕ) (k : Kernel M) → Ok k → Ok (TimedMutex.claim_timed others i t ms k).1
    unfolding TimedMutex.claim_timed
    claim_timed-Sound i t ms k h =
        claim_i-Sound num fits (λ s. Timer.start others t false ms (timed_mutex i) (Timer.init t s))
          (Timer.stop others t) others
          (λ s p.
            Timers.start-Sound num fits others others_ok t false ms (timed_mutex i) (Timer.init t s)
              (timer_init-Sound num fits others others_ok t s p))
          (Timers.stop-Sound num fits others others_ok t) others_ok i ms (Timer.construct t k)
          (Timers.construct-Sound num fits others others_ok t k h)
