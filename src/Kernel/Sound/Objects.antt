-- ===== src/Kernel/Sound/Objects.antt =====
-- Semaphores and notifications, and the timeouts of every wait, keep the kernel sound.
use mark.Prelude.{
  ℕ, zero, suc, ◌≤◌, ◌<◌, Bool, true, false, inl, inr, arith, ◌==◌, if◌then◌else◌, ltb,
  Option-cases, not, leb,
}
use mark.PrioMap.Interface.{PriorityMap}
use mark.ThreadList.Ring.{nonempty}
use mark.ThreadList.{ThreadId, highest_waiter}
use mark.Kernel.State.{Kernel, Semaphore, Notify, put_semaphore, put_notify, set_expired, Callback}
use mark.Kernel.Sound.{IsSound}
use mark.Kernel.Sound.Scheduling.{
  rebuild, with_semaphores, with_notifies, block-Sound, block_priority-Sound, unblock-Sound,
  yield-Sound, if-Sound, if_pair-Sound, if_triple-Sound,
}
use mark.Kernel.State.{timed_semaphore, timed_notify}
use mark.Kernel.Scheduler.{yield}
use mark.Kernel.Blocking.{unblock}
use mark.Kernel.Timer
use mark.Kernel.Semaphore
use mark.Kernel.Notify
use mark.Kernel.Notify.{set_pending, wake_all}
use mark.Kernel.EventFlag
use mark.Kernel.EventFlag.{
  tag_one, tag_all, unblock_tagged, is_pending, match_now, matches, matched_mask, is_clear,
}
use mark.Kernel.Sound.Timers.{start-Sound, stop-Sound, construct-Sound, timer_init-Sound}

module _ {M : Type 0} ⦃pm : PriorityMap M⦄ (num : ℕ) (fits : num ≤ pm.capacity) where
  abbrev Ok : Kernel M → Type 0
  Ok k = IsSound num k

  put_semaphore-Sound :
      (i : ℕ) (v : Semaphore) (k : Kernel M) → num < v.block_list → Ok k → Ok (put_semaphore i v k)
  put_semaphore-Sound i v k p h =
      with_semaphores num fits h (λ j. ground (arith, h.semaphore_apart j))

  put_notify-Sound :
      (i : ℕ) (v : Notify) (k : Kernel M) → num < v.block_list → Ok k → Ok (put_notify i v k)
  put_notify-Sound i v k p h = with_notifies num fits h (λ j. ground (arith, h.notify_apart j))

  pub expired-Sound : (t : ThreadId) (b : Bool) (k : Kernel M) → Ok k → Ok (set_expired t b k)
  expired-Sound t b k h = rebuild num fits h h.consistent (λ u. ground (arith, h.in_range u))

  pub semaphore_init-Sound : (i a b : ℕ) (k : Kernel M) → Ok k → Ok (Semaphore.init i a b k)
  unfolding Semaphore.init
  semaphore_init-Sound i a b k h = put_semaphore-Sound i _ k (h.semaphore_apart i) h

  semaphore_wake_next-Sound : (i : ℕ) (k : Kernel M) → Ok k → Ok (Semaphore.wake_next i k).1
  unfolding Semaphore.wake_next
  semaphore_wake_next-Sound i k h =
      elim (Option-cases (highest_waiter (k.semaphore i).block_list k.lists)) [
        | inl e ↦ rw (e, Semaphore.wake_next) h
        | inr (t, e) ↦ rw (e, Semaphore.wake_next) (unblock-Sound num fits t k h)
      ]

  pub post-Sound : (i : ℕ) (k : Kernel M) → Ok k → Ok (Semaphore.post i k).1
  unfolding Semaphore.post
  post-Sound i k h =
      let h' = semaphore_wake_next-Sound i k h in
      if_pair-Sound num fits (nonempty (k.lists.list (k.semaphore i).block_list).members) _ _
        (if-Sound num fits (Semaphore.wake_next i k).0 _ _ (yield-Sound num fits _ h') h')
        (if_pair-Sound num fits (ltb (k.semaphore i).value (k.semaphore i).max_value) _ (false, k)
          (put_semaphore-Sound i _ k (h.semaphore_apart i) h) h)

  pub woken-Sound :
      (t : ThreadId) (k : Kernel M)
      → Ok k
      → Ok (
          let k' = unblock t k in
          if leb (k'.thread k'.current).cur_priority (k'.thread t).cur_priority
          then yield k'
          else k')
  woken-Sound t k h =
      let h' = unblock-Sound num fits t k h in
      if-Sound num fits _ _ _ (yield-Sound num fits _ h') h'

  pub semaphore_timeout-Sound :
      (t : ThreadId) (k : Kernel M) → Ok k → Ok (Semaphore.timed_callback t k)
  unfolding Semaphore.timed_callback
  semaphore_timeout-Sound t k h = woken-Sound t _ (expired-Sound t true k h)

  pub notify_timeout-Sound : (t : ThreadId) (k : Kernel M) → Ok k → Ok (Notify.timed_callback t k)
  unfolding Notify.timed_callback
  notify_timeout-Sound t k h = woken-Sound t _ (expired-Sound t true k h)

  pub event_flag_timeout-Sound :
      (t : ThreadId) (k : Kernel M) → Ok k → Ok (EventFlag.timed_callback t k)
  unfolding EventFlag.timed_callback
  event_flag_timeout-Sound t k h =
      woken-Sound t _ (rebuild num fits h h.consistent (λ u. ground (arith, h.in_range u)))

  wake_all-Sound : (fuel i : ℕ) (b : Bool) (k : Kernel M) → Ok k → Ok (wake_all fuel i b k).1
  unfolding wake_all
  wake_all-Sound zero i b k h = h
  wake_all-Sound (suc fuel) i b k h =
      elim (Option-cases (highest_waiter (k.notify i).block_list k.lists)) [
        | inl e ↦ rw (e, wake_all) h
        | inr (t, e) ↦
            rw (e, wake_all) (wake_all-Sound fuel i _ (unblock t k) (unblock-Sound num fits t k h))
      ]

  pub pending-Sound : (i : ℕ) (b : Bool) (k : Kernel M) → Ok k → Ok (set_pending i b k)
  pending-Sound i b k h = put_notify-Sound i _ k (h.notify_apart i) h

  pub notify_init-Sound : (i : ℕ) (k : Kernel M) → Ok k → Ok (Notify.init i k)
  unfolding Notify.init
  notify_init-Sound i k h = put_notify-Sound i _ k (h.notify_apart i) h

  pub signal-Sound : (fuel i : ℕ) (k : Kernel M) → Ok k → Ok (Notify.signal fuel i k)
  unfolding Notify.signal
  signal-Sound fuel i k h =
      let h' =
        pending-Sound i false (wake_all fuel i false k).1 (wake_all-Sound fuel i false k h) in
      if-Sound num fits (nonempty (k.lists.list (k.notify i).block_list).members) _ _
        (if-Sound num fits (wake_all fuel i false k).0 _ _ (yield-Sound num fits _ h') h')
        (pending-Sound i true k h)

  module _ (others : Kernel M → Kernel M)
      (others_ok : (k : Kernel M) → IsSound num k → IsSound num (others k)) where
    -- A timed wait arms the timer of the calling thread.
    pub armed-Sound :
        (t ms : ℕ) (cb : Callback) (k : Kernel M)
        → Ok k
        → Ok (
            if ms == 0
            then k
            else Timer.start others t false ms cb (Timer.init t (set_expired k.current false k)))
    armed-Sound t ms cb k h = if-Sound num fits (ms == 0) k _ h (
        start-Sound num fits others others_ok t false ms cb _
          (timer_init-Sound num fits others others_ok t _ (expired-Sound k.current false k h)))

    pub pend_i-Sound :
        (i t wait : ℕ) (k : Kernel M) → Ok k → Ok (Semaphore.pend_i others i t wait k).1
    unfolding Semaphore.pend_i Semaphore.wait_for
    pend_i-Sound i t wait k h =
        let k₀ = Timer.construct t k in
        let h₀ : Ok k₀ = construct-Sound num fits others others_ok t k h in
        let h₁ = armed-Sound t wait (timed_semaphore i) k₀ h₀ in
        let h₂ = others_ok _ (
          yield-Sound num fits _ (block_priority-Sound num fits _ _ _ (h₁.semaphore_apart i) h₁)) in
        if_pair-Sound num fits (not ((k₀.semaphore i).value == 0)) _ _
          (put_semaphore-Sound i _ k₀ (h₀.semaphore_apart i) h₀)
          (if_pair-Sound num fits (wait == 0) _ _ h₂ (stop-Sound num fits others others_ok t _ h₂))

    pub notify_wait-Sound : (i : ℕ) (k : Kernel M) → Ok k → Ok (Notify.wait others i k).1
    unfolding Notify.wait
    notify_wait-Sound i k h =
        if_pair-Sound num fits (k.notify i).pending _ _ (pending-Sound i false k h) (
          others_ok _
            (yield-Sound num fits _ (block-Sound num fits _ k.current k (h.notify_apart i) h)))

    pub notify_wait_timed-Sound :
        (i t ms : ℕ) (k : Kernel M) → Ok k → Ok (Notify.wait_timed others i t ms k).2
    unfolding Notify.wait_timed
    notify_wait_timed-Sound i t ms k h =
        let k₀ = Timer.construct t k in
        let h₀ : Ok k₀ = construct-Sound num fits others others_ok t k h in
        let h₁ = armed-Sound t ms (timed_notify i) k₀ h₀ in
        let h₂ =
          others_ok _
            (yield-Sound num fits _ (block-Sound num fits _ _ _ (h₁.notify_apart i) h₁)) in
        if_triple-Sound num fits (k₀.notify i).pending _ _ (pending-Sound i false k₀ h₀)
          (if_triple-Sound num fits (ms == 0) _ _ h₂ (stop-Sound num fits others others_ok t _ h₂))
