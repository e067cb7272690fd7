-- ===== src/Kernel/Sound/Threads.antt =====
-- The operations of `class Thread` keep the kernel sound.
use mark.Prelude.{
  ℕ, ◌≤◌, ◌<◌, ◌≡◌, refl, Bool, false, inl, inr, none, some, arith, ◌==◌, if◌then◌else◌, leb,
  Option-cases, ◌⊎◌,
}
use mark.PrioMap.Interface.{PriorityMap}
use mark.ThreadList.{ThreadId, ListId, add, remove}
use mark.ThreadList.Consistent.{stop_list, ready_list, add_plain-IsConsistent}
use mark.Kernel.State
use mark.Kernel.State.{
  Kernel, Thread, ThreadState, fault, panic, Callback, no_callback, timed_semaphore, timed_mutex,
  timed_event_flag, timed_notify, post_semaphore, user_callback, set_state, set_owner, set_current,
}
use mark.Kernel.Sound.{IsSound}
use mark.Kernel.Sound.Scheduling.{
  rebuild, remove-Sound, scheduler_add-Sound, yield-Sound, if-Sound, quiet-Sound,
}
use mark.Kernel.Scheduler.{yield, scheduler_add}
use mark.Kernel.Quantum
use mark.Kernel.Quiet.{objects-quantum}
use mark.Kernel.Timer
use mark.Kernel.Semaphore
use mark.Kernel.Thread
use mark.Kernel.Thread.{
  remove_from_current, leave, leave_for_exit, cancel_own, park, retire, exit_thread, sleep,
}
use mark.Kernel.Sound.Timers
use mark.Kernel.Sound.Timers.{start-Sound, timer_init-Sound, timer_remove-Sound, process-Sound}
use mark.Kernel.Sound.Objects.{semaphore_init-Sound, pend_i-Sound}

state-cases :
    (s : ThreadState)
    → (s ≡ State.stop)
      ⊎ ((s ≡ State.ready) ⊎ ((s ≡ State.blocked) ⊎ ((s ≡ State.exit) ⊎ (s ≡ State.invalid))))
state-cases State.stop = inl refl
state-cases State.ready = inr (inl refl)
state-cases State.blocked = inr (inr (inl refl))
state-cases State.exit = inr (inr (inr (inl refl)))
state-cases State.invalid = inr (inr (inr (inr refl)))

module _ {M : Type 0} ⦃pm : PriorityMap M⦄ (num : ℕ) (fits : num ≤ pm.capacity) where
  abbrev Ok : Kernel M → Type 0
  Ok k = IsSound num k

  -- A thread goes to a state, a list and an owner.
  relabel-Sound :
      (t : ThreadId) (st : ThreadState) (home : ListId) (k : Kernel M)
      → Ok k
      → Ok (set_state t st (set_current t (some home) (set_owner t (some home) k)))
  relabel-Sound t st home k h = rebuild num fits h h.consistent (λ u. ground (arith, h.in_range u))

  remove_from_current-Sound : (t : ThreadId) (k : Kernel M) → Ok k → Ok (remove_from_current t k)
  remove_from_current-Sound t k h = elim (Option-cases (k.thread t).current) [
    | inl e ↦ rw (e, remove_from_current) h
    | inr (l, e) ↦ rw (e, remove_from_current) (remove-Sound num fits l t k h)
  ]

  pub start_thread-Sound : (t : ThreadId) (k : Kernel M) → Ok k → Ok (Thread.start t k)
  unfolding Thread.start
  start_thread-Sound t k h =
      let k₀ = record k { lists = remove stop_list t k.lists } in
      let h₁ : Ok (scheduler_add t k₀) =
        scheduler_add-Sound num fits t k₀ (remove-Sound num fits stop_list t k h) in
      let home = ready_list (k₀.thread t).priority in
      let k₂ =
        set_state t State.ready
          (set_current t (some home) (set_owner t (some home) (scheduler_add t k₀))) in
      let h₂ : Ok k₂ = relabel-Sound t State.ready home (scheduler_add t k₀) h₁ in
      if-Sound num fits k₂.started _ k₂
        (if-Sound num fits (leb (k₂.thread k₂.current).cur_priority (k₂.thread t).cur_priority) _ k₂
          (yield-Sound num fits (Quantum.update t k₂)
            (quiet-Sound num fits (Quantum.update t k₂) k₂ (objects-quantum t k₂) h₂))
          h₂)
        h₂

  pub leave-Sound : (t : ThreadId) (st : ThreadState) (k : Kernel M) → Ok k → Ok (leave t st k)
  unfolding leave
  leave-Sound t State.ready k h = remove-Sound num fits _ t k h
  leave-Sound t State.blocked k h = remove_from_current-Sound t k h
  leave-Sound t State.stop k h = h
  leave-Sound t State.exit k h = h
  leave-Sound t State.invalid k h = h

  pub init_thread-Sound :
      (t : ThreadId) (untouched : ℕ → Bool) (size prio : ℕ) (k : Kernel M)
      → prio < num
      → Ok k
      → Ok (Thread.init t untouched size prio k)
  unfolding Thread.init Timer.init
  init_thread-Sound t untouched size prio k below h =
      rebuild num fits h
        (add_plain-IsConsistent num fits stop_list (inl refl) k.lists h.consistent t)
        (λ u. ground (arith, h.in_range u))

  leave_for_exit-Sound : (t : ThreadId) (k : Kernel M) → Ok k → Ok (leave_for_exit (λ s. s) t k)
  leave_for_exit-Sound t k h = elim (state-cases (k.thread t).state) [
    | inl e ↦ rw (e, leave_for_exit) (remove_from_current-Sound t k h)
    | inr (inl e) ↦ rw (e, leave_for_exit) (leave-Sound t (k.thread t).state k h)
    | inr (inr (inl e)) ↦ rw (e, leave_for_exit) (leave-Sound t (k.thread t).state k h)
    | inr (inr (inr (inl e))) ↦ rw (e, leave_for_exit) (leave-Sound t (k.thread t).state k h)
    | inr (inr (inr (inr e))) ↦ rw (e, leave_for_exit) (leave-Sound t (k.thread t).state k h)
  ]

  cancel_own-Sound : (t : ThreadId) (k : Kernel M) → Ok k → Ok (cancel_own (λ s. s) t k)
  cancel_own-Sound t k h = if-Sound num fits (t == k.current) (Quantum.cancel k) k h h

  module _ (others : Kernel M → Kernel M)
      (others_ok : (k : Kernel M) → IsSound num k → IsSound num (others k)) where
    park-Sound : (t : ThreadId) (k : Kernel M) → Ok k → Ok (park others t k)
    unfolding park
    park-Sound t k h =
        let st = (k.thread t).state in
        let h₁ = leave-Sound t st (cancel_own others t k) (cancel_own-Sound t k h) in
        let k₁ = leave t st (cancel_own others t k) in
        let k₂ = set_current t (some stop_list) (set_owner t (some stop_list) k₁) in
        let k₃ = set_state t State.stop (record k₂ { lists = add stop_list t k₂.lists }) in
        let h₃ : Ok k₃ =
          rebuild num fits h₁
            (add_plain-IsConsistent num fits stop_list (inl refl) k₁.lists h₁.consistent t)
            (λ u. ground (arith, h₁.in_range u)) in
        timer_remove-Sound num fits others others_ok (k₃.thread t).timer k₃ h₃

    retire-Sound : (t : ThreadId) (k : Kernel M) → Ok k → Ok (retire others t k)
    unfolding retire
    retire-Sound t k h =
        let h₁ = leave_for_exit-Sound t (cancel_own others t k) (cancel_own-Sound t k h) in
        let k₁ = leave_for_exit others t (cancel_own others t k) in
        let k₂ =
          State.put_thread t
            (record (k₁.thread t) {
              current = none;
              owner = none;
              state = State.exit;
              cur_priority = 0;
              priority = 0;
            })
            k₁ in
        let h₂ : Ok k₂ = rebuild num fits h₁ h₁.consistent (λ u. ground (arith, h₁.in_range u)) in
        timer_remove-Sound num fits others others_ok (k₂.thread t).timer k₂ h₂

    -- Both end in a yield when the thread is the running one.
    yield_if-Sound : (b : Bool) (k : Kernel M) → Ok k → Ok (if b then yield k else k)
    yield_if-Sound b k h = if-Sound num fits b (yield k) k (yield-Sound num fits k h) h

    pub stop_thread-Sound : (t : ThreadId) (k : Kernel M) → Ok k → Ok (Thread.stop others t k)
    unfolding Thread.stop
    stop_thread-Sound t k h = elim (state-cases (k.thread t).state) [
      | inl e ↦ rw (e, Thread.stop) h
      | inr (inl e) ↦ rw (e, Thread.stop) (yield_if-Sound _ _ (park-Sound t k h))
      | inr (inr (inl e)) ↦ rw (e, Thread.stop) (yield_if-Sound _ _ (park-Sound t k h))
      | inr (inr (inr (inl e))) ↦ rw (e, Thread.stop) (yield_if-Sound _ _ (park-Sound t k h))
      | inr (inr (inr (inr e))) ↦ rw (e, Thread.stop) (yield_if-Sound _ _ (park-Sound t k h))
    ]

    pub exit_thread-Sound : (t : ThreadId) (k : Kernel M) → Ok k → Ok (exit_thread others t k)
    unfolding exit_thread
    exit_thread-Sound t k h = elim (state-cases (k.thread t).state) [
      | inl e ↦ rw (e, exit_thread) (yield_if-Sound _ _ (retire-Sound t k h))
      | inr (inl e) ↦ rw (e, exit_thread) (yield_if-Sound _ _ (retire-Sound t k h))
      | inr (inr (inl e)) ↦ rw (e, exit_thread) (yield_if-Sound _ _ (retire-Sound t k h))
      | inr (inr (inr (inl e))) ↦ rw (e, exit_thread) h
      | inr (inr (inr (inr e))) ↦ rw (e, exit_thread) (yield_if-Sound _ _ (retire-Sound t k h))
    ]

    pub sleep-Sound : (s u ms : ℕ) (k : Kernel M) → Ok k → Ok (sleep others s u ms k)
    unfolding sleep
    sleep-Sound s u ms k h =
        let t = (k.thread k.current).timer in
        let k₁ = Timer.init t (Semaphore.init s 0 1 k) in
        let h₁ : Ok k₁ =
          timer_init-Sound num fits others others_ok t (Semaphore.init s 0 1 k)
            (semaphore_init-Sound num fits s 0 1 k h) in
        let h₂ = Timers.start-Sound num fits others others_ok t false ms (post_semaphore s) k₁ h₁ in
        pend_i-Sound num fits others others_ok s u 0 _ h₂
