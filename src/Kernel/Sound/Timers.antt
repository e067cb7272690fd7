-- ===== src/Kernel/Sound/Timers.antt =====
-- The timer list and the timers keep the kernel sound, with any callbacks that do.
use mark.Prelude.{
  ℕ, zero, suc, ◌+◌, ◌≤◌, Bool, true, false, Option, none, some, ◌==◌, if◌then◌else◌, ◌-◌, ◌%◌, ◌^◌,
}
use mark.PrioMap.Interface.{PriorityMap}
use mark.ThreadList.Ring.{head?}
use mark.ThreadList.{ThreadId}
use mark.Kernel.State.{Kernel, Callback, put_timer}
use mark.Kernel.Sound.{IsSound}
use mark.Kernel.Sound.Scheduling.{if-Sound}
use mark.Kernel.TimerList
use mark.Kernel.TimerList.{link, unlink, tick, after_callback, process_from, process, successor}
use mark.Kernel.Timer
use mark.Kernel.Sound.Locks.{with_lock-Sound}

module _ {M : Type 0} ⦃pm : PriorityMap M⦄ (num : ℕ) (fits : num ≤ pm.capacity)
    (others : Kernel M → Kernel M)
    (others_ok : (k : Kernel M) → IsSound num k → IsSound num (others k)) where
  abbrev Ok : Kernel M → Type 0
  Ok k = IsSound num k

  pub timer_add-Sound : (t : ℕ) (k : Kernel M) → Ok k → Ok (TimerList.add others t k)
  unfolding TimerList.add link
  timer_add-Sound t k h =
      with_lock-Sound num fits others others_ok k.timer_mutex (link t) k (λ s p. p) h

  pub timer_remove-Sound : (t : ℕ) (k : Kernel M) → Ok k → Ok (TimerList.remove others t k)
  unfolding TimerList.remove unlink
  timer_remove-Sound t k h =
      with_lock-Sound num fits others others_ok k.timer_mutex (unlink t) k (λ s p. p) h

  pub start-Sound :
      (t : ℕ) (repeat : Bool) (ms : ℕ) (cb : Callback) (k : Kernel M)
      → Ok k
      → Ok (Timer.start others t repeat ms cb k)
  unfolding Timer.start Timer.restart
  start-Sound t repeat ms cb k h =
      if-Sound num fits (k.timer t).active k _ h (if-Sound num fits _ _ _ h (timer_add-Sound t _ h))

  pub stop-Sound : (t : ℕ) (k : Kernel M) → Ok k → Ok (Timer.stop others t k)
  unfolding Timer.stop
  stop-Sound t k h = if-Sound num fits (k.timer t).active _ k (timer_remove-Sound t k h) h

  pub timer_init-Sound : (t : ℕ) (k : Kernel M) → Ok k → Ok (Timer.init t k)
  unfolding Timer.init
  timer_init-Sound t k h = h

  pub construct-Sound : (t : ℕ) (k : Kernel M) → Ok k → Ok (Timer.construct t k)
  unfolding Timer.construct
  construct-Sound t k h = h

  module _ (call : Callback → ThreadId → Kernel M → Kernel M)
      (call_ok : (cb : Callback) (t : ThreadId) (k : Kernel M) → Ok k → Ok (call cb t k)) where
    after_callback-Sound : (t : ℕ) (k : Kernel M) → Ok k → Ok (after_callback others call t k)
    after_callback-Sound t k h =
        let tm = k.timer t in
        let k₁ = put_timer t (record tm { expired = true; active = false }) k in
        let h₁ : Ok k₁ = h in
        if-Sound num fits tm.one_shot (TimerList.remove others t k₁)
          (put_timer t (record tm { time_left = tm.interval }) k) (timer_remove-Sound t k₁ h₁) h

    tick-Sound : (t : ℕ) (k : Kernel M) → Ok k → Ok (tick others call t k)
    unfolding tick
    tick-Sound t k h =
        let tm = k.timer t in
        let left = (tm.time_left + 2 ^ 32 - 1) % 2 ^ 32 in
        let k₁ = put_timer t (record tm { time_left = left }) k in
        let h₁ : Ok k₁ = h in
        let k₂ = call tm.callback tm.owner k₁ in
        let h₂ : Ok k₂ = call_ok tm.callback tm.owner k₁ h₁ in
        if-Sound num fits tm.active (if left == 0 then after_callback others call t k₂ else k₁) k
          (if-Sound num fits (left == 0) (after_callback others call t k₂) k₁
            (after_callback-Sound t k₂ h₂) h₁)
          h

    process_from-Sound :
        (fuel : ℕ) (cur : Option ℕ) (k : Kernel M) → Ok k → Ok (process_from others call fuel cur k)
    unfolding process_from
    process_from-Sound zero cur k h = h
    process_from-Sound (suc fuel) none k h = h
    process_from-Sound (suc fuel) (some t) k h =
        process_from-Sound fuel (successor k.timer_list t) (tick others call t k) (tick-Sound t k h)

    pub process-Sound : (fuel : ℕ) (k : Kernel M) → Ok k → Ok (process others call fuel k)
    unfolding process
    process-Sound fuel k h =
        with_lock-Sound num fits others others_ok k.timer_mutex
          (λ s. process_from others call fuel (head? s.timer_list) s) k
          (λ s p. process_from-Sound fuel (head? s.timer_list) s p) h
