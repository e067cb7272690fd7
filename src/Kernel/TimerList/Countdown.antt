-- ===== src/Kernel/TimerList/Countdown.antt =====
-- The ticks of one timer until its callback (`TimerList::Process`, src/timerlist.cpp).
use mark.Prelude.{ℕ, zero, suc, ◌+◌, ◌-◌, ◌%◌, ◌^◌, ◌<◌, ◌≡◌, ◌∙◌, ap, true, false, arith, ◌==◌}
use mark.PrioMap.Interface.{PriorityMap}
use mark.ThreadList.{ThreadId}
use mark.Kernel.State.{Kernel, Callback, put_timer}
use mark.Prelude.{if_true, if_false, update-own, update_twice}
use mark.Kernel.TimerList.{tick, after_callback}

not_zero : (n m : ℕ) → n ≡ suc m → (n == 0) ≡ false
not_zero n m e = ground (arith, e)

is_zero : (n : ℕ) → n ≡ 0 → (n == 0) ≡ true
is_zero n e = ground (arith, e)

module _ {M : Type 0} ⦃pm : PriorityMap M⦄ (others : Kernel M → Kernel M)
    (call : Callback → ThreadId → Kernel M → Kernel M) (t : ℕ) where
  -- `n` ticks of the timer, one after another.
  unfoldable pub ticks : ℕ → Kernel M → Kernel M
  ticks zero k = k
  ticks (suc n) k = ticks n (tick others call t k)

  abbrev pub with_left : ℕ → Kernel M → Kernel M
  with_left left k = put_timer t (record (k.timer t) { time_left = left }) k

  pub tick-counts :
      (left : ℕ) (k : Kernel M)
      → (k.timer t).active ≡ true
      → (k.timer t).time_left ≡ suc (suc left)
      → suc left < 2 ^ 32
      → tick others call t k ≡ with_left (suc left) k
  unfolding tick
  tick-counts left k on at small =
      let less : ((k.timer t).time_left + 2 ^ 32 - 1) % 2 ^ 32 ≡ suc left = grind (arith, at) in
      if_true _ _ on ∙ if_false _ _ (not_zero _ _ less) ∙ ap (λ l. with_left l k) less

  tick-expires :
      (k : Kernel M)
      → (k.timer t).active ≡ true
      → (k.timer t).time_left ≡ 1
      → tick others call t k
        ≡ after_callback others call t (call (k.timer t).callback (k.timer t).owner (with_left 0 k))
  unfolding tick
  tick-expires k on at =
      let over : ((k.timer t).time_left + 2 ^ 32 - 1) % 2 ^ 32 ≡ 0 = grind (arith, at) in
      if_true _ _ on
      ∙ if_true _ _ (is_zero _ over)
      ∙ ap
          (λ l.
            after_callback others call t
              (call (k.timer t).callback (k.timer t).owner (with_left l k)))
          over

  -- The ticks of an active timer that has `left + 1` of them left.
  pub ticks-after_callback :
      (left : ℕ) (k : Kernel M)
      → (k.timer t).active ≡ true
      → (k.timer t).time_left ≡ suc left
      → suc left < 2 ^ 32
      → ticks (suc left) k
        ≡ after_callback others call t (call (k.timer t).callback (k.timer t).owner (with_left 0 k))
  unfolding ticks
  ticks-after_callback zero k on at small = tick-expires k on at
  ticks-after_callback (suc left) k on at small =
      let k₁ = with_left (suc left) k in
      let own : k₁.timer t ≡ record (k.timer t) { time_left = suc left } = update-own k.timer t _ in
      ap (ticks (suc left)) (tick-counts left k on at (omega arith))
      ∙ ticks-after_callback left k₁ (ap (λ v. v.active) own ∙ on) (ap (λ v. v.time_left) own)
          (omega arith)
      ∙ ap
          (λ v.
            after_callback others call t
              (call v.callback v.owner (put_timer t (record v { time_left = 0 }) k₁)))
          own
      ∙ ap
          (λ f.
            after_callback others call t
              (call (k.timer t).callback (k.timer t).owner (record k { timer = f })))
          (update_twice k.timer t (record (k.timer t) { time_left = suc left })
            (record (k.timer t) { time_left = 0 }))
