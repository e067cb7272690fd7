-- ===== src/Kernel/Timer.antt =====
-- `class Timer` of src/timer.cpp; src/public/timerscheduler.h passes its calls on to the one timer list.
use mark.Prelude.{ℕ, Bool, true, false, not, if◌then◌else◌}
use mark.PrioMap.Interface.{PriorityMap}
use mark.Kernel.State.{Kernel, Callback, put_timer}
use mark.Kernel.TimerList

module _ {M : Type 0} where
  -- `Timer::Timer`
  unfoldable pub construct : ℕ → Kernel M → Kernel M
  construct t k =
      put_timer t
        (record (k.timer t) {
          initialized = false;
          one_shot = false;
          active = false;
          expired = false;
        })
        k

  -- `Timer::Init`
  unfoldable pub init : ℕ → Kernel M → Kernel M
  init t k =
      put_timer t
        (record (k.timer t) {
          interval = 0;
          time_left = 0;
          one_shot = false;
          active = false;
          expired = false;
          initialized = true;
        })
        k

module _ {M : Type 0} ⦃pm : PriorityMap M⦄ (others : Kernel M → Kernel M) where
  -- `Timer::Start()`
  unfoldable pub restart : ℕ → Kernel M → Kernel M
  restart t k =
      if (k.timer t).active
      then k
      else TimerList.add others t (put_timer t (record (k.timer t) { owner = k.current }) k)

  -- `Timer::Start(bRepeat_, u32IntervalMs_, pfCallback_, pvData_)`
  unfoldable pub start : ℕ → Bool → ℕ → Callback → Kernel M → Kernel M
  start t repeat ms cb k =
      if (k.timer t).active
      then k
      else restart t (
          put_timer t
            (record (k.timer t) {
              interval = ms;
              callback = cb;
              one_shot = not repeat;
              active = false;
              expired = false;
            })
            k)

  -- `Timer::Stop`
  unfoldable pub stop : ℕ → Kernel M → Kernel M
  stop t k = if (k.timer t).active then TimerList.remove others t k else k
