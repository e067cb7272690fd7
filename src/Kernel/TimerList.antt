-- ===== src/Kernel/TimerList.antt =====
-- src/timerlist.cpp: the list of the running timers from head to tail, and the mutex that guards it.
pub mod Countdown
pub mod Expiring
pub mod Round
use mark.Prelude.{
  ℕ, zero, suc, ◌+◌, ◌-◌, ◌%◌, ◌^◌, Bool, true, false, Option, none, some, List, [], ◌∷◌, ◌++◌,
  ◌==◌, if◌then◌else◌,
}
use mark.PrioMap.Interface.{PriorityMap}
use mark.ThreadList.Ring.{push_back, remove_node, head?}
use mark.ThreadList.{ThreadId}
use mark.Kernel.State.{Kernel, Timer, Callback, no_callback, put_timer}
use mark.Kernel.Mutex
use mark.Kernel.Mutex.{with_lock}

-- `GetNext` of a node; null at the tail, and at a node that is in no list.
abbrev pub successor : List ℕ → ℕ → Option ℕ
successor [] n = none
successor (x ∷ xs) n = if x == n then head? xs else successor xs n

module _ {M : Type 0} where
  -- `TimerList::Init`
  abbrev pub init : Kernel M → Kernel M
  init k = Mutex.init k.timer_mutex true k

  -- `TimerList::Add` under its lock.
  unfoldable pub link : ℕ → Kernel M → Kernel M
  link t k =
      put_timer t (record (k.timer t) { time_left = (k.timer t).interval; active = true })
        (record k { timer_list = push_back k.timer_list t })

  -- `TimerList::Remove` under its lock.
  unfoldable pub unlink : ℕ → Kernel M → Kernel M
  unlink t k =
      put_timer t (record (k.timer t) { active = false })
        (record k { timer_list = remove_node k.timer_list t })

module _ {M : Type 0} ⦃pm : PriorityMap M⦄ (others : Kernel M → Kernel M) where
  -- `TimerList::Add` and `TimerList::Remove`
  unfoldable pub add : ℕ → Kernel M → Kernel M
  add t k = with_lock others k.timer_mutex (link t) k

  unfoldable pub remove : ℕ → Kernel M → Kernel M
  remove t k = with_lock others k.timer_mutex (unlink t) k

  -- `call` runs a callback for the thread that owns the timer.
  module _ (call : Callback → ThreadId → Kernel M → Kernel M) where
    abbrev pub after_callback : ℕ → Kernel M → Kernel M
    after_callback t k =
        let tm = k.timer t in
        if tm.one_shot
        then remove t (put_timer t (record tm { expired = true; active = false }) k)
        else put_timer t (record tm { time_left = tm.interval }) k

    -- What the loop of `TimerList::Process` does with one timer.
    unfoldable pub tick : ℕ → Kernel M → Kernel M
    tick t k =
        let tm = k.timer t in
        if tm.active
        then (let left = (tm.time_left + 2 ^ 32 - 1) % 2 ^ 32 in
            let k' = put_timer t (record tm { time_left = left }) k in
            if left == 0 then after_callback t (call tm.callback tm.owner k') else k')
        else k

    -- The loop, with fuel: the next timer is read before the callback runs.
    unfoldable pub process_from : ℕ → Option ℕ → Kernel M → Kernel M
    process_from zero cur k = k
    process_from (suc fuel) none k = k
    process_from (suc fuel) (some t) k = process_from fuel (successor k.timer_list t) (tick t k)

    -- `TimerList::Process`
    unfoldable pub process : ℕ → Kernel M → Kernel M
    process fuel k =
        with_lock others k.timer_mutex (λ s. process_from fuel (head? s.timer_list) s) k
