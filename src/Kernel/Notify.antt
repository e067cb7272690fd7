-- ===== src/Kernel/Notify.antt =====
-- `class Notify` of src/notify.cpp. The flag that a caller passes by pointer is returned: `none` where
-- it is left as it was.
pub mod Laws
use mark.Prelude.{
  ℕ, zero, suc, Bool, true, false, not, ◌&&◌, ◌||◌, Option, none, some, List, [], ◌∷◌, ◌==◌, leb,
  if◌then◌else◌,
}
use mark.PrioMap.Interface.{PriorityMap}
use mark.ThreadList.Ring.{nonempty}
use mark.ThreadList.{ThreadId, highest_waiter}
use mark.Kernel.State.{Kernel, Notify, timed_notify, put_notify, set_expired, panic}
use mark.Kernel.Scheduler.{yield}
use mark.Kernel.Blocking.{block, unblock}
use mark.Kernel.Timer

abbrev pub panic_active_notify_descoped : ℕ
panic_active_notify_descoped = 11

module _ {M : Type 0} where
  -- `Notify::Init`
  unfoldable pub init : ℕ → Kernel M → Kernel M
  init i k = put_notify i (record (k.notify i) { initialized = true; pending = false }) k

  -- `Notify::~Notify`
  unfoldable pub destroy : ℕ → Kernel M → Kernel M
  destroy i k =
      if nonempty (k.lists.list (k.notify i).block_list).members
      then panic panic_active_notify_descoped k
      else k

  abbrev pub set_pending : ℕ → Bool → Kernel M → Kernel M
  set_pending i b k = put_notify i (record (k.notify i) { pending = b }) k

module _ {M : Type 0} ⦃pm : PriorityMap M⦄ where
  -- `Notify::WakeMe`
  abbrev pub wake_me : ThreadId → Kernel M → Kernel M
  wake_me t k = unblock t k

  -- `TimedNotify_Callback`
  unfoldable pub timed_callback : ThreadId → Kernel M → Kernel M
  timed_callback t k =
      let k' = wake_me t (set_expired t true k) in
      if leb (k'.thread k'.current).cur_priority (k'.thread t).cur_priority then yield k' else k'

  -- The loop of `Notify::Signal`, with fuel: it wakes the head of the block list until that is empty.
  unfoldable pub wake_all : ℕ → ℕ → Bool → Kernel M → Bool × Kernel M
  wake_all zero i reschedule k = (reschedule, k)
  wake_all (suc fuel) i reschedule k = elim (highest_waiter (k.notify i).block_list k.lists) [
    | none ↦ (reschedule, k)
    | some t ↦
        let k' = unblock t k in
        wake_all fuel i
          (reschedule || leb (k'.thread k'.current).cur_priority (k'.thread t).cur_priority) k'
  ]

  -- `Notify::Signal`; `fuel` bounds the number of waiters.
  unfoldable pub signal : ℕ → ℕ → Kernel M → Kernel M
  signal fuel i k =
      if nonempty (k.lists.list (k.notify i).block_list).members
      then (let (reschedule, k') = wake_all fuel i false k in
          let k'' = set_pending i false k' in if reschedule then yield k'' else k'')
      else set_pending i true k

  module _ (others : Kernel M → Kernel M) where
    -- `Notify::Wait(bool*)`
    unfoldable pub wait : ℕ → Kernel M → Option Bool × Kernel M
    wait i k =
        if (k.notify i).pending
        then (none, set_pending i false k)
        else (some true, others (yield (block (k.notify i).block_list k.current k)))

    -- `Notify::Wait(uint32_t, bool*)`, which returns its result, the flag and the state.
    unfoldable pub wait_timed : ℕ → ℕ → ℕ → Kernel M → Bool × Option Bool × Kernel M
    wait_timed i t ms k =
        let k₀ = Timer.construct t k in
        if (k₀.notify i).pending
        then (true, none, set_pending i false k₀)
        else (let k₁ =
              if ms == 0
              then k₀
              else Timer.start others t false ms (timed_notify i)
                  (Timer.init t (set_expired k₀.current false k₀)) in
            let k₂ = others (yield (block (k₁.notify i).block_list k₁.current k₁)) in
            if ms == 0
            then (true, some true, k₂)
            else (let k₃ = Timer.stop others t k₂ in
                (not (k₃.thread k₃.current).expired, some false, k₃)))
