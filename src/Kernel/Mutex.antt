-- ===== src/Kernel/Mutex.antt =====
-- `class Mutex` of src/mutex.cpp, and the lock guard of src/lockguard.cpp. A thread that has to wait
-- calls `Thread::Yield`, and `others` is what the rest of the system does until it runs again.
pub mod Laws
pub mod Waiting
use mark.Prelude.{
  ℕ, ◌+◌, ◌-◌, ◌%◌, Bool, true, false, not, ◌&&◌, ◌||◌, Option, none, some, List, [], ◌∷◌, ◌==◌,
  leb, opt_eq, if◌then◌else◌,
}
use mark.PrioMap.Interface.{PriorityMap}
use mark.ThreadList.Ring.{nonempty}
use mark.ThreadList.{ThreadId, highest_waiter}
use mark.Kernel.State.{Kernel, Mutex, put_mutex, set_expired, panic, fault}
use mark.Kernel.Scheduler.{set_scheduler, yield}
use mark.Kernel.Blocking.{block_priority, unblock}
use mark.Kernel.Priority.{set_priority, inherit_priority}

abbrev pub panic_active_mutex_descoped : ℕ
panic_active_mutex_descoped = 9

module _ {M : Type 0} where
  -- `Mutex::Init`
  unfoldable pub init : ℕ → Bool → Kernel M → Kernel M
  init i is_recursive k =
      put_mutex i
        (record (k.mutex i) {
          is_ready = true;
          max_pri = 0;
          owner = none;
          recurse = 0;
          recursive = is_recursive;
          initialized = true;
        })
        k

  -- `Mutex::~Mutex`
  unfoldable pub destroy : ℕ → Kernel M → Kernel M
  destroy i k =
      if nonempty (k.lists.list (k.mutex i).block_list).members
      then panic panic_active_mutex_descoped k
      else k

  -- The waiters inherit a priority, from the head of the block list to its tail.
  unfoldable pub inherit_all : List ThreadId → ℕ → Kernel M → Kernel M
  inherit_all [] prio k = k
  inherit_all (t ∷ ts) prio k = inherit_all ts prio (inherit_priority t prio k)

  abbrev pub inherit_owner : Option ThreadId → ℕ → Kernel M → Kernel M
  inherit_owner none prio k = fault k
  inherit_owner (some t) prio k = inherit_priority t prio k

  -- The priority inheritance of a thread that has just blocked.
  unfoldable pub inherit : ℕ → Kernel M → Kernel M
  inherit i k =
      let prio = (k.thread k.current).priority in
      let m = k.mutex i in
      if leb m.max_pri prio
      then inherit_owner m.owner prio (
          inherit_all (k.lists.list m.block_list).members prio
            (put_mutex i (record m { max_pri = prio }) k))
      else k

module _ {M : Type 0} ⦃pm : PriorityMap M⦄ where
  -- `Mutex::WakeMe`
  abbrev pub wake_me : ThreadId → Kernel M → Kernel M
  wake_me t k = unblock t k

  -- `Mutex::WakeNext`
  unfoldable pub wake_next : ℕ → Kernel M → Bool × Kernel M
  wake_next i k = elim (highest_waiter (k.mutex i).block_list k.lists) [
    | none ↦ (false, fault k)
    | some t ↦
        let k' = unblock t k in
        let k'' = put_mutex i (record (k'.mutex i) { owner = some t }) k' in
        (leb (k''.thread k''.current).cur_priority (k''.thread t).cur_priority, k'')
  ]

  abbrev pub take_mutex : ℕ → Kernel M → Kernel M
  take_mutex i k =
      put_mutex i
        (record (k.mutex i) {
          is_ready = false;
          recurse = 0;
          max_pri = (k.thread k.current).priority;
          owner = some k.current;
        })
        k

  abbrev pub recur_mutex : ℕ → Kernel M → Kernel M
  recur_mutex i k = put_mutex i (record (k.mutex i) { recurse = ((k.mutex i).recurse + 1) % 256 }) k

  -- `Mutex::Claim_i`: `arm` initialises and starts the timer of the wait, and `disarm` stops it.
  module _ (arm disarm others : Kernel M → Kernel M) where
    -- From the test of the timeout up to the call of `Thread::Yield`.
    unfoldable pub wait_for : ℕ → ℕ → Kernel M → Kernel M
    wait_for i wait k =
        let k₁ = if wait == 0 then k else arm (set_expired k.current false k) in
        let k₂ = block_priority (k₁.mutex i).block_list k₁.current k₁ in
        yield (set_scheduler true (inherit i k₂)).1

    unfoldable pub claim_i : ℕ → ℕ → Kernel M → Bool × Kernel M
    claim_i i wait k =
        let k₁ = (set_scheduler false k).1 in
        let m = k₁.mutex i in
        if m.is_ready
        then (true, (set_scheduler true (take_mutex i k₁)).1)
        else if m.recursive && opt_eq (some k₁.current) m.owner
        then (true, (set_scheduler true (recur_mutex i k₁)).1)
        else (let k₂ = others (wait_for i wait k₁) in
            if wait == 0
            then (true, k₂)
            else (let k₃ = disarm k₂ in (not (k₃.thread k₃.current).expired, k₃)))

  -- The part of `Mutex::Release` that restores the owner's priority.
  abbrev pub restore : Kernel M → Bool × Kernel M
  restore k =
      let th = k.thread k.current in
      if th.cur_priority == th.priority
      then (false, k)
      else (true, set_priority k.current th.priority k)

  abbrev pub hand_over : ℕ → Bool → Kernel M → Bool × Kernel M
  hand_over i reschedule k =
      if nonempty (k.lists.list (k.mutex i).block_list).members
      then (let (woken, k') = wake_next i k in (woken || reschedule, k'))
      else (
        reschedule,
        put_mutex i (record (k.mutex i) { is_ready = true; max_pri = 0; owner = none }) k,
      )

  -- `Mutex::Release`
  unfoldable pub release : ℕ → Kernel M → Kernel M
  release i k =
      let k₁ = (set_scheduler false k).1 in
      let m = k₁.mutex i in
      if m.recursive && not (m.recurse == 0)
      then (set_scheduler true (put_mutex i (record m { recurse = m.recurse - 1 }) k₁)).1
      else (let (restored, k₂) = restore k₁ in
          let (reschedule, k₃) = hand_over i restored k₂ in
          let k₄ = (set_scheduler true k₃).1 in if reschedule then yield k₄ else k₄)

  -- `Mutex::Claim(void)`: a wait with no timeout uses no timer.
  unfoldable pub claim : (others : Kernel M → Kernel M) → ℕ → Kernel M → Kernel M
  claim others i k = (claim_i (λ s. s) (λ s. s) others i 0 k).1

  -- A scope that holds a `LockGuard`.
  abbrev pub with_lock :
      (others : Kernel M → Kernel M) → ℕ → (Kernel M → Kernel M) → Kernel M → Kernel M
  with_lock others i body k = release i (body (claim others i k))
