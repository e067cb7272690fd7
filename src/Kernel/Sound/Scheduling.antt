-- ===== src/Kernel/Sound/Scheduling.antt =====
-- The scheduler's own operations, blocking and waking keep the kernel sound.
use mark.Prelude.{
  ℕ, ==_self, sym, subst, zero, suc, ◌≤◌, ◌<◌, ◌≡◌, refl, Bool, true, false, inl, inr, none, some,
  arith, ◌==◌, if◌then◌else◌, ltb, Bool-cases, Option-cases, ◌||◌,
}
use mark.PrioMap.Interface.{PriorityMap}
use mark.ThreadList.{ThreadId, ListId, ListStore, remove}
use mark.ThreadList.Consistent.{
  IsConsistent, ready_list, add_ready-IsConsistent, remove_ready-IsConsistent,
  add_plain-IsConsistent, remove_plain-IsConsistent, add_priority_plain-IsConsistent,
}
use mark.Kernel.State.{Kernel, Thread, Semaphore, Mutex, Notify, EventFlag, put_thread, fault}
use mark.Kernel.Quantum
use mark.Kernel.Scheduler.{
  schedule, scheduler_add, scheduler_remove, context_switch_swi, yield, set_scheduler, update_next,
}
use mark.Kernel.Blocking.{block, block_priority, unblock}
use mark.Kernel.Priority.{set_priority, inherit_priority}
use mark.Kernel.Quiet.{objects, objects-yield, objects-set_scheduler, objects-reschedule}
use mark.Kernel.Sound.{Sound, IsSound}

module _ {M : Type 0} ⦃pm : PriorityMap M⦄ (num : ℕ) (fits : num ≤ pm.capacity) where
  abbrev Ok : Kernel M → Type 0
  Ok k = IsSound num k

  -- The parts of the invariant, replaced one at a time.
  module _ {lists : ListStore M} {thread : ThreadId → Thread} {semaphore : ℕ → Semaphore}
      {mutex : ℕ → Mutex} {notify : ℕ → Notify} {event_flag : ℕ → EventFlag}
      (h : Sound num lists thread semaphore mutex notify event_flag) where
    pub rebuild :
        {lists' : ListStore M} {thread' : ThreadId → Thread}
        → IsConsistent num lists'
        → ((u : ThreadId) → (thread' u).priority < num)
        → Sound num lists' thread' semaphore mutex notify event_flag
    rebuild c r = record {
      consistent = c;
      in_range = r;
      semaphore_apart = h.semaphore_apart;
      mutex_apart = h.mutex_apart;
      notify_apart = h.notify_apart;
      event_flag_apart = h.event_flag_apart;
    }

    pub with_semaphores :
        {semaphore' : ℕ → Semaphore}
        → ((i : ℕ) → num < (semaphore' i).block_list)
        → Sound num lists thread semaphore' mutex notify event_flag
    with_semaphores r = record {
      consistent = h.consistent;
      in_range = h.in_range;
      semaphore_apart = r;
      mutex_apart = h.mutex_apart;
      notify_apart = h.notify_apart;
      event_flag_apart = h.event_flag_apart;
    }

    pub with_mutexes :
        {mutex' : ℕ → Mutex}
        → ((i : ℕ) → num < (mutex' i).block_list)
        → Sound num lists thread semaphore mutex' notify event_flag
    with_mutexes r = record {
      consistent = h.consistent;
      in_range = h.in_range;
      semaphore_apart = h.semaphore_apart;
      mutex_apart = r;
      notify_apart = h.notify_apart;
      event_flag_apart = h.event_flag_apart;
    }

    pub with_notifies :
        {notify' : ℕ → Notify}
        → ((i : ℕ) → num < (notify' i).block_list)
        → Sound num lists thread semaphore mutex notify' event_flag
    with_notifies r = record {
      consistent = h.consistent;
      in_range = h.in_range;
      semaphore_apart = h.semaphore_apart;
      mutex_apart = h.mutex_apart;
      notify_apart = r;
      event_flag_apart = h.event_flag_apart;
    }

    pub with_event_flags :
        {event_flag' : ℕ → EventFlag}
        → ((i : ℕ) → num < (event_flag' i).block_list)
        → Sound num lists thread semaphore mutex notify event_flag'
    with_event_flags r = record {
      consistent = h.consistent;
      in_range = h.in_range;
      semaphore_apart = h.semaphore_apart;
      mutex_apart = h.mutex_apart;
      notify_apart = h.notify_apart;
      event_flag_apart = r;
    }

  -- Every list is the stop list, a ready list, or a list apart from the scheduler's.
  pub remove-IsConsistent :
      (l : ListId) (t : ThreadId) (s : ListStore M)
      → IsConsistent num s
      → IsConsistent num (remove l t s)
  remove-IsConsistent zero t s c = remove_plain-IsConsistent num fits zero (inl refl) s c t
  remove-IsConsistent (suc p) t s c = elim (Bool-cases (ltb p num)) [
    | inl below ↦ remove_ready-IsConsistent num fits p t s (ground arith) c
    | inr above ↦ remove_plain-IsConsistent num fits (suc p) (inr (ground arith)) s c t
  ]

  pub remove-Sound :
      (l : ListId) (t : ThreadId) (k : Kernel M)
      → Ok k
      → Ok (record k { lists = remove l t k.lists })
  remove-Sound l t k h = rebuild h (remove-IsConsistent l t k.lists h.consistent) h.in_range

  pub scheduler_add-Sound : (t : ThreadId) (k : Kernel M) → Ok k → Ok (scheduler_add t k)
  scheduler_add-Sound t k h =
      rebuild h (add_ready-IsConsistent num fits _ t k.lists (h.in_range t) h.consistent) h.in_range

  pub block-Sound : (l : ListId) (t : ThreadId) (k : Kernel M) → num < l → Ok k → Ok (block l t k)
  unfolding block
  block-Sound l t k apart h =
      let c = remove-IsConsistent (ready_list (k.thread t).priority) t k.lists h.consistent in
      rebuild h (add_plain-IsConsistent num fits l (inr apart) _ c t)
        (λ u. ground (arith, h.in_range u))

  pub block_priority-Sound :
      (l : ListId) (t : ThreadId) (k : Kernel M) → num < l → Ok k → Ok (block_priority l t k)
  unfolding block_priority
  block_priority-Sound l t k apart h =
      let c = remove-IsConsistent (ready_list (k.thread t).priority) t k.lists h.consistent in
      rebuild h (add_priority_plain-IsConsistent num fits l (inr apart) _ c _ t)
        (λ u. ground (arith, h.in_range u))

  unblock_from-Sound :
      (l : ListId) (t : ThreadId) (k : Kernel M)
      → (k.thread t).current ≡ some l
      → Ok k
      → Ok (unblock t k)
  unfolding unblock
  unblock_from-Sound l t k e h =
      let c = remove-IsConsistent l t k.lists h.consistent in
      rw (e, unblock)
        (rebuild h (add_ready-IsConsistent num fits _ t _ (h.in_range t) c)
          (λ u. ground (arith, h.in_range u)))

  -- A thread that is on no list makes `UnBlock` read through a null pointer.
  unblock_nowhere :
      (t : ThreadId) (k : Kernel M) → (k.thread t).current ≡ none → unblock t k ≡ fault k
  unfolding unblock
  unblock_nowhere t k e = rw (e, unblock)

  pub unblock-Sound : (t : ThreadId) (k : Kernel M) → Ok k → Ok (unblock t k)
  unblock-Sound t k h = elim (Option-cases (k.thread t).current) [
    | inl nowhere ↦ rw (unblock_nowhere t k nowhere) h
    | inr (l, e) ↦ unblock_from-Sound l t k e h
  ]

  -- What leaves the objects alone keeps the kernel sound.
  pub quiet-Sound : (k' k : Kernel M) → objects k' ≡ objects k → Ok k → Ok k'
  quiet-Sound k' k e h =
      subst (λ o. Sound num o.lists o.thread o.semaphore o.mutex o.notify o.event_flag) (sym e) h

  pub yield-Sound : (k : Kernel M) → Ok k → Ok (yield k)
  yield-Sound k h = quiet-Sound (yield k) k (objects-yield k) h

  pub set_scheduler-Sound : (b : Bool) (k : Kernel M) → Ok k → Ok (set_scheduler b k).1
  set_scheduler-Sound b k h = quiet-Sound (set_scheduler b k).1 k (objects-set_scheduler b k) h

  pub if-Sound : (b : Bool) (x y : Kernel M) → Ok x → Ok y → Ok (if b then x else y)
  if-Sound true x y p q = p
  if-Sound false x y p q = q

  -- The same for an operation with a result.
  pub if_pair-Sound :
      {A : Type 0} (b : Bool) (x y : A × Kernel M) → Ok x.1 → Ok y.1 → Ok (if b then x else y).1
  if_pair-Sound true x y p q = p
  if_pair-Sound false x y p q = q

  pub if_triple-Sound :
      {A B : Type 0} (b : Bool) (x y : A × B × Kernel M)
      → Ok x.2
      → Ok y.2
      → Ok (if b then x else y).2
  if_triple-Sound true x y p q = p
  if_triple-Sound false x y p q = q

  module _ (t : ThreadId) (prio : ℕ) (k : Kernel M) (below : prio < num) (h : Ok k) where
    moved-Sound : Ok (
        scheduler_add t (
          put_thread t
            (record ((scheduler_remove t k).thread t) { cur_priority = prio; priority = prio })
            (scheduler_remove t k)))
    moved-Sound =
        let c = remove-IsConsistent (ready_list (k.thread t).priority) t k.lists h.consistent in
        rebuild h (rw (==_self t) (add_ready-IsConsistent num fits prio t _ below c))
          (λ u. ground (arith, h.in_range u))

  rescheduled-Sound :
      (k : Kernel M)
      → Ok k
      → Ok (
          if k.enabled
          then context_switch_swi (update_next (schedule k))
          else record k { queued = true })
  rescheduled-Sound k h =
      if-Sound k.enabled _ (record k { queued = true })
        (quiet-Sound (context_switch_swi (update_next (schedule k))) k (objects-reschedule k) h) h

  pub set_priority-Sound :
      (t : ThreadId) (prio : ℕ) (k : Kernel M) → prio < num → Ok k → Ok (set_priority t prio k)
  unfolding set_priority
  set_priority-Sound t prio k below h =
      elim (Bool-cases (t == k.current || ltb (k.thread k.current).priority prio)) [
        | inl yes_ ↦ rw yes_ (rescheduled-Sound _ (moved-Sound t prio (Quantum.cancel k) below h))
        | inr no_ ↦ rw no_ (moved-Sound t prio k below h)
      ]

  pub inherit_priority-Sound :
      (t : ThreadId) (prio : ℕ) (k : Kernel M) → Ok k → Ok (inherit_priority t prio k)
  unfolding inherit_priority
  inherit_priority-Sound t prio k h = rebuild h h.consistent (λ u. ground (arith, h.in_range u))
