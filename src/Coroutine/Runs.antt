-- ===== src/Coroutine/Runs.antt =====
-- The calls of src/coroutine.cpp in any order, and the choice of `CoScheduler::Schedule` after them.
use mark.Prelude.{ℕ, ◌<◌, ◌≡◌, Bool, true, false, update}
use mark.PrioMap.Interface.{PriorityMap}
use mark.Coroutine.{
  Coroutine, CoScheduler, init_scheduler, init, destroy, dequeue, run, activate, set_priority,
  schedule,
}
use mark.Coroutine.Sound.{IsSound}
use mark.Coroutine.Keeps.{
  init-IsSound, destroy-IsSound, dequeue-IsSound, activate-IsSound, set_priority-IsSound,
}
use mark.Coroutine.Boot.{at_start, nobody, init_scheduler-IsSound}
use mark.Coroutine.Choice.{IsChoice, schedule-IsChoice}

module _ {M : Type 0} (pm : PriorityMap M) where
  mutual
    -- One call, with the coroutines that are on no list before and after it. A handler makes calls of
    -- its own.
    pub data Call : (ℕ → Bool) → CoScheduler M → (ℕ → Bool) → CoScheduler M → Type 0 where
      inits :
          (absent : ℕ → Bool) (s : CoScheduler M) (c priority handler context : ℕ)
          → absent c ≡ true
          → Call absent s (update absent c false) (init ⦃pm = pm⦄ c priority handler context s)
      destroys :
          (absent : ℕ → Bool) (s : CoScheduler M) (c : ℕ)
          → absent c ≡ false
          → Call absent s (update absent c true) (destroy ⦃pm = pm⦄ c s)
      activates :
          (absent : ℕ → Bool) (s : CoScheduler M) (c : ℕ)
          → absent c ≡ false
          → (s.coroutine c).priority < pm.capacity
          → Call absent s absent (activate ⦃pm = pm⦄ c s)
      ranks :
          (absent : ℕ → Bool) (s : CoScheduler M) (c priority : ℕ)
          → absent c ≡ false
          → priority < pm.capacity
          → Call absent s absent (set_priority ⦃pm = pm⦄ c priority s)
      runs :
          (handlers : ℕ → ℕ → ℕ → CoScheduler M → CoScheduler M) (absent after : ℕ → Bool)
          (s : CoScheduler M) (c : ℕ)
          → absent c ≡ false
          → Calls absent (dequeue ⦃pm = pm⦄ c s) after (run ⦃pm = pm⦄ handlers c s)
          → Call absent s after (run ⦃pm = pm⦄ handlers c s)

    pub data Calls : (ℕ → Bool) → CoScheduler M → (ℕ → Bool) → CoScheduler M → Type 0 where
      done : (absent : ℕ → Bool) (s : CoScheduler M) → Calls absent s absent s
      call :
          {absent between after : ℕ → Bool} {s s' s'' : CoScheduler M}
          → Call absent s between s'
          → Calls between s' after s''
          → Calls absent s after s''

  mutual
    pub call-IsSound :
        {absent after : ℕ → Bool} {s s' : CoScheduler M}
        → Call absent s after s'
        → IsSound pm absent s
        → IsSound pm after s'
    call-IsSound (inits absent s c priority handler context gone) r =
        init-IsSound pm absent c priority handler context s r gone
    call-IsSound (destroys absent s c present) r = destroy-IsSound pm absent c s r present
    call-IsSound (activates absent s c present inside) r =
        activate-IsSound pm absent c s r present inside
    call-IsSound (ranks absent s c priority present inside) r =
        set_priority-IsSound pm absent c priority s r present inside
    call-IsSound (runs handlers absent after s c present calls) r =
        calls-IsSound calls (dequeue-IsSound pm absent c s r present)

    pub calls-IsSound :
        {absent after : ℕ → Bool} {s s' : CoScheduler M}
        → Calls absent s after s'
        → IsSound pm absent s
        → IsSound pm after s'
    calls-IsSound (done absent s) r = r
    calls-IsSound (call first rest) r = calls-IsSound rest (call-IsSound first r)

  -- Whatever sequence of the calls of `Coroutine` and of handlers that make such calls follows
  -- `CoScheduler::Init` at start-up, the lists hold just the coroutines that they own, each once,
  -- the map holds just the priorities whose lists hold a coroutine, and no call goes through a null
  -- owner or takes a coroutine from a list that it is not on. `Schedule` then gives a coroutine that
  -- is queued, and none that is queued has a higher priority; it gives none just when no coroutine
  -- is queued. The priorities of the coroutines are in range when they are activated or set, and
  -- `Init` is called only for a coroutine that is not in use.
  pub calls-schedule :
      (coroutine : ℕ → Coroutine) {after : ℕ → Bool} {s : CoScheduler M}
      → Calls nobody (init_scheduler ⦃pm = pm⦄ (at_start pm coroutine)) after s
      → IsSound pm after s × IsChoice after s (schedule ⦃pm = pm⦄ s)
  calls-schedule coroutine calls =
      let r = calls-IsSound calls (init_scheduler-IsSound pm coroutine) in
      (r, schedule-IsChoice pm _ _ r)
