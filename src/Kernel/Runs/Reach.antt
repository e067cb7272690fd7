-- ===== src/Kernel/Runs/Reach.antt =====
-- Every run of the system keeps the kernel sound, and so the scheduler's choice right.
use mark.Prelude.{ℕ, ◌≤◌, ◌⊎◌}
use mark.PrioMap.Interface.{PriorityMap}
use mark.Kernel.State.{Kernel}
use mark.Kernel.Runs.{
  Step, Run, switch, yields, coop_yields, sets_scheduler, sets_priority, inits_thread,
  starts_thread, stops_thread, exits_thread, sleeps, inits_mutex, claims, claims_timed, releases,
  inits_semaphore, posts, pends, inits_notify, signals, awaits, awaits_timed, inits_flag, sets_flag,
  clears_flag, waits_flag, starts_timer, stops_timer, ticks, inits_condvar, waits_condvar,
  waits_condvar_timed, signals_condvar, broadcasts, inits_rwlock, acquires_reader, releases_reader,
  acquires_writer, releases_writer, inits_queue, sends, receives, inits_mailbox, sends_mail,
  receives_mail, stay, go,
}
use mark.Kernel.Sound.Channels
use mark.Kernel.Sound.Compound
use mark.Kernel.Choice.{Chosen, Idle, schedule-highest}
use mark.Kernel.Sound.{IsSound}
use mark.Kernel.Sound.Scheduling.{yield-Sound, set_scheduler-Sound, set_priority-Sound}
use mark.Kernel.Sound.Locks
use mark.Kernel.Sound.Timers
use mark.Kernel.Sound.Flags
use mark.Kernel.Sound.Objects
use mark.Kernel.Sound.Threads
use mark.Kernel.Sound.Ticks

module _ {M : Type 0} ⦃pm : PriorityMap M⦄ (num : ℕ) (fits : num ≤ pm.capacity) where
  mutual
    Step-Sound : {k k' : Kernel M} → Step num k k' → IsSound num k → IsSound num k'
    Step-Sound (switch k t) h = h
    Step-Sound (yields k) h = yield-Sound num fits k h
    Step-Sound (coop_yields k) h = Ticks.coop_yield-Sound num fits k h
    Step-Sound (sets_scheduler b k) h = set_scheduler-Sound num fits b k h
    Step-Sound (sets_priority t prio k below) h = set_priority-Sound num fits t prio k below h
    Step-Sound (inits_thread t u size prio k below) h =
        Threads.init_thread-Sound num fits t u size prio k below h
    Step-Sound (starts_thread t k) h = Threads.start_thread-Sound num fits t k h
    Step-Sound (stops_thread others t k r) h =
        Threads.stop_thread-Sound num fits others (λ s. Run-Sound (r s)) t k h
    Step-Sound (exits_thread others t k r) h =
        Threads.exit_thread-Sound num fits others (λ s. Run-Sound (r s)) t k h
    Step-Sound (sleeps others s u ms k r) h =
        Threads.sleep-Sound num fits others (λ s. Run-Sound (r s)) s u ms k h
    Step-Sound (inits_mutex i recursive k) h = Locks.init-Sound num fits i recursive k h
    Step-Sound (claims others i k r) h =
        Locks.claim-Sound num fits others (λ s. Run-Sound (r s)) i k h
    Step-Sound (claims_timed others i t ms k r) h =
        Ticks.claim_timed-Sound num fits others (λ s. Run-Sound (r s)) i t ms k h
    Step-Sound (releases i k) h = Locks.release-Sound num fits i k h
    Step-Sound (inits_semaphore i value max k) h =
        Objects.semaphore_init-Sound num fits i value max k h
    Step-Sound (posts i k) h = Objects.post-Sound num fits i k h
    Step-Sound (pends others i t wait k r) h =
        Objects.pend_i-Sound num fits others (λ s. Run-Sound (r s)) i t wait k h
    Step-Sound (inits_notify i k) h = Objects.notify_init-Sound num fits i k h
    Step-Sound (signals fuel i k) h = Objects.signal-Sound num fits fuel i k h
    Step-Sound (awaits others i k r) h =
        Objects.notify_wait-Sound num fits others (λ s. Run-Sound (r s)) i k h
    Step-Sound (awaits_timed others i t ms k r) h =
        Objects.notify_wait_timed-Sound num fits others (λ s. Run-Sound (r s)) i t ms k h
    Step-Sound (inits_flag i k) h = Flags.flag_init-Sound num fits i k h
    Step-Sound (sets_flag i mask k) h = Flags.set-Sound num fits i mask k h
    Step-Sound (clears_flag i mask k) h = Flags.clear-Sound num fits i mask k h
    Step-Sound (waits_flag others i t mask mode ms k r) h =
        Flags.wait_i-Sound num fits others (λ s. Run-Sound (r s)) i t mask mode ms k h
    Step-Sound (starts_timer others t repeat ms cb k r) h =
        Timers.start-Sound num fits others (λ s. Run-Sound (r s)) t repeat ms cb k h
    Step-Sound (stops_timer others t k r) h =
        Timers.stop-Sound num fits others (λ s. Run-Sound (r s)) t k h
    Step-Sound (ticks user others fuel k u r) h =
        Ticks.timer_round-Sound num fits user (λ f d t s. Run-Sound (u f d t s)) others
          (λ s. Run-Sound (r s)) fuel k h
    Step-Sound (inits_condvar i k) h = Compound.condvar_init-Sound num fits i k h
    Step-Sound (waits_condvar others i m t k r) h =
        Compound.condvar_wait-Sound num fits others (λ s. Run-Sound (r s)) i m t k h
    Step-Sound (waits_condvar_timed others i m t ms k r) h =
        Compound.condvar_wait_timed-Sound num fits others (λ s. Run-Sound (r s)) i m t ms k h
    Step-Sound (signals_condvar others i k r) h =
        Compound.condvar_signal-Sound num fits others (λ s. Run-Sound (r s)) i k h
    Step-Sound (broadcasts others i k r) h =
        Compound.broadcast-Sound num fits others (λ s. Run-Sound (r s)) i k h
    Step-Sound (inits_rwlock i k) h = Compound.rwlock_init-Sound num fits i k h
    Step-Sound (acquires_reader others i t ms k r) h =
        Compound.acquire_reader-Sound num fits others (λ s. Run-Sound (r s)) i t ms k h
    Step-Sound (releases_reader others i k r) h =
        Compound.release_reader-Sound num fits others (λ s. Run-Sound (r s)) i k h
    Step-Sound (acquires_writer others i t ms k r) h =
        Compound.acquire_writer-Sound num fits others (λ s. Run-Sound (r s)) i t ms k h
    Step-Sound (releases_writer others i k r) h =
        Compound.release_writer-Sound num fits others (λ s. Run-Sound (r s)) i k h
    Step-Sound (inits_queue i k) h = Channels.queue_init-Sound num fits i k h
    Step-Sound (sends i m k) h = Channels.send-Sound num fits i m k h
    Step-Sound (receives others i t ms k r) h =
        Channels.receive-Sound num fits others (λ s. Run-Sound (r s)) i t ms k h
    Step-Sound (inits_mailbox i size element k) h =
        Channels.mailbox_init-Sound num fits i size element k h
    Step-Sound (sends_mail others i t tail ms e k r) h =
        Channels.mailbox_send-Sound num fits others (λ s. Run-Sound (r s)) i t tail ms e k h
    Step-Sound (receives_mail others i t tail ms k r) h =
        Channels.mailbox_receive-Sound num fits others (λ s. Run-Sound (r s)) i t tail ms k h

    Run-Sound : {k k' : Kernel M} → Run num k k' → IsSound num k → IsSound num k'
    Run-Sound (stay k) h = h
    Run-Sound (go s r) h = Run-Sound r (Step-Sound s h)

  -- Whatever sequence of the modelled API calls, timer ticks and context switches leads from one
  -- state to another, the second is sound if the first is: a bit of the scheduler's map is set for
  -- just the priorities whose ready list holds a thread, every priority is in range, and the
  -- semaphores, mutexes, notifications and event flags block on lists that are not the scheduler's.
  pub reachable-Sound : (k k' : Kernel M) → Run num k k' → IsSound num k → IsSound num k'
  reachable-Sound k k' r h = Run-Sound r h

  -- In every state that such a run reaches from a sound one, `schedule` picks the head of the ready
  -- list of the highest priority that has a ready thread, or no thread is ready and it panics.
  pub reachable-schedule :
      (k k' : Kernel M) → Run num k k' → IsSound num k → Chosen num fits k' ⊎ Idle num fits k'
  reachable-schedule k k' r h = schedule-highest num fits k' (Run-Sound r h).consistent
