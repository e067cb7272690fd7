-- ===== src/Kernel/Runs.antt =====
-- The runs of the system: sequences of API calls, ticks and context switches (src/public/*.h), where
-- what happens while a call blocks is a run of its own.
pub mod Reach
use mark.Prelude.{List, ℕ, ◌≤◌, ◌<◌, Bool, ◌⊎◌}
use mark.PrioMap.Interface.{PriorityMap}
use mark.ThreadList.{ThreadId}
use mark.Kernel.State.{Kernel, Callback, EventFlagOperation}
use mark.Kernel.Scheduler.{yield, coop_yield, set_scheduler}
use mark.Kernel.Priority.{set_priority}
use mark.Kernel.Mutex
use mark.Kernel.Semaphore
use mark.Kernel.Notify
use mark.Kernel.EventFlag
use mark.Kernel.Timer
use mark.Kernel.TimedMutex
use mark.Kernel.Thread
use mark.Kernel.CondVar
use mark.Kernel.ReaderWriter
use mark.Kernel.Message
use mark.Kernel.Mailbox
use mark.Kernel.Expiry.{timer_round}

module _ {M : Type 0} ⦃pm : PriorityMap M⦄ (num : ℕ) where
  -- One call of the interface. A call that can block takes `others` and the runs that it stands for.
  mutual
    pub data Step : Kernel M → Kernel M → Type 0 where
      switch : (k : Kernel M) (t : ThreadId) → Step k (record k { current = t })
      yields : (k : Kernel M) → Step k (yield k)
      coop_yields : (k : Kernel M) → Step k (coop_yield k)
      sets_scheduler : (b : Bool) (k : Kernel M) → Step k (set_scheduler b k).1
      sets_priority :
          (t : ThreadId) (prio : ℕ) (k : Kernel M) → prio < num → Step k (set_priority t prio k)
      inits_thread :
          (t : ThreadId) (untouched : ℕ → Bool) (size prio : ℕ) (k : Kernel M)
          → prio < num
          → Step k (Thread.init t untouched size prio k)
      starts_thread : (t : ThreadId) (k : Kernel M) → Step k (Thread.start t k)
      stops_thread :
          (others : Kernel M → Kernel M) (t : ThreadId) (k : Kernel M)
          → ((s : Kernel M) → Run s (others s))
          → Step k (Thread.stop others t k)
      exits_thread :
          (others : Kernel M → Kernel M) (t : ThreadId) (k : Kernel M)
          → ((s : Kernel M) → Run s (others s))
          → Step k (Thread.exit_thread others t k)
      sleeps :
          (others : Kernel M → Kernel M) (s u ms : ℕ) (k : Kernel M)
          → ((s : Kernel M) → Run s (others s))
          → Step k (Thread.sleep others s u ms k)
      inits_mutex : (i : ℕ) (recursive : Bool) (k : Kernel M) → Step k (Mutex.init i recursive k)
      claims :
          (others : Kernel M → Kernel M) (i : ℕ) (k : Kernel M)
          → ((s : Kernel M) → Run s (others s))
          → Step k (Mutex.claim others i k)
      claims_timed :
          (others : Kernel M → Kernel M) (i t ms : ℕ) (k : Kernel M)
          → ((s : Kernel M) → Run s (others s))
          → Step k (TimedMutex.claim_timed others i t ms k).1
      releases : (i : ℕ) (k : Kernel M) → Step k (Mutex.release i k)
      inits_semaphore : (i value max : ℕ) (k : Kernel M) → Step k (Semaphore.init i value max k)
      posts : (i : ℕ) (k : Kernel M) → Step k (Semaphore.post i k).1
      pends :
          (others : Kernel M → Kernel M) (i t wait : ℕ) (k : Kernel M)
          → ((s : Kernel M) → Run s (others s))
          → Step k (Semaphore.pend_i others i t wait k).1
      inits_notify : (i : ℕ) (k : Kernel M) → Step k (Notify.init i k)
      signals : (fuel i : ℕ) (k : Kernel M) → Step k (Notify.signal fuel i k)
      awaits :
          (others : Kernel M → Kernel M) (i : ℕ) (k : Kernel M)
          → ((s : Kernel M) → Run s (others s))
          → Step k (Notify.wait others i k).1
      awaits_timed :
          (others : Kernel M → Kernel M) (i t ms : ℕ) (k : Kernel M)
          → ((s : Kernel M) → Run s (others s))
          → Step k (Notify.wait_timed others i t ms k).2
      inits_flag : (i : ℕ) (k : Kernel M) → Step k (EventFlag.init i k)
      sets_flag : (i mask : ℕ) (k : Kernel M) → Step k (EventFlag.set i mask k)
      clears_flag : (i mask : ℕ) (k : Kernel M) → Step k (EventFlag.clear i mask k)
      waits_flag :
          (others : Kernel M → Kernel M) (i t mask : ℕ) (mode : EventFlagOperation) (ms : ℕ)
          (k : Kernel M)
          → ((s : Kernel M) → Run s (others s))
          → Step k (EventFlag.wait_i others i t mask mode ms k).1
      starts_timer :
          (others : Kernel M → Kernel M) (t : ℕ) (repeat : Bool) (ms : ℕ) (cb : Callback)
          (k : Kernel M)
          → ((s : Kernel M) → Run s (others s))
          → Step k (Timer.start others t repeat ms cb k)
      stops_timer :
          (others : Kernel M → Kernel M) (t : ℕ) (k : Kernel M)
          → ((s : Kernel M) → Run s (others s))
          → Step k (Timer.stop others t k)
      ticks :
          (user : ℕ → ℕ → ThreadId → Kernel M → Kernel M) (others : Kernel M → Kernel M) (fuel : ℕ)
          (k : Kernel M)
          → ((f d : ℕ) (t : ThreadId) (s : Kernel M) → Run s (user f d t s))
          → ((s : Kernel M) → Run s (others s))
          → Step k (timer_round user others fuel k)
      inits_condvar : (i : ℕ) (k : Kernel M) → Step k (CondVar.init i k)
      waits_condvar :
          (others : Kernel M → Kernel M) (i m t : ℕ) (k : Kernel M)
          → ((s : Kernel M) → Run s (others s))
          → Step k (CondVar.wait others i m t k)
      waits_condvar_timed :
          (others : Kernel M → Kernel M) (i m t ms : ℕ) (k : Kernel M)
          → ((s : Kernel M) → Run s (others s))
          → Step k (CondVar.wait_timed others i m t ms k).1
      signals_condvar :
          (others : Kernel M → Kernel M) (i : ℕ) (k : Kernel M)
          → ((s : Kernel M) → Run s (others s))
          → Step k (CondVar.signal others i k)
      broadcasts :
          (others : Kernel M → Kernel M) (i : ℕ) (k : Kernel M)
          → ((s : Kernel M) → Run s (others s))
          → Step k (CondVar.broadcast others i k)
      inits_rwlock : (i : ℕ) (k : Kernel M) → Step k (ReaderWriter.init i k)
      acquires_reader :
          (others : Kernel M → Kernel M) (i t ms : ℕ) (k : Kernel M)
          → ((s : Kernel M) → Run s (others s))
          → Step k (ReaderWriter.acquire_reader_i others i t ms k).1
      releases_reader :
          (others : Kernel M → Kernel M) (i : ℕ) (k : Kernel M)
          → ((s : Kernel M) → Run s (others s))
          → Step k (ReaderWriter.release_reader others i k)
      acquires_writer :
          (others : Kernel M → Kernel M) (i t ms : ℕ) (k : Kernel M)
          → ((s : Kernel M) → Run s (others s))
          → Step k (ReaderWriter.acquire_writer_i others i t ms k).1
      releases_writer :
          (others : Kernel M → Kernel M) (i : ℕ) (k : Kernel M)
          → ((s : Kernel M) → Run s (others s))
          → Step k (ReaderWriter.release_writer others i k)
      inits_queue : (i : ℕ) (k : Kernel M) → Step k (Message.init i k)
      sends : (i m : ℕ) (k : Kernel M) → Step k (Message.send i m k)
      receives :
          (others : Kernel M → Kernel M) (i t ms : ℕ) (k : Kernel M)
          → ((s : Kernel M) → Run s (others s))
          → Step k (Message.receive_i others i t ms k).1
      inits_mailbox : (i size element : ℕ) (k : Kernel M) → Step k (Mailbox.init i size element k)
      sends_mail :
          (others : Kernel M → Kernel M) (i t : ℕ) (tail : Bool) (ms : ℕ) (e : List ℕ)
          (k : Kernel M)
          → ((s : Kernel M) → Run s (others s))
          → Step k (Mailbox.send_i others i t tail ms e k).1
      receives_mail :
          (others : Kernel M → Kernel M) (i t : ℕ) (tail : Bool) (ms : ℕ) (k : Kernel M)
          → ((s : Kernel M) → Run s (others s))
          → Step k (Mailbox.receive_i others i t tail ms k).1

    pub data Run : Kernel M → Kernel M → Type 0 where
      stay : (k : Kernel M) → Run k k
      go : {k k' k'' : Kernel M} → Step k k' → Run k' k'' → Run k k''
