-- ===== src/Kernel/Sound/Compound.antt =====
-- Condition variables and reader-writer locks keep the kernel sound.
use mark.Prelude.{ℕ, zero, suc, ◌+◌, ◌-◌, ◌%◌, ◌≤◌, true, false, ◌==◌, if◌then◌else◌}
use mark.PrioMap.Interface.{PriorityMap}
use mark.Kernel.State.{Kernel}
use mark.Kernel.Mutex
use mark.Kernel.Mutex.{claim, release}
use mark.Kernel.TimedMutex.{claim_timed}
use mark.Kernel.Semaphore.{post, pend_i}
use mark.Kernel.CondVar
use mark.Kernel.CondVar.{put_waiters, enter, post_all, broadcast}
use mark.Kernel.ReaderWriter
use mark.Kernel.ReaderWriter.{put_read_count, acquire_reader_i, release_reader}
use mark.Kernel.Sound.{IsSound}
use mark.Kernel.Sound.Scheduling.{if-Sound, if_pair-Sound}
use mark.Kernel.Sound.Locks
use mark.Kernel.Sound.Locks.{claim-Sound, release-Sound}
use mark.Kernel.Sound.Objects.{semaphore_init-Sound, post-Sound, pend_i-Sound}
use mark.Kernel.Sound.Ticks.{claim_timed-Sound}

module _ {M : Type 0} ⦃pm : PriorityMap M⦄ (num : ℕ) (fits : num ≤ pm.capacity) where
  abbrev Ok : Kernel M → Type 0
  Ok k = IsSound num k

  pub condvar_init-Sound : (i : ℕ) (k : Kernel M) → Ok k → Ok (CondVar.init i k)
  unfolding CondVar.init
  condvar_init-Sound i k h =
      let k' = Mutex.init (k.condvar i).lock true k in
      semaphore_init-Sound num fits (k'.condvar i).semaphore 0 255 k'
        (Locks.init-Sound num fits (k.condvar i).lock true k h)

  pub rwlock_init-Sound : (i : ℕ) (k : Kernel M) → Ok k → Ok (ReaderWriter.init i k)
  unfolding ReaderWriter.init
  rwlock_init-Sound i k h =
      let k₁ = put_read_count i 0 k in
      let h₁ : Ok k₁ = h in
      let k₂ = Mutex.init (k₁.rwlock i).global_mutex true k₁ in
      Locks.init-Sound num fits (k₂.rwlock i).reader_mutex true k₂
        (Locks.init-Sound num fits (k₁.rwlock i).global_mutex true k₁ h₁)

  module _ (others : Kernel M → Kernel M)
      (others_ok : (k : Kernel M) → IsSound num k → IsSound num (others k)) where
    post_all-Sound : (fuel i : ℕ) (k : Kernel M) → Ok k → Ok (post_all others fuel i k)
    unfolding post_all
    post_all-Sound zero i k h = h
    post_all-Sound (suc fuel) i k h =
        let k₁ = put_waiters i ((k.condvar i).waiters - 1) k in
        let h₁ : Ok k₁ = h in
        if-Sound num fits ((k.condvar i).waiters == 0) k _ h (
          post_all-Sound fuel i (post (k.condvar i).semaphore k₁).1
            (post-Sound num fits (k.condvar i).semaphore k₁ h₁))

    enter-Sound : (i m : ℕ) (k : Kernel M) → Ok k → Ok (enter others i m k)
    unfolding enter
    enter-Sound i m k h =
        let k₁ = release m (claim others (k.condvar i).lock k) in
        let h₁ : Ok k₁ =
          release-Sound num fits m (claim others (k.condvar i).lock k)
            (claim-Sound num fits others others_ok (k.condvar i).lock k h) in
        release-Sound num fits (k₁.condvar i).lock
          (put_waiters i (((k₁.condvar i).waiters + 1) % 256) k₁) h₁

    pub condvar_wait-Sound : (i m t : ℕ) (k : Kernel M) → Ok k → Ok (CondVar.wait others i m t k)
    unfolding CondVar.wait
    condvar_wait-Sound i m t k h =
        let k₁ = enter others i m k in
        claim-Sound num fits others others_ok m (pend_i others (k₁.condvar i).semaphore t 0 k₁).1 (
          pend_i-Sound num fits others others_ok (k₁.condvar i).semaphore t 0 k₁
            (enter-Sound i m k h))

    pub condvar_wait_timed-Sound :
        (i m t ms : ℕ) (k : Kernel M) → Ok k → Ok (CondVar.wait_timed others i m t ms k).1
    unfolding CondVar.wait_timed
    condvar_wait_timed-Sound i m t ms k h =
        let k₁ = enter others i m k in
        let r = pend_i others (k₁.condvar i).semaphore t ms k₁ in
        let h₂ : Ok r.1 =
          pend_i-Sound num fits others others_ok (k₁.condvar i).semaphore t ms k₁
            (enter-Sound i m k h) in
        if_pair-Sound num fits r.0 (claim_timed others m t ms r.1) (false, r.1)
          (claim_timed-Sound num fits others others_ok m t ms r.1 h₂) h₂

    pub condvar_signal-Sound : (i : ℕ) (k : Kernel M) → Ok k → Ok (CondVar.signal others i k)
    unfolding CondVar.signal
    condvar_signal-Sound i k h =
        let k₁ = claim others (k.condvar i).lock k in
        let h₁ : Ok k₁ = claim-Sound num fits others others_ok (k.condvar i).lock k h in
        let n = (k₁.condvar i).waiters in
        let k₂ = put_waiters i (n - 1) k₁ in
        let h₂ : Ok k₂ = h₁ in
        release-Sound num fits _ _ (
          if-Sound num fits (n == 0) k₁ (post (k₁.condvar i).semaphore k₂).1 h₁
            (post-Sound num fits (k₁.condvar i).semaphore k₂ h₂))

    pub broadcast-Sound : (i : ℕ) (k : Kernel M) → Ok k → Ok (broadcast others i k)
    unfolding broadcast
    broadcast-Sound i k h =
        let k₁ = claim others (k.condvar i).lock k in
        release-Sound num fits _ (post_all others 255 i k₁)
          (post_all-Sound 255 i k₁ (claim-Sound num fits others others_ok (k.condvar i).lock k h))

    pub acquire_reader-Sound :
        (i t ms : ℕ) (k : Kernel M) → Ok k → Ok (acquire_reader_i others i t ms k).1
    unfolding acquire_reader_i
    acquire_reader-Sound i t ms k h =
        let r = claim_timed others (k.rwlock i).reader_mutex t ms k in
        let h₁ : Ok r.1 =
          claim_timed-Sound num fits others others_ok (k.rwlock i).reader_mutex t ms k h in
        let n = ((r.1.rwlock i).read_count + 1) % 256 in
        let k₂ = put_read_count i n r.1 in
        let h₂ : Ok k₂ = h₁ in
        let r₃ =
          if n == 1 then claim_timed others (k₂.rwlock i).global_mutex t ms k₂ else (true, k₂) in
        let h₃ : Ok r₃.1 =
          if_pair-Sound num fits (n == 1) (claim_timed others (k₂.rwlock i).global_mutex t ms k₂)
            (true, k₂)
            (claim_timed-Sound num fits others others_ok (k₂.rwlock i).global_mutex t ms k₂ h₂)
            h₂ in
        if_pair-Sound num fits r.0 (r₃.0, release (r₃.1.rwlock i).reader_mutex r₃.1) (false, r.1)
          (release-Sound num fits (r₃.1.rwlock i).reader_mutex r₃.1 h₃) h₁

    pub release_reader-Sound : (i : ℕ) (k : Kernel M) → Ok k → Ok (release_reader others i k)
    unfolding release_reader
    release_reader-Sound i k h =
        let k₁ = claim others (k.rwlock i).reader_mutex k in
        let h₁ : Ok k₁ = claim-Sound num fits others others_ok (k.rwlock i).reader_mutex k h in
        let n = ((k₁.rwlock i).read_count + 255) % 256 in
        let k₂ = put_read_count i n k₁ in
        let h₂ : Ok k₂ = h₁ in
        release-Sound num fits _ _ (
          if-Sound num fits (n == 0) (release (k₂.rwlock i).global_mutex k₂) k₂
            (release-Sound num fits (k₂.rwlock i).global_mutex k₂ h₂) h₂)

    pub acquire_writer-Sound :
        (i t ms : ℕ) (k : Kernel M) → Ok k → Ok (ReaderWriter.acquire_writer_i others i t ms k).1
    unfolding ReaderWriter.acquire_writer_i
    acquire_writer-Sound i t ms k h =
        claim_timed-Sound num fits others others_ok (k.rwlock i).global_mutex t ms k h

    pub release_writer-Sound :
        (i : ℕ) (k : Kernel M) → Ok k → Ok (ReaderWriter.release_writer others i k)
    unfolding ReaderWriter.release_writer
    release_writer-Sound i k h = release-Sound num fits (k.rwlock i).global_mutex k h
