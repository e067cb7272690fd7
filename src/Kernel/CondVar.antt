-- ===== src/Kernel/CondVar.antt =====
-- `class ConditionVariable` of src/condvar.cpp.
pub mod Laws
use mark.Prelude.{ℕ, zero, suc, ◌+◌, ◌-◌, ◌%◌, Bool, true, false, ◌==◌, if◌then◌else◌}
use mark.PrioMap.Interface.{PriorityMap}
use mark.Kernel.State.{Kernel, put_condvar}
use mark.Kernel.Mutex.{claim, release}
use mark.Kernel.Mutex
use mark.Kernel.Semaphore
use mark.Kernel.Semaphore.{post, pend_i}
use mark.Kernel.TimedMutex.{claim_timed}

module _ {M : Type 0} where
  abbrev pub put_waiters : ℕ → ℕ → Kernel M → Kernel M
  put_waiters i n k = put_condvar i (record (k.condvar i) { waiters = n }) k

  -- `ConditionVariable::Init`, on objects at the addresses that the variable holds.
  unfoldable pub init : ℕ → Kernel M → Kernel M
  init i k =
      let k' = Mutex.init (k.condvar i).lock true k in
      Semaphore.init (k'.condvar i).semaphore 0 255 k'

module _ {M : Type 0} ⦃pm : PriorityMap M⦄ (others : Kernel M → Kernel M) where
  -- What both waits do before they pend.
  unfoldable pub enter : ℕ → ℕ → Kernel M → Kernel M
  enter i m k =
      let k₁ = release m (claim others (k.condvar i).lock k) in
      release (k₁.condvar i).lock (put_waiters i (((k₁.condvar i).waiters + 1) % 256) k₁)

  -- `ConditionVariable::Wait(Mutex*)`; `t` is the address of the timer of the pend.
  unfoldable pub wait : ℕ → ℕ → ℕ → Kernel M → Kernel M
  wait i m t k =
      let k₁ = enter i m k in claim others m (pend_i others (k₁.condvar i).semaphore t 0 k₁).1

  -- `ConditionVariable::Wait(Mutex*, uint32_t)`
  unfoldable pub wait_timed : ℕ → ℕ → ℕ → ℕ → Kernel M → Bool × Kernel M
  wait_timed i m t ms k =
      let k₁ = enter i m k in
      let (signalled, k₂) = pend_i others (k₁.condvar i).semaphore t ms k₁ in
      if signalled then claim_timed others m t ms k₂ else (false, k₂)

  -- `ConditionVariable::Signal`
  unfoldable pub signal : ℕ → Kernel M → Kernel M
  signal i k =
      let k₁ = claim others (k.condvar i).lock k in
      let n = (k₁.condvar i).waiters in
      let k₂ =
        if n == 0 then k₁ else (post (k₁.condvar i).semaphore (put_waiters i (n - 1) k₁)).1 in
      release (k₂.condvar i).lock k₂

  -- The loop of `Broadcast`, with fuel: a `uint8_t` falls to zero in 255 rounds.
  unfoldable pub post_all : ℕ → ℕ → Kernel M → Kernel M
  post_all zero i k = k
  post_all (suc fuel) i k =
      let n = (k.condvar i).waiters in
      let rest = post_all fuel i (post (k.condvar i).semaphore (put_waiters i (n - 1) k)).1 in
      if n == 0 then k else rest

  -- `ConditionVariable::Broadcast`
  unfoldable pub broadcast : ℕ → Kernel M → Kernel M
  broadcast i k =
      let k₁ = claim others (k.condvar i).lock k in
      let k₂ = post_all 255 i k₁ in release (k₂.condvar i).lock k₂
