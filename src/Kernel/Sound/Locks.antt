-- ===== src/Kernel/Sound/Locks.antt =====
-- Mutexes keep the kernel sound: `claim_i` with any timer operations that do, and `release`.
use mark.Prelude.{
  ℕ, ◌≤◌, ◌<◌, Bool, true, false, inl, inr, Option, none, some, List, [], ◌∷◌, arith, ◌==◌,
  if◌then◌else◌, Option-cases, ◌&&◌, not, opt_eq, leb,
}
use mark.PrioMap.Interface.{PriorityMap}
use mark.ThreadList.Ring.{nonempty}
use mark.ThreadList.{ThreadId, highest_waiter}
use mark.Kernel.State.{Kernel, Mutex, put_mutex, set_expired}
use mark.Kernel.Sound.{IsSound}
use mark.Kernel.Sound.Scheduling.{
  rebuild, with_mutexes, block_priority-Sound, unblock-Sound, yield-Sound, set_scheduler-Sound,
  if-Sound, if_pair-Sound, set_priority-Sound, inherit_priority-Sound,
}
use mark.Kernel.Scheduler.{set_scheduler}
use mark.Kernel.Blocking.{unblock}
use mark.Kernel.Priority.{inherit_priority}
use mark.Kernel.Mutex.{
  inherit_all, inherit_owner, inherit, wake_next, wait_for, claim_i, restore, hand_over, release,
  claim, init, with_lock,
}

module _ {M : Type 0} ⦃pm : PriorityMap M⦄ (num : ℕ) (fits : num ≤ pm.capacity) where
  abbrev Ok : Kernel M → Type 0
  Ok k = IsSound num k

  pub put_mutex-Sound :
      (i : ℕ) (v : Mutex) (k : Kernel M) → num < v.block_list → Ok k → Ok (put_mutex i v k)
  put_mutex-Sound i v k p h = with_mutexes num fits h (λ j. ground (arith, h.mutex_apart j))

  pub init-Sound : (i : ℕ) (r : Bool) (k : Kernel M) → Ok k → Ok (init i r k)
  unfolding init
  init-Sound i r k h = put_mutex-Sound i _ k (h.mutex_apart i) h

  inherit_all-Sound :
      (ts : List ThreadId) (prio : ℕ) (k : Kernel M) → Ok k → Ok (inherit_all ts prio k)
  unfolding inherit_all
  inherit_all-Sound [] prio k h = h
  inherit_all-Sound (t ∷ ts) prio k h =
      inherit_all-Sound ts prio (inherit_priority t prio k)
        (inherit_priority-Sound num fits t prio k h)

  inherit_owner-Sound :
      (o : Option ThreadId) (prio : ℕ) (k : Kernel M) → Ok k → Ok (inherit_owner o prio k)
  inherit_owner-Sound none prio k h = h
  inherit_owner-Sound (some t) prio k h = inherit_priority-Sound num fits t prio k h

  inherit-Sound : (i : ℕ) (k : Kernel M) → Ok k → Ok (inherit i k)
  unfolding inherit
  inherit-Sound i k h =
      if-Sound num fits (leb (k.mutex i).max_pri (k.thread k.current).priority) _ k
        (inherit_owner-Sound _ _ _
          (inherit_all-Sound _ _ _ (put_mutex-Sound i _ k (h.mutex_apart i) h)))
        h

  wake_next-Sound : (i : ℕ) (k : Kernel M) → Ok k → Ok (wake_next i k).1
  unfolding wake_next
  wake_next-Sound i k h = elim (Option-cases (highest_waiter (k.mutex i).block_list k.lists)) [
    | inl e ↦ rw (e, wake_next) h
    | inr (t, e) ↦
        let h' = unblock-Sound num fits t k h in
        rw (e, wake_next) (put_mutex-Sound i _ (unblock t k) (h'.mutex_apart i) h')
  ]

  module _ (arm disarm others : Kernel M → Kernel M) (arm_ok : (k : Kernel M) → Ok k → Ok (arm k))
      (disarm_ok : (k : Kernel M) → Ok k → Ok (disarm k))
      (others_ok : (k : Kernel M) → Ok k → Ok (others k)) where
    wait_for-Sound : (i wait : ℕ) (k : Kernel M) → Ok k → Ok (wait_for arm disarm others i wait k)
    unfolding wait_for
    wait_for-Sound i wait k h =
        let k₁ = if wait == 0 then k else arm (set_expired k.current false k) in
        let h₁ : Ok k₁ = if-Sound num fits (wait == 0) k (arm (set_expired k.current false k)) h (
          arm_ok (set_expired k.current false k)
            (rebuild num fits h h.consistent (λ u. ground (arith, h.in_range u)))) in
        yield-Sound num fits _ (
          set_scheduler-Sound num fits true _ (
            inherit-Sound i _ (
              block_priority-Sound num fits (k₁.mutex i).block_list k₁.current k₁ (h₁.mutex_apart i)
                h₁)))

    pub claim_i-Sound :
        (i wait : ℕ) (k : Kernel M) → Ok k → Ok (claim_i arm disarm others i wait k).1
    unfolding claim_i
    claim_i-Sound i wait k h =
        let k₁ = (set_scheduler false k).1 in
        let h₁ : Ok k₁ = set_scheduler-Sound num fits false k h in
        let h₂ : Ok (others (wait_for arm disarm others i wait k₁)) =
          others_ok _ (wait_for-Sound i wait k₁ h₁) in
        if_pair-Sound num fits (k₁.mutex i).is_ready _ _
          (set_scheduler-Sound num fits true _ (put_mutex-Sound i _ k₁ (h₁.mutex_apart i) h₁))
          (if_pair-Sound num fits
            ((k₁.mutex i).recursive && opt_eq (some k₁.current) (k₁.mutex i).owner) _ _
            (set_scheduler-Sound num fits true _ (put_mutex-Sound i _ k₁ (h₁.mutex_apart i) h₁))
            (if_pair-Sound num fits (wait == 0) _ _ h₂ (disarm_ok _ h₂)))

  restore-Sound : (k : Kernel M) → Ok k → Ok (restore k).1
  restore-Sound k h =
      if_pair-Sound num fits ((k.thread k.current).cur_priority == (k.thread k.current).priority)
        (false, k) _ h
        (set_priority-Sound num fits k.current (k.thread k.current).priority k
          (h.in_range k.current) h)

  hand_over-Sound : (i : ℕ) (r : Bool) (k : Kernel M) → Ok k → Ok (hand_over i r k).1
  hand_over-Sound i r k h =
      if_pair-Sound num fits (nonempty (k.lists.list (k.mutex i).block_list).members) _ _
        (wake_next-Sound i k h) (put_mutex-Sound i _ k (h.mutex_apart i) h)

  pub release-Sound : (i : ℕ) (k : Kernel M) → Ok k → Ok (release i k)
  unfolding release
  release-Sound i k h =
      let k₁ = (set_scheduler false k).1 in
      let h₁ : Ok k₁ = set_scheduler-Sound num fits false k h in
      let h₂ = restore-Sound k₁ h₁ in
      let h₃ = hand_over-Sound i (restore k₁).0 (restore k₁).1 h₂ in
      let h₄ = set_scheduler-Sound num fits true _ h₃ in
      if-Sound num fits ((k₁.mutex i).recursive && not ((k₁.mutex i).recurse == 0)) _ _
        (set_scheduler-Sound num fits true _ (put_mutex-Sound i _ k₁ (h₁.mutex_apart i) h₁))
        (if-Sound num fits (hand_over i (restore k₁).0 (restore k₁).1).0 _ _
          (yield-Sound num fits _ h₄) h₄)

  module _ (others : Kernel M → Kernel M) (others_ok : (k : Kernel M) → Ok k → Ok (others k)) where
    pub claim-Sound : (i : ℕ) (k : Kernel M) → Ok k → Ok (claim others i k)
    unfolding claim
    claim-Sound i k h =
        claim_i-Sound (λ s. s) (λ s. s) others (λ s p. p) (λ s p. p) others_ok i 0 k h

    pub with_lock-Sound :
        (i : ℕ) (body : Kernel M → Kernel M) (k : Kernel M)
        → ((s : Kernel M) → Ok s → Ok (body s))
        → Ok k
        → Ok (with_lock others i body k)
    with_lock-Sound i body k keep h = release-Sound i _ (keep _ (claim-Sound i k h))
