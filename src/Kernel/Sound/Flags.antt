-- ===== src/Kernel/Sound/Flags.antt =====
-- Event flags keep the kernel sound.
use mark.Prelude.{
  ℕ, ◌≤◌, ◌<◌, Bool, false, inl, inr, List, [], ◌∷◌, arith, ◌==◌, if◌then◌else◌, Bool-cases,
}
use mark.PrioMap.Interface.{PriorityMap}
use mark.ThreadList.{ThreadId}
use mark.Kernel.State.{Kernel, EventFlag, put_event_flag, set_expired}
use mark.Kernel.Sound.{IsSound}
use mark.Kernel.Sound.Scheduling.{
  rebuild, with_event_flags, block_priority-Sound, unblock-Sound, yield-Sound, if-Sound,
}
use Prim.Native.Nat.{bit_or}
use mark.Kernel.State.{
  EventFlagOperation, timed_event_flag, set_event_flag_mask, set_event_flag_mode,
}
use mark.Kernel.Scheduler.{yield}
use mark.Kernel.Timer
use mark.Kernel.EventFlag
use mark.Kernel.EventFlag.{
  tag_one, tag_all, unblock_tagged, is_pending, match_now, matches, matched_mask, is_clear,
}
use mark.Kernel.Sound.Timers.{stop-Sound, construct-Sound}
use mark.Kernel.Sound.Objects.{expired-Sound, armed-Sound}

module _ {M : Type 0} ⦃pm : PriorityMap M⦄ (num : ℕ) (fits : num ≤ pm.capacity) where
  abbrev Ok : Kernel M → Type 0
  Ok k = IsSound num k

  put_flag-Sound :
      (i : ℕ) (v : EventFlag) (k : Kernel M) → num < v.block_list → Ok k → Ok (put_event_flag i v k)
  put_flag-Sound i v k p h = with_event_flags num fits h (λ j. ground (arith, h.event_flag_apart j))

  masked-Sound : (t : ThreadId) (mask : ℕ) (k : Kernel M) → Ok k → Ok (set_event_flag_mask t mask k)
  masked-Sound t mask k h = rebuild num fits h h.consistent (λ u. ground (arith, h.in_range u))

  pub flag_init-Sound : (i : ℕ) (k : Kernel M) → Ok k → Ok (EventFlag.init i k)
  unfolding EventFlag.init
  flag_init-Sound i k h = put_flag-Sound i _ k (h.event_flag_apart i) h

  pub clear-Sound : (i mask : ℕ) (k : Kernel M) → Ok k → Ok (EventFlag.clear i mask k)
  unfolding EventFlag.clear
  clear-Sound i mask k h = put_flag-Sound i _ k (h.event_flag_apart i) h

  tag_one-Sound :
      (flags mask : ℕ) (t : ThreadId) (left : ℕ) (b : Bool) (k : Kernel M)
      → Ok k
      → Ok (tag_one flags mask t (left, b, k)).2
  unfolding tag_one
  tag_one-Sound flags mask t left b k h =
      elim (Bool-cases (matches (k.thread t).flag_mode flags (k.thread t).flag_mask)) [
        | inl over ↦
            rw (over, tag_one) (rebuild num fits h h.consistent (λ u. ground (arith, h.in_range u)))
        | inr waiting ↦ rw (waiting, tag_one) h
      ]

  tag_all-Sound :
      (flags mask : ℕ) (ts : List ThreadId) (r : ℕ × Bool × Kernel M)
      → Ok r.2
      → Ok (tag_all flags mask ts r).2
  unfolding tag_all
  tag_all-Sound flags mask [] r h = h
  tag_all-Sound flags mask (t ∷ ts) (left, b, k) h =
      tag_all-Sound flags mask ts _ (tag_one-Sound flags mask t left b k h)

  unblock_tagged-Sound : (ts : List ThreadId) (k : Kernel M) → Ok k → Ok (unblock_tagged ts k)
  unfolding unblock_tagged
  unblock_tagged-Sound [] k h = h
  unblock_tagged-Sound (t ∷ ts) k h =
      unblock_tagged-Sound ts _
        (if-Sound num fits (is_pending (k.thread t).flag_mode) _ _ (unblock-Sound num fits t k h) h)

  pub set-Sound : (i mask : ℕ) (k : Kernel M) → Ok k → Ok (EventFlag.set i mask k)
  unfolding EventFlag.set
  set-Sound i mask k h =
      let flags = bit_or (k.event_flag i).set_mask mask in
      let k₁ = put_event_flag i (record (k.event_flag i) { set_mask = flags }) k in
      let h₁ : Ok k₁ = put_flag-Sound i _ k (h.event_flag_apart i) h in
      let waiters = (k₁.lists.list (k₁.event_flag i).block_list).members in
      let tagged = tag_all flags mask waiters (flags, false, k₁) in
      let h₂ : Ok tagged.2 = tag_all-Sound flags mask waiters _ h₁ in
      let h₃ = unblock_tagged-Sound waiters tagged.2 h₂ in
      let k₄ =
        if tagged.1
        then yield (unblock_tagged waiters tagged.2)
        else unblock_tagged waiters tagged.2 in
      let h₄ : Ok k₄ = if-Sound num fits tagged.1 _ _ (yield-Sound num fits _ h₃) h₃ in
      put_flag-Sound i _ k₄ (h₄.event_flag_apart i) h₄

  module _ (others : Kernel M → Kernel M)
      (others_ok : (k : Kernel M) → IsSound num k → IsSound num (others k)) where
    match_now-Sound :
        (i mask : ℕ) (mode : EventFlagOperation) (k : Kernel M)
        → Ok k
        → Ok (match_now others i mask mode k)
    match_now-Sound i mask mode k h =
        let k' =
          set_event_flag_mask k.current (matched_mask mode (k.event_flag i).set_mask mask) k in
        let h' : Ok k' =
          masked-Sound k.current (matched_mask mode (k.event_flag i).set_mask mask) k h in
        if-Sound num fits (is_clear mode) (set_expired k'.current false (EventFlag.clear i mask k'))
          k'
          (expired-Sound num fits k'.current false (EventFlag.clear i mask k')
            (clear-Sound i mask k' h'))
          h'

    wait_for-Sound :
        (i t mask : ℕ) (mode : EventFlagOperation) (ms : ℕ) (k : Kernel M)
        → Ok k
        → Ok (EventFlag.wait_for others i t mask mode ms k)
    unfolding EventFlag.wait_for
    wait_for-Sound i t mask mode ms k h =
        let k₀ = set_event_flag_mask k.current mask k in
        let h₀ : Ok k₀ = masked-Sound k.current mask k h in
        let k₁ = set_event_flag_mode k₀.current mode k₀ in
        let h₁ : Ok k₁ = rebuild num fits h₀ h₀.consistent (λ u. ground (arith, h₀.in_range u)) in
        let h₂ = armed-Sound num fits others others_ok t ms (timed_event_flag i) k₁ h₁ in
        yield-Sound num fits _ (block_priority-Sound num fits _ _ _ (h₂.event_flag_apart i) h₂)

    pub wait_i-Sound :
        (i t mask : ℕ) (mode : EventFlagOperation) (ms : ℕ) (k : Kernel M)
        → Ok k
        → Ok (EventFlag.wait_i others i t mask mode ms k).1
    unfolding EventFlag.wait_i
    wait_i-Sound i t mask mode ms k h =
        let k₀ = set_event_flag_mask k.current mask (Timer.construct t k) in
        let hc : Ok (Timer.construct t k) = construct-Sound num fits others others_ok t k h in
        let h₀ : Ok k₀ = masked-Sound k.current mask (Timer.construct t k) hc in
        let h₁ = others_ok _ (wait_for-Sound i t mask mode ms k₀ h₀) in
        if-Sound num fits (matches mode (k₀.event_flag i).set_mask mask) _ _
          (match_now-Sound i mask mode k₀ h₀)
          (if-Sound num fits (ms == 0) _ _ h₁ (stop-Sound num fits others others_ok t _ h₁))
