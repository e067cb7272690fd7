-- ===== src/Kernel/TimerList/Expiring.antt =====
-- The end of a timer's last tick (`TimerList::Process` and `Remove`, src/timerlist.cpp).
use mark.Prelude.{
  ℕ, suc, ◌+◌, ◌-◌, ◌%◌, ◌<◌, ◌≡◌, ◌≢◌, ◌^◌, sym, subst, ◌∙◌, ap, Bool, true, false, not, ◌&&◌, inl,
  inr, some, arith, ◌==◌, Bool-cases, update, update-own, if_true, if_false,
}
use mark.PrioMap.Interface.{PriorityMap}
use mark.ThreadList.Ring.{remove_node}
use mark.ThreadList.{ThreadId}
use mark.Kernel.State.{Kernel, Timer, Callback, put_timer, put_mutex}
use mark.Kernel.Quiet.{objects, objects-set_scheduler}
use mark.Kernel.Scheduler.{set_scheduler}
use mark.Kernel.Mutex.{claim, release, recur_mutex}
use mark.Kernel.Mutex.Laws.{claim_i-nested}
use mark.Kernel.TimerList.{after_callback, remove, unlink}
use mark.Kernel.TimerList.Countdown.{ticks, with_left, ticks-after_callback}

-- The running thread holds the recursive mutex `i`, and can claim it once more.
pub record IsHolding {M : Type 0} (i : ℕ) (k : Kernel M) : Type 0 where
  pub taken : (k.mutex i).is_ready ≡ false
  pub recursive : (k.mutex i).recursive ≡ true
  pub own : (k.mutex i).owner ≡ some k.current
  pub shallow : (k.mutex i).recurse < 255

-- What becomes of a timer after its callback.
pub data Ended {M : Type 0} (t : ℕ) (k k' : Kernel M) : Type 0 where
  starts_over :
      (k.timer t).one_shot ≡ false
      → k' ≡ put_timer t (record (k.timer t) { time_left = (k.timer t).interval }) k
      → Ended t k k'
  stops :
      (k.timer t).one_shot ≡ true
      → k'.timer t ≡ record (k.timer t) { expired = true; active = false }
      → ((u : ℕ) → u ≢ t → k'.timer u ≡ k.timer u)
      → k'.timer_list ≡ remove_node k.timer_list t
      → Ended t k k'

module _ {M : Type 0} ⦃pm : PriorityMap M⦄ (others : Kernel M → Kernel M) where
  -- A nested claim changes only its mutex among the objects, and the release of one too.
  claim-recurs :
      (i : ℕ) (k : Kernel M)
      → IsHolding i k
      → objects (claim others i k) ≡ objects (recur_mutex i (set_scheduler false k).1)
  unfolding claim
  claim-recurs i k r =
      ap (λ (s : Bool × Kernel M). objects s.1)
        (claim_i-nested (λ s. s) (λ s. s) others i 0 k r.taken r.recursive r.own)
      ∙ objects-set_scheduler true (recur_mutex i (set_scheduler false k).1)

  release-recurs :
      (i : ℕ) (k : Kernel M)
      → ((k.mutex i).recursive && not ((k.mutex i).recurse == 0)) ≡ true
      → objects (release i k)
        ≡ objects (
            put_mutex i
              (record (k.mutex i) { recurse = (k.mutex i).recurse - 1 })
              (set_scheduler false k).1)
  unfolding release set_scheduler
  release-recurs i k nested =
      ap objects (if_true _ _ nested)
      ∙ objects-set_scheduler true (
          put_mutex i (record (k.mutex i) { recurse = (k.mutex i).recurse - 1 })
            (set_scheduler false k).1)

  -- A removal by the thread that holds the mutex of the list.
  remove-unlinks :
      (t : ℕ) (k : Kernel M)
      → IsHolding k.timer_mutex k
      → ((remove others t k).timer ≡ (unlink t k).timer)
        × ((remove others t k).timer_list ≡ (unlink t k).timer_list)
  unfolding remove unlink set_scheduler
  remove-unlinks t k r =
      let i = k.timer_mutex in
      let m = record (k.mutex i) { recurse = ((k.mutex i).recurse + 1) % 256 } in
      let k₁ = claim others i k in
      let claimed = claim-recurs i k r in
      let at : k₁.mutex i ≡ m = ap (λ o. o.mutex i) claimed ∙ update-own k.mutex i m in
      let recursive = r.recursive in
      let shallow = r.shallow in
      let nested : (m.recursive && not (m.recurse == 0)) ≡ true =
        ground (arith, recursive, shallow) in
      let released =
        release-recurs i (unlink t k₁)
          (ap (λ v. v.recursive && not (v.recurse == 0)) at ∙ nested) in
      (
        ap (λ o. o.timer) released
            ∙ ap (λ o. update o.timer t (record (o.timer t) { active = false })) claimed,
        ap (λ o. o.timer_list) released ∙ ap (λ o. remove_node o.timer_list t) claimed,
      )

  module _ (call : Callback → ThreadId → Kernel M → Kernel M) (t : ℕ) where
    after_callback-Ended :
        (k : Kernel M) → IsHolding k.timer_mutex k → Ended t k (after_callback others call t k)
    unfolding unlink
    after_callback-Ended k r =
        let expired = put_timer t (record (k.timer t) { expired = true; active = false }) k in
        let r' : IsHolding k.timer_mutex expired = record {
          taken = r.taken;
          recursive = r.recursive;
          own = r.own;
          shallow = r.shallow;
        } in
        let (timers, list) = remove-unlinks t expired r' in
        elim (Bool-cases (k.timer t).one_shot) [
          | inr again ↦ starts_over again (if_false _ _ again)
          | inl once ↦
              let result : after_callback others call t k ≡ remove others t expired =
                if_true _ _ once in
              let f : ℕ → Timer = expired.timer in
              let off : Timer = record (f t) { active = false } in
              stops once
                (ap (λ (s : Kernel M). s.timer t) result
                  ∙ ap (λ g. g t) timers
                  ∙ update-own f t off
                  ∙ ap (λ (v : Timer). record v { active = false })
                      (update-own k.timer t
                        (record (k.timer t) { expired = true; active = false })))
                (λ u apart.
                  let other : (u == t) ≡ false = ground (arith, apart) in
                  ap (λ (s : Kernel M). s.timer u) result
                  ∙ ap (λ g. g u) timers
                  ∙ if_false _ _ other
                  ∙ if_false _ _ other)
                (ap (λ (s : Kernel M). s.timer_list) result ∙ list)
        ]

    -- An active timer that has `n` ticks left, `0 < n < 2^32`, does nothing but count for `n - 1`
    -- ticks, and at the next one calls its callback for its owner, once. A timer that is not one-
    -- shot then gets its interval as the ticks that are left, and nothing else changes; a one-shot
    -- timer is marked expired and is not active, leaves the list of the timers, and the other timers
    -- stay as they were. After the callback the running thread holds the recursive mutex of the
    -- timers, nested less than 255 deep.
    pub ticks-Ended :
        (left : ℕ) (k : Kernel M)
        → (k.timer t).active ≡ true
        → (k.timer t).time_left ≡ suc left
        → suc left < 2 ^ 32
        → IsHolding
            (call (k.timer t).callback (k.timer t).owner (with_left others call t 0 k)).timer_mutex
            (call (k.timer t).callback (k.timer t).owner (with_left others call t 0 k))
        → Ended t
            (call (k.timer t).callback (k.timer t).owner (with_left others call t 0 k))
            (ticks others call t (suc left) k)
    ticks-Ended left k on at small held =
        let called = call (k.timer t).callback (k.timer t).owner (with_left others call t 0 k) in
        subst (Ended t called) (sym (ticks-after_callback others call t left k on at small))
          (after_callback-Ended called held)
