-- ===== src/Kernel/Semaphore/Laws.antt =====
-- The behaviour of `Post`, and of `Pend` where the count is not zero (src/ksemaphore.cpp).
use mark.Prelude.{
  ℕ, ◌+◌, ◌-◌, ◌<◌, ◌≡◌, ◌≢◌, refl, sym, subst, ◌∙◌, ap, Bool, true, false, not, ◌&&◌, ◌||◌, inl,
  inr, some, List, [], ◌∷◌, arith, ◌==◌, ltb, if◌then◌else◌, Bool-cases, Option-cases, ==_self,
}
use mark.PrioMap.Interface.{PriorityMap}
use mark.ThreadList.Ring.{nonempty}
use mark.ThreadList.{ThreadId, highest_waiter}
use mark.ThreadList.Consistent.{ready_list}
use mark.Kernel.State.{Kernel}
use mark.Kernel.Scheduler.{yield}
use mark.Kernel.Blocking.{unblock, block_priority}
use mark.Kernel.Blocking.Moves.{Woken, unblock-Woken, Waits, block_priority-Waits, objects-yield_if}
use mark.Kernel.Quiet.{objects, objects-yield}
use mark.Kernel.Timer
use mark.Prelude.{update_back}
use mark.Kernel.Semaphore.{post, pend_i, wake_next, wait_for}

never {ℓ} : {A : Type ℓ} (b : Bool) (x y : A) → (if b && false then x else y) ≡ y
never true x y = refl
never false x y = refl

module _ {M : Type 0} ⦃pm : PriorityMap M⦄ where
  pub unblock-semaphore : (t : ThreadId) (k : Kernel M) → (unblock t k).semaphore ≡ k.semaphore
  unfolding unblock
  unblock-semaphore t k = elim (Option-cases (k.thread t).current) [
    | inl e ↦ rw (e, unblock) refl
    | inr (l, e) ↦ rw (e, unblock) refl
  ]

  wake_next-semaphore : (i : ℕ) (k : Kernel M) → (wake_next i k).1.semaphore ≡ k.semaphore
  unfolding wake_next
  wake_next-semaphore i k =
      elim (Option-cases (highest_waiter (k.semaphore i).block_list k.lists)) [
        | inl e ↦ rw (e, wake_next) refl
        | inr (t, e) ↦ rw (e, wake_next) (unblock-semaphore t k)
      ]

  yield_if-semaphore :
      (b : Bool) (k : Kernel M) → (if b then yield k else k).semaphore ≡ k.semaphore
  yield_if-semaphore true k = ap (λ o. o.semaphore) (objects-yield k)
  yield_if-semaphore false k = refl

  -- The count that `Post` leaves in each semaphore.
  abbrev pub posted : ℕ → Kernel M → ℕ → ℕ
  posted i k j =
      if j == i
        && (not (nonempty (k.lists.list (k.semaphore i).block_list).members)
            && ltb (k.semaphore i).value (k.semaphore i).max_value)
      then (k.semaphore j).value + 1
      else (k.semaphore j).value

  -- `post` succeeds just when a thread waits or the count is below the maximum; it adds one to the
  -- count of this semaphore when nobody waits and there is room, and leaves every other count and
  -- every maximum as it was.
  pub post-counts :
      (i : ℕ) (k : Kernel M)
      → ((post i k).0 ≡ (
          nonempty (k.lists.list (k.semaphore i).block_list).members
          || ltb (k.semaphore i).value (k.semaphore i).max_value))
        × ((j : ℕ)
            → (((post i k).1.semaphore j).value ≡ posted i k j)
              × (((post i k).1.semaphore j).max_value ≡ (k.semaphore j).max_value))
  unfolding post
  post-counts i k = elim (Bool-cases (nonempty (k.lists.list (k.semaphore i).block_list).members)) [
    | inl waiting ↦
        let e = yield_if-semaphore (wake_next i k).0 (wake_next i k).1 ∙ wake_next-semaphore i k in
        rw waiting (
          refl,
          λ j. (ap (λ f. (f j).value) e ∙ sym (never (j == i) _ _), ap (λ f. (f j).max_value) e),
        )
    | inr idle ↦ rw idle (ground arith, λ j. (ground arith, ground arith))
  ]

  pub wake_next-Woken :
      (i : ℕ) (k : Kernel M) (t : ThreadId) (ts : List ThreadId)
      → (k.lists.list (k.semaphore i).block_list).members ≡ t ∷ ts
      → (k.thread t).current ≡ some (k.semaphore i).block_list
      → (k.semaphore i).block_list ≢ ready_list (k.thread t).priority
      → Woken t (k.semaphore i).block_list (objects k) (objects (wake_next i k).1)
  unfolding wake_next
  wake_next-Woken i k t ts e home apart = rw (e, wake_next) (unblock-Woken t _ k home apart)

  -- With waiters, `post` takes the head of the block list from it to the ready list of the thread's
  -- priority and makes it ready, where the thread knows its list and the two lists differ.
  pub post-Woken :
      (i : ℕ) (k : Kernel M) (t : ThreadId) (ts : List ThreadId)
      → (k.lists.list (k.semaphore i).block_list).members ≡ t ∷ ts
      → (k.thread t).current ≡ some (k.semaphore i).block_list
      → (k.semaphore i).block_list ≢ ready_list (k.thread t).priority
      → Woken t (k.semaphore i).block_list (objects k) (objects (post i k).1)
  unfolding post
  post-Woken i k t ts e home apart =
      let w = wake_next-Woken i k t ts e home apart in
      rw e (
        subst (Woken t (k.semaphore i).block_list (objects k))
          (sym (objects-yield_if (wake_next i k).0 (wake_next i k).1)) w)

  -- A post to a semaphore with no waiters and room, followed by a pend, succeeds and gives back
  -- every semaphore as it was.
  pub pend-post :
      (others : Kernel M → Kernel M) (i t wait : ℕ) (k : Kernel M)
      → (k.lists.list (k.semaphore i).block_list).members ≡ []
      → (k.semaphore i).value < (k.semaphore i).max_value
      → ((pend_i others i t wait (post i k).1).0 ≡ true)
        × ((j : ℕ) → (pend_i others i t wait (post i k).1).1.semaphore j ≡ k.semaphore j)
  unfolding post pend_i Timer.construct
  pend-post others i t wait k idle room =
      let more : ltb (k.semaphore i).value (k.semaphore i).max_value ≡ true = ground arith in
      let some_left : ((k.semaphore i).value + 1 == 0) ≡ false = ground arith in
      let back : (k.semaphore i).value + 1 - 1 ≡ (k.semaphore i).value = omega arith in
      rw (idle, more, ==_self i, some_left, back) (refl, update_back k.semaphore i _)

  -- A pend without a timeout on a count of zero puts the running thread on the semaphore's block
  -- list, takes it from its ready list and marks it blocked there.
  pub wait_for-Waits :
      (others : Kernel M → Kernel M) (i t : ℕ) (k : Kernel M)
      → (k.semaphore i).block_list ≢ ready_list (k.thread k.current).priority
      → Waits k.current (k.semaphore i).block_list (objects k) (objects (wait_for others i t 0 k))
  unfolding wait_for
  wait_for-Waits others i t k apart =
      let k' = block_priority (k.semaphore i).block_list k.current k in
      subst (Waits k.current (k.semaphore i).block_list (objects k)) (sym (objects-yield k'))
        (block_priority-Waits k.current (k.semaphore i).block_list k apart)
