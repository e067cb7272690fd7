-- ===== src/Kernel/CondVar/Laws.antt =====
-- The loop of `ConditionVariable::Broadcast` (src/condvar.cpp) wakes the waiters.
use mark.Prelude.{
  ℕ, zero, suc, ◌-◌, ◌≤◌, ◌≡◌, ◌≢◌, refl, ◌∙◌, ap, sym, subst, Bool, inl, inr, true, false, List,
  [], ◌∷◌, arith, ◌==◌, ltb, length, Bool-cases, if_true, if_false, update-own,
}
use mark.PrioMap.Interface.{PriorityMap}
use mark.ThreadList.Ring.{nonempty}
use mark.ThreadList.{ThreadId, ListId}
use mark.ThreadList.Consistent.{ready_list}
use mark.Kernel.State.{Kernel}
use mark.Kernel.Quiet.{objects}
use mark.Kernel.Blocking.{unblock}
use mark.Kernel.Blocking.Moves.{objects-yield_if}
use mark.Kernel.Semaphore.{post, wake_next}
use mark.Kernel.Semaphore.Keeps.{post-view}
use mark.Kernel.Semaphore.Laws.{unblock-semaphore}
use mark.Kernel.Notify.Laws.{Queue, AllWoken, unblock-Queue, AllWoken-cons}
use mark.Kernel.CondVar.{post_all, put_waiters}

module _ {M : Type 0} ⦃pm : PriorityMap M⦄ where
  -- The waiters and what is said of them depend on the lists and the threads.
  Queue-thread :
      (l : ListId) (xs : List ThreadId) (k k' : Kernel M)
      → k'.lists ≡ k.lists
      → k'.thread ≡ k.thread
      → Queue l xs k
      → Queue l xs k'
  Queue-thread l xs k k' lists thread q = record {
    members = ap (λ s. (s.list l).members) lists ∙ q.members;
    once = q.once;
    at_home = λ t h. ap (λ f. (f t).current) thread ∙ q.at_home t h;
    away = λ t h. subst (λ f. l ≢ ready_list (f t).priority) (sym thread) (q.away t h);
  }

  AllWoken-thread :
      (l : ListId) (xs : List ThreadId) (k k₁ k' : Kernel M)
      → k₁.thread ≡ k.thread
      → AllWoken l xs k₁ k'
      → AllWoken l xs k k'
  AllWoken-thread l xs k k₁ k' thread w = record {
    emptied = w.emptied;
    woken = w.woken;
    kept = λ t h. w.kept t h ∙ ap (λ f. f t) thread;
  }

  post-wakes :
      (s : ℕ) (k : Kernel M) (t : ThreadId) (ts : List ThreadId)
      → (k.lists.list (k.semaphore s).block_list).members ≡ t ∷ ts
      → objects (post s k).1 ≡ objects (unblock t k)
  unfolding post wake_next
  post-wakes s k t ts e =
      let waiting : nonempty (k.lists.list (k.semaphore s).block_list).members ≡ true =
        ap (λ xs. nonempty xs) e in
      let r = wake_next s k in
      ap (λ (r : Bool × Kernel M). objects r.1) (if_true _ _ waiting)
      ∙ objects-yield_if r.0 r.1
      ∙ rw (e, wake_next) refl

  -- Without a waiter a post changes at most the count.
  post-idle :
      (s : ℕ) (k : Kernel M)
      → (k.lists.list (k.semaphore s).block_list).members ≡ []
      → ((post s k).1.lists ≡ k.lists)
        × ((post s k).1.thread ≡ k.thread)
        × ((j : ℕ) → ((post s k).1.semaphore j).block_list ≡ (k.semaphore j).block_list)
  unfolding post
  post-idle s k e =
      let idle : nonempty (k.lists.list (k.semaphore s).block_list).members ≡ false =
        ap (λ xs. nonempty xs) e in
      elim (Bool-cases (ltb (k.semaphore s).value (k.semaphore s).max_value)) [
        | inl room ↦ rw (idle, room) (refl, refl, λ j. ground arith)
        | inr full ↦ rw (idle, full) (refl, refl, λ j. refl)
      ]

  nobody_left :
      (l : ListId) (xs : List ThreadId) (k : Kernel M)
      → length xs ≡ 0
      → Queue l xs k
      → AllWoken l xs k k
  nobody_left l [] k h q = record {
    emptied = q.members;
    woken = λ t h. absurd (ground (arith, h));
    kept = λ t h. refl;
  }
  nobody_left l (t ∷ ts) k h q = absurd (omega (arith, h))

  module _ (others : Kernel M → Kernel M) (i l : ℕ) where
    -- A system with a condition variable whose semaphore blocks on the list `l`, where `xs` wait.
    pub record IsWaitedFor (xs : List ThreadId) (k : Kernel M) : Type 0 where
      pub counted : length xs ≤ (k.condvar i).waiters
      pub blocks : (k.semaphore (k.condvar i).semaphore).block_list ≡ l
      pub waiting : Queue l xs k

    abbrev one_less : Kernel M → Kernel M
    one_less k = put_waiters i ((k.condvar i).waiters - 1) k

    abbrev round : Kernel M → Kernel M
    round k = (post (k.condvar i).semaphore (one_less k)).1

    round-condvar :
        (k : Kernel M)
        → (round k).condvar i ≡ record (k.condvar i) { waiters = (k.condvar i).waiters - 1 }
    round-condvar k =
        post-view (λ o. o.condvar i) (λ o ls th sem. refl) (k.condvar i).semaphore (one_less k)
        ∙ update-own k.condvar i _

    -- A round without a waiter, and one that wakes the first.
    round-idle :
        (k : Kernel M) → IsWaitedFor [] k → IsWaitedFor [] (round k) × ((round k).thread ≡ k.thread)
    round-idle k r =
        let s = (k.condvar i).semaphore in
        let e = ap (λ j. (k.lists.list j).members) r.blocks ∙ r.waiting.members in
        let (lists, thread, blocks) = post-idle s (one_less k) e in
        (
          record {
            counted = omega arith;
            blocks =
                ap (λ c. ((round k).semaphore c.semaphore).block_list) (round-condvar k)
                ∙ blocks s
                ∙ r.blocks;
            waiting = Queue-thread l [] k (round k) lists thread r.waiting;
          },
          thread,
        )

    round-wakes :
        (k : Kernel M) (t : ThreadId) (ts : List ThreadId)
        → IsWaitedFor (t ∷ ts) k
        → IsWaitedFor ts (round k)
          × ((k' : Kernel M) → AllWoken l ts (round k) k' → AllWoken l (t ∷ ts) k k')
    round-wakes k t ts r =
        let s = (k.condvar i).semaphore in
        let k₀ = one_less k in
        let e = ap (λ j. (k.lists.list j).members) r.blocks ∙ r.waiting.members in
        let woken = post-wakes s k₀ t ts e in
        let q₀ : Queue l (t ∷ ts) k₀ = Queue-thread l (t ∷ ts) k k₀ refl refl r.waiting in
        let thread : (round k).thread ≡ (unblock t k₀).thread = ap (λ o. o.thread) woken in
        let less : ((round k).condvar i).waiters ≡ (k.condvar i).waiters - 1 =
          ap (λ c. c.waiters) (round-condvar k) in
        let counted = r.counted in
        (
          record {
            counted = omega (arith, counted, less);
            blocks =
                ap (λ c. ((round k).semaphore c.semaphore).block_list) (round-condvar k)
                ∙ ap (λ o. (o.semaphore s).block_list) woken
                ∙ ap (λ f. (f s).block_list) (unblock-semaphore t k₀)
                ∙ r.blocks;
            waiting =
                Queue-thread l ts (unblock t k₀) (round k) (ap (λ o. o.lists) woken) thread
                  (unblock-Queue l t ts k₀ q₀);
          },
          λ k' w. AllWoken-thread l (t ∷ ts) k k₀ k' refl (
              AllWoken-cons l t ts k₀ k' q₀
                (AllWoken-thread l ts (unblock t k₀) (round k) k' thread w)),
        )

    post_all-round :
        (fuel : ℕ) (k : Kernel M)
        → ((k.condvar i).waiters == 0) ≡ false
        → post_all others (suc fuel) i k ≡ post_all others fuel i (round k)
    unfolding post_all
    post_all-round fuel k more = if_false _ _ more

    post_all-done :
        (fuel : ℕ) (k : Kernel M) → (k.condvar i).waiters ≡ 0 → post_all others fuel i k ≡ k
    unfolding post_all
    post_all-done zero k h = refl
    post_all-done (suc fuel) k h =
        let over : ((k.condvar i).waiters == 0) ≡ true = ground (arith, h) in if_true _ _ over

    abbrev pub Broadcasted : List ThreadId → Kernel M → Kernel M → Type 0
    Broadcasted xs k k' = AllWoken l xs k k' × ((k'.condvar i).waiters ≡ 0)

    finished :
        (fuel : ℕ) (xs : List ThreadId) (k : Kernel M)
        → IsWaitedFor xs k
        → (k.condvar i).waiters ≡ 0
        → Broadcasted xs k (post_all others fuel i k)
    finished fuel xs k r h =
        let counted = r.counted in
        subst (Broadcasted xs k) (sym (post_all-done fuel k h))
          (nobody_left l xs k (omega (arith, counted, h)) r.waiting, h)

    -- With as much fuel as waiters are counted, and at least as many counted as there are threads on
    -- the block list of the semaphore, the loop of a broadcast ends with no waiter counted and an
    -- empty block list: every thread of it is ready, and every other thread is as it was. Each
    -- thread is listed once, knows the list, and its ready list is another one.
    pub post_all-Broadcasted :
        (fuel : ℕ) (xs : List ThreadId) (k : Kernel M)
        → IsWaitedFor xs k
        → (k.condvar i).waiters ≤ fuel
        → Broadcasted xs k (post_all others fuel i k)
    post_all-Broadcasted zero xs k r enough = finished zero xs k r (omega arith)
    post_all-Broadcasted (suc fuel) xs k r enough = elim (Bool-cases ((k.condvar i).waiters == 0)) [
      | inl over ↦ finished (suc fuel) xs k r (ground (arith, over))
      | inr more ↦
          let less : ((round k).condvar i).waiters ≡ (k.condvar i).waiters - 1 =
            ap (λ c. c.waiters) (round-condvar k) in
          subst (Broadcasted xs k) (sym (post_all-round fuel k more)) (
            woken_by xs k r
              (λ ys r'. post_all-Broadcasted fuel ys (round k) r' (omega (arith, less, enough))))
    ]
      where
        woken_by :
            (xs : List ThreadId) (k : Kernel M)
            → IsWaitedFor xs k
            → ((ys : List ThreadId)
                → IsWaitedFor ys (round k)
                → Broadcasted ys (round k) (post_all others fuel i (round k)))
            → Broadcasted xs k (post_all others fuel i (round k))
        woken_by [] k r rest =
            let (r', thread) = round-idle k r in
            let (w, none_left) = rest [] r' in
            (AllWoken-thread l [] k (round k) _ thread w, none_left)
        woken_by (t ∷ ts) k r rest =
            let (r', back) = round-wakes k t ts r in
            let (w, none_left) = rest ts r' in (back _ w, none_left)
