-- ===== src/Kernel/Semaphore/Keeps.antt =====
-- What `Semaphore::Post` (src/ksemaphore.cpp) does not change.
use mark.Prelude.{ℕ, ◌≡◌, refl, ◌∙◌, ap, Bool, inl, inr, ltb, Bool-cases, Option-cases}
use mark.PrioMap.Interface.{PriorityMap}
use mark.ThreadList.Ring.{nonempty}
use mark.ThreadList.{ThreadId, ListStore, highest_waiter}
use mark.Kernel.State.{Kernel, Thread, Semaphore}
use mark.Kernel.Quiet.{Objects, objects}
use mark.Kernel.Blocking.{unblock}
use mark.Kernel.Blocking.Moves.{objects-yield_if}
use mark.Prelude.{if_true, if_false}
use mark.Kernel.Semaphore.{post, wake_next}

-- A view of the objects that does not look at lists, threads and semaphores.
module _ {M A : Type 0} ⦃pm : PriorityMap M⦄ (view : Objects M → A)
    (apart : (o : Objects M) (ls : ListStore M) (th : ThreadId → Thread) (sem : ℕ → Semaphore)
      → view (record o { lists = ls; thread = th; semaphore = sem }) ≡ view o) where
  unblock-view : (t : ThreadId) (k : Kernel M) → view (objects (unblock t k)) ≡ view (objects k)
  unfolding unblock
  unblock-view t k = elim (Option-cases (k.thread t).current) [
    | inl e ↦ rw (e, unblock) refl
    | inr (l, e) ↦ rw (e, unblock) (apart (objects k) _ _ k.semaphore)
  ]

  wake_next-view : (i : ℕ) (k : Kernel M) → view (objects (wake_next i k).1) ≡ view (objects k)
  unfolding wake_next
  wake_next-view i k = elim (Option-cases (highest_waiter (k.semaphore i).block_list k.lists)) [
    | inl e ↦ rw (e, wake_next) refl
    | inr (t, e) ↦ rw (e, wake_next) (unblock-view t k)
  ]

  pub post-view : (i : ℕ) (k : Kernel M) → view (objects (post i k).1) ≡ view (objects k)
  unfolding post
  post-view i k = elim (Bool-cases (nonempty (k.lists.list (k.semaphore i).block_list).members)) [
    | inl waiting ↦
        let r = wake_next i k in
        ap (λ (s : Bool × Kernel M). view (objects s.1)) (if_true _ _ waiting)
        ∙ ap view (objects-yield_if r.0 r.1)
        ∙ wake_next-view i k
    | inr idle ↦ elim (Bool-cases (ltb (k.semaphore i).value (k.semaphore i).max_value)) [
      | inl room ↦
          ap (λ (s : Bool × Kernel M). view (objects s.1)) (if_false _ _ idle ∙ if_true _ _ room)
          ∙ apart (objects k) k.lists k.thread _
      | inr full ↦
          ap (λ (s : Bool × Kernel M). view (objects s.1)) (if_false _ _ idle ∙ if_false _ _ full)
    ]
  ]
