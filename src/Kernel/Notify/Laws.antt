-- ===== src/Kernel/Notify/Laws.antt =====
-- `Notify::Signal` (src/notify.cpp) wakes every thread that waits.
use mark.Prelude.{
  ℕ, zero, suc, ◌≤◌, ◌≡◌, ◌≢◌, refl, sym, subst, ◌∙◌, ap, Bool, true, false, ◌||◌, inl, inr, some,
  List, [], ◌∷◌, arith, leb, Bool-cases, Option-cases, ==_self, length,
}
use mark.PrioMap.Interface.{PriorityMap}
use mark.ThreadList.Ring.{nonempty, remove_node, contains}
use mark.ThreadList.{ThreadId, ListId}
use mark.ThreadList.Consistent.{ready_list}
use mark.Kernel.State.{Kernel, ready}
use mark.Kernel.Blocking.{unblock}
use mark.Kernel.Blocking.Moves.{distinct, not_again, unblock-other, unblock-Woken, objects-yield_if}
use mark.Kernel.Quiet.{objects}
use mark.Prelude.{if_true, update-own}
use mark.Kernel.Notify.{wake_all, signal, set_pending}

module _ {M : Type 0} ⦃pm : PriorityMap M⦄ where
  unblock-notify : (t : ThreadId) (k : Kernel M) → (unblock t k).notify ≡ k.notify
  unfolding unblock
  unblock-notify t k = elim (Option-cases (k.thread t).current) [
    | inl e ↦ rw (e, unblock) refl
    | inr (l, e) ↦ rw (e, unblock) refl
  ]

  -- The threads of a block list: each once, and each knows the list.
  pub record Queue (l : ListId) (xs : List ThreadId) (k : Kernel M) : Type 0 where
    pub members : (k.lists.list l).members ≡ xs
    pub once : distinct xs ≡ true
    pub at_home : (t : ThreadId) → contains xs t ≡ true → (k.thread t).current ≡ some l
    pub away : (t : ThreadId) → contains xs t ≡ true → l ≢ ready_list (k.thread t).priority

  pub record AllWoken (l : ListId) (xs : List ThreadId) (k k' : Kernel M) : Type 0 where
    pub emptied : (k'.lists.list l).members ≡ []
    pub woken : (t : ThreadId) → contains xs t ≡ true → (k'.thread t).state ≡ ready
    pub kept : (t : ThreadId) → contains xs t ≡ false → k'.thread t ≡ k.thread t

  pub unblock-Queue :
      (l : ListId) (t : ThreadId) (ts : List ThreadId) (k : Kernel M)
      → Queue l (t ∷ ts) k
      → Queue l ts (unblock t k)
  unblock-Queue l t ts k q = record {
    members =
        (unblock-Woken t l k (q.at_home t (rw (==_self t) refl))
          (q.away t (rw (==_self t) refl))).left
        ∙ ap (λ xs. remove_node xs t) q.members
        ∙ if_true _ _ (==_self t);
    once = ground (arith, q.once);
    at_home = λ u h.
        ap (λ th. th.current) (unblock-other t u k (not_again ts u t h q.once))
        ∙ q.at_home u (ground (arith, h));
    away = λ u h.
        subst (λ th. l ≢ ready_list th.priority)
          (sym (unblock-other t u k (not_again ts u t h q.once))) (q.away u (ground (arith, h)));
  }

  pub AllWoken-cons :
      (l : ListId) (t : ThreadId) (ts : List ThreadId) (k k' : Kernel M)
      → Queue l (t ∷ ts) k
      → AllWoken l ts (unblock t k) k'
      → AllWoken l (t ∷ ts) k k'
  AllWoken-cons l t ts k k' q rest = record {
    emptied = rest.emptied;
    woken = λ u h. elim (Bool-cases (contains ts u)) [
      | inl later ↦ rest.woken u later
      | inr first ↦
          let same : u ≡ t = ground (arith, h, first) in
          ap (λ th. th.state) (rest.kept u first)
          ∙ ap (λ v. ((unblock t k).thread v).state) same
          ∙ (unblock-Woken t l k (q.at_home t (rw (==_self t) refl))
              (q.away t (rw (==_self t) refl))).is_ready
    ];
    kept = λ u h.
        rest.kept u (ground (arith, h))
        ∙ unblock-other t u k (λ same. absurd (ground (arith, h, same)));
  }

  wake_all-step :
      (fuel i : ℕ) (b : Bool) (k : Kernel M) (t : ThreadId) (ts : List ThreadId)
      → (k.lists.list (k.notify i).block_list).members ≡ t ∷ ts
      → wake_all (suc fuel) i b k
        ≡ wake_all fuel i
            (b
              || leb
                  ((unblock t k).thread (unblock t k).current).cur_priority
                  ((unblock t k).thread t).cur_priority)
            (unblock t k)
  unfolding wake_all
  wake_all-step fuel i b k t ts e = rw (e, wake_all) refl

  wake_all-idle :
      (fuel i : ℕ) (b : Bool) (k : Kernel M)
      → (k.lists.list (k.notify i).block_list).members ≡ []
      → wake_all fuel i b k ≡ (b, k)
  unfolding wake_all
  wake_all-idle zero i b k e = refl
  wake_all-idle (suc fuel) i b k e = rw (e, wake_all) refl

  wake_all-AllWoken :
      (xs : List ThreadId) (fuel i l : ℕ) (b : Bool) (k : Kernel M)
      → (k.notify i).block_list ≡ l
      → length xs ≤ fuel
      → Queue l xs k
      → AllWoken l xs k (wake_all fuel i b k).1
  wake_all-AllWoken [] fuel i l b k here enough q =
      subst (AllWoken l [] k)
        (sym (
          ap (λ (r : Bool × Kernel M). r.1)
            (wake_all-idle fuel i b k (ap (λ j. (k.lists.list j).members) here ∙ q.members))))
        (record {
          emptied = q.members;
          woken = λ t h. absurd (ground (arith, h));
          kept = λ t h. refl;
        })
  wake_all-AllWoken (t ∷ ts) zero i l b k here enough q = absurd (omega arith)
  wake_all-AllWoken (t ∷ ts) (suc fuel) i l b k here enough q =
      let k₁ = unblock t k in
      let q₁ = unblock-Queue l t ts k q in
      let b₁ = b || leb (k₁.thread k₁.current).cur_priority (k₁.thread t).cur_priority in
      let rest =
        wake_all-AllWoken ts fuel i l b₁ k₁ (ap (λ f. (f i).block_list) (unblock-notify t k) ∙ here)
          (omega arith) q₁ in
      subst (AllWoken l (t ∷ ts) k)
        (sym (
          ap (λ (r : Bool × Kernel M). r.1)
            (wake_all-step fuel i b k t ts (ap (λ j. (k.lists.list j).members) here ∙ q.members))))
        (AllWoken-cons l t ts k (wake_all fuel i b₁ k₁).1 q rest)

  -- With as much fuel as there are waiters, `signal` empties the block list: every thread of it is
  -- ready, not only the one of the highest priority, every other thread is as it was, and the
  -- notification is not pending. Each waiter is listed once, knows the list, and its ready list is
  -- another one.
  pub signal-AllWoken :
      (t : ThreadId) (ts : List ThreadId) (fuel i l : ℕ) (k : Kernel M)
      → (k.notify i).block_list ≡ l
      → length (t ∷ ts) ≤ fuel
      → Queue l (t ∷ ts) k
      → AllWoken l (t ∷ ts) k (signal fuel i k) × (((signal fuel i k).notify i).pending ≡ false)
  unfolding signal
  signal-AllWoken t ts fuel i l k here enough q =
      let r = wake_all fuel i false k in
      let k₁ = set_pending i false r.1 in
      let w = wake_all-AllWoken (t ∷ ts) fuel i l false k here enough q in
      let some_wait : nonempty (k.lists.list (k.notify i).block_list).members ≡ true =
        ap (λ j. nonempty (k.lists.list j).members) here ∙ ap (λ xs. nonempty xs) q.members in
      let e : objects (signal fuel i k) ≡ objects k₁ =
        ap objects (if_true _ _ some_wait) ∙ objects-yield_if r.0 k₁ in
      (
        record {
          emptied = ap (λ o. (o.lists.list l).members) e ∙ w.emptied;
          woken = λ u h. ap (λ o. (o.thread u).state) e ∙ w.woken u h;
          kept = λ u h. ap (λ o. o.thread u) e ∙ w.kept u h;
        },
        ap (λ o. (o.notify i).pending) e
            ∙ ap (λ v. v.pending)
                (update-own r.1.notify i (record (r.1.notify i) { pending = false })),
      )
