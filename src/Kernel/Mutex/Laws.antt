-- ===== src/Kernel/Mutex/Laws.antt =====
-- Ownership of a mutex (src/mutex.cpp): a free mutex is taken, a claim of the owner nests, a release
-- hands over to the head of the block list, and a thread that does not own the mutex waits.
use mark.Prelude.{
  ℕ, ◌+◌, ◌-◌, ◌%◌, ◌<◌, ◌≡◌, ◌≢◌, refl, sym, subst, ◌∙◌, ap, Bool, true, false, not, ◌&&◌, inl,
  inr, none, some, List, [], ◌∷◌, arith, ◌==◌, opt_eq, Option-cases, ==_self,
}
use mark.PrioMap.Interface.{PriorityMap}
use mark.ThreadList.Ring.{nonempty}
use mark.ThreadList.{ThreadId}
use mark.ThreadList.Consistent.{ready_list}
use mark.Kernel.State.{Kernel, Mutex, update, put_mutex}
use mark.Kernel.Scheduler.{set_scheduler}
use mark.Kernel.Blocking.{unblock}
use mark.Kernel.Blocking.Moves.{Woken, unblock-Woken, objects-yield_if}
use mark.Kernel.Quiet.{objects, objects-set_scheduler}
use mark.Prelude.{if_true, if_false, update-own, undone}
use mark.Kernel.Mutex.{
  claim, claim_i, release, wake_next, take_mutex, recur_mutex, restore, hand_over,
}

same_mutex :
    (m : Mutex)
    → m.is_ready ≡ true
    → m.recurse ≡ 0
    → m.max_pri ≡ 0
    → m.owner ≡ none
    → record m { is_ready = true; recurse = 0; max_pri = 0; owner = none } ≡ m
same_mutex m free flat unclaimed unowned =
    ap (λ v. record m { is_ready = v; recurse = 0; max_pri = 0; owner = none }) (sym free)
    ∙ ap (λ v. record m { recurse = v; max_pri = 0; owner = none }) (sym flat)
    ∙ ap (λ v. record m { max_pri = v; owner = none }) (sym unclaimed)
    ∙ ap (λ v. record m { owner = v }) (sym unowned)

equal : (a b : ℕ) → a ≡ b → (a == b) ≡ true
equal a b h = ground arith

module _ {M : Type 0} ⦃pm : PriorityMap M⦄ where
  unblock-mutex : (t : ThreadId) (k : Kernel M) → (unblock t k).mutex ≡ k.mutex
  unfolding unblock
  unblock-mutex t k = elim (Option-cases (k.thread t).current) [
    | inl e ↦ rw (e, unblock) refl
    | inr (l, e) ↦ rw (e, unblock) refl
  ]

  woken_by : (i : ℕ) (k : Kernel M) (t : ThreadId) → Kernel M
  woken_by i k t = put_mutex i (record ((unblock t k).mutex i) { owner = some t }) (unblock t k)

  wake_next-head :
      (i : ℕ) (k : Kernel M) (t : ThreadId) (ts : List ThreadId)
      → (k.lists.list (k.mutex i).block_list).members ≡ t ∷ ts
      → (wake_next i k).1 ≡ woken_by i k t
  unfolding wake_next woken_by
  wake_next-head i k t ts e = rw (e, wake_next) refl

  -- The mutexes after a change of the scheduler's flag, and the running thread.
  scheduled-mutex : (b : Bool) (k : Kernel M) → (set_scheduler b k).1.mutex ≡ k.mutex
  scheduled-mutex b k = ap (λ o. o.mutex) (objects-set_scheduler b k)

  -- The claim of a free mutex, and of one that the running thread owns.
  module _ (arm disarm others : Kernel M → Kernel M) (i wait : ℕ) (k : Kernel M) where
    claim_i-free :
        (k.mutex i).is_ready ≡ true
        → claim_i arm disarm others i wait k
          ≡ (true, (set_scheduler true (take_mutex i (set_scheduler false k).1)).1)
    unfolding claim_i set_scheduler
    claim_i-free free = if_true _ _ free

    pub claim_i-nested :
        (k.mutex i).is_ready ≡ false
        → (k.mutex i).recursive ≡ true
        → (k.mutex i).owner ≡ some k.current
        → claim_i arm disarm others i wait k
          ≡ (true, (set_scheduler true (recur_mutex i (set_scheduler false k).1)).1)
    unfolding claim_i set_scheduler
    claim_i-nested held recursive own =
        let owns : ((k.mutex i).recursive && opt_eq (some k.current) (k.mutex i).owner) ≡ true =
          rw (recursive, own, ==_self k.current) refl in
        if_false _ _ held ∙ if_true _ _ owns

  -- A release of a nested claim, and one that gives the mutex up.
  release-nested :
      (i : ℕ) (k : Kernel M)
      → ((k.mutex i).recursive && not ((k.mutex i).recurse == 0)) ≡ true
      → (j : ℕ)
      → (release i k).mutex j
        ≡ update k.mutex i (record (k.mutex i) { recurse = (k.mutex i).recurse - 1 }) j
  unfolding release set_scheduler
  release-nested i k nested j =
      ap (λ (s : Kernel M). s.mutex j) (if_true _ _ nested)
      ∙ ap (λ f. f j)
          (scheduled-mutex true (
            put_mutex i (record (k.mutex i) { recurse = (k.mutex i).recurse - 1 })
              (set_scheduler false k).1))

  -- A release that does not only leave a nested claim hands the mutex over.
  release-hands :
      (i : ℕ) (k : Kernel M)
      → ((k.mutex i).recursive && not ((k.mutex i).recurse == 0)) ≡ false
      → objects (release i k)
        ≡ objects
            (hand_over i
              (restore (set_scheduler false k).1).0
              (restore (set_scheduler false k).1).1).1
  unfolding release
  release-hands i k flat =
      let k₁ = (set_scheduler false k).1 in
      let r = hand_over i (restore k₁).0 (restore k₁).1 in
      let flat' : ((k₁.mutex i).recursive && not ((k₁.mutex i).recurse == 0)) ≡ false =
        ap (λ f. (f i).recursive && not ((f i).recurse == 0)) (scheduled-mutex false k) ∙ flat in
      ap objects (if_false _ _ flat')
      ∙ objects-yield_if r.0 (set_scheduler true r.1).1
      ∙ objects-set_scheduler true r.1

  release-last :
      (i : ℕ) (k : Kernel M)
      → ((k.mutex i).recursive && not ((k.mutex i).recurse == 0)) ≡ false
      → ((k.thread k.current).cur_priority == (k.thread k.current).priority) ≡ true
      → (k.lists.list (k.mutex i).block_list).members ≡ []
      → (j : ℕ)
      → (release i k).mutex j
        ≡ update k.mutex i (record (k.mutex i) { is_ready = true; max_pri = 0; owner = none }) j
  unfolding set_scheduler
  release-last i k flat base idle j =
      let k₁ = (set_scheduler false k).1 in
      let given =
        put_mutex i (record (k.mutex i) { is_ready = true; max_pri = 0; owner = none }) k₁ in
      let kept : restore k₁ ≡ (false, k₁) = if_true _ _ base in
      let handed : hand_over i false k₁ ≡ (false, given) =
        if_false _ _ (ap (λ xs. nonempty xs) idle) in
      ap (λ o. o.mutex j) (release-hands i k flat)
      ∙ ap (λ (r : Bool × Kernel M). (hand_over i r.0 r.1).1.mutex j) kept
      ∙ ap (λ (r : Bool × Kernel M). r.1.mutex j) handed

  -- A claim by the owner of a recursive mutex that is nested less than 255 deep, followed by a
  -- release, gives back every mutex as it was.
  pub release-claim-nested :
      (others : Kernel M → Kernel M) (i : ℕ) (k : Kernel M)
      → (k.mutex i).is_ready ≡ false
      → (k.mutex i).recursive ≡ true
      → (k.mutex i).owner ≡ some k.current
      → (k.mutex i).recurse < 255
      → (j : ℕ) → (release i (claim others i k)).mutex j ≡ k.mutex j
  unfolding claim set_scheduler
  release-claim-nested others i k held recursive own shallow j =
      let k' = claim others i k in
      let m = record (k.mutex i) { recurse = ((k.mutex i).recurse + 1) % 256 } in
      let e : (u : ℕ) → k'.mutex u ≡ update k.mutex i m u = λ u.
        ap (λ r. r.1.mutex u) (claim_i-nested (λ s. s) (λ s. s) others i 0 k held recursive own)
        ∙ ap (λ f. f u) (scheduled-mutex true (recur_mutex i (set_scheduler false k).1)) in
      let at : k'.mutex i ≡ m = e i ∙ update-own k.mutex i m in
      let nested : (m.recursive && not (m.recurse == 0)) ≡ true = ground arith in
      let back : m.recurse - 1 ≡ (k.mutex i).recurse = grind arith in
      release-nested i k' (ap (λ v. v.recursive && not (v.recurse == 0)) at ∙ nested) j
      ∙ undone k.mutex k'.mutex i m (λ v. record v { recurse = v.recurse - 1 }) e
          (ap (λ r. record (k.mutex i) { recurse = r }) back) j

  -- A claim of a free mutex with no waiters, followed by a release, gives back every mutex as it
  -- was, where the thread is at its own priority and no switch is pending.
  pub release-claim :
      (others : Kernel M → Kernel M) (i : ℕ) (k : Kernel M)
      → (k.mutex i).is_ready ≡ true
      → (k.mutex i).recurse ≡ 0
      → (k.mutex i).max_pri ≡ 0
      → (k.mutex i).owner ≡ none
      → k.queued ≡ false
      → (k.thread k.current).cur_priority ≡ (k.thread k.current).priority
      → (k.lists.list (k.mutex i).block_list).members ≡ []
      → (j : ℕ) → (release i (claim others i k)).mutex j ≡ k.mutex j
  unfolding claim set_scheduler
  release-claim others i k free flat unclaimed unowned settled base idle j =
      let k₁ = (set_scheduler false k).1 in
      let k' = record (take_mutex i k₁) { enabled = true } in
      let taken : claim others i k ≡ k' =
        ap (λ (r : Bool × Kernel M). r.1) (claim_i-free (λ s. s) (λ s. s) others i 0 k free)
        ∙ if_false _ _ settled in
      let m = (take_mutex i k₁).mutex i in
      let own = update-own k₁.mutex i _ in
      ap (λ s. (release i s).mutex j) taken
      ∙ release-last i k' (ap (λ v. v.recursive && not (v.recurse == 0)) own ∙ ground arith)
          (equal _ _ base) (ap (λ v. (k.lists.list v.block_list).members) own ∙ idle) j
      ∙ undone k.mutex k'.mutex i _ (λ v. record v { is_ready = true; max_pri = 0; owner = none })
          (λ u. refl) ((same_mutex (k.mutex i) free flat unclaimed unowned)) j

  release-woken_by :
      (i : ℕ) (k : Kernel M) (t : ThreadId) (ts : List ThreadId)
      → ((k.mutex i).recursive && not ((k.mutex i).recurse == 0)) ≡ false
      → (k.thread k.current).cur_priority ≡ (k.thread k.current).priority
      → (k.lists.list (k.mutex i).block_list).members ≡ t ∷ ts
      → objects (release i k) ≡ objects (woken_by i (set_scheduler false k).1 t)
  unfolding set_scheduler
  release-woken_by i k t ts flat base waiting =
      let k₁ = (set_scheduler false k).1 in
      let kept : restore k₁ ≡ (false, k₁) = if_true _ _ (equal _ _ base) in
      let handed : (hand_over i false k₁).1 ≡ (wake_next i k₁).1 =
        ap (λ (r : Bool × Kernel M). r.1) (if_true _ _ (ap (λ xs. nonempty xs) waiting)) in
      release-hands i k flat
      ∙ ap (λ (r : Bool × Kernel M). objects (hand_over i r.0 r.1).1) kept
      ∙ ap objects handed
      ∙ ap objects (wake_next-head i k₁ t ts waiting)

  -- A release of a mutex that is not nested, by a thread at its own priority, with waiters, takes
  -- the head of the block list to its ready list and makes it the owner, and does not make the mutex
  -- ready meanwhile.
  pub release-Woken :
      (i : ℕ) (k : Kernel M) (t : ThreadId) (ts : List ThreadId)
      → ((k.mutex i).recursive && not ((k.mutex i).recurse == 0)) ≡ false
      → (k.thread k.current).cur_priority ≡ (k.thread k.current).priority
      → (k.lists.list (k.mutex i).block_list).members ≡ t ∷ ts
      → (k.thread t).current ≡ some (k.mutex i).block_list
      → (k.mutex i).block_list ≢ ready_list (k.thread t).priority
      → Woken t (k.mutex i).block_list (objects k) (objects (release i k))
        × (((release i k).mutex i).owner ≡ some t)
        × (((release i k).mutex i).is_ready ≡ (k.mutex i).is_ready)
  unfolding set_scheduler woken_by
  release-Woken i k t ts flat base waiting home apart =
      let k₁ = (set_scheduler false k).1 in
      let e = release-woken_by i k t ts flat base waiting in
      let w = unblock-Woken t (k.mutex i).block_list k₁ home apart in
      let own =
        update-own (unblock t k₁).mutex i (record ((unblock t k₁).mutex i) { owner = some t }) in
      (
        subst (Woken t (k.mutex i).block_list (objects k)) (sym e)
            (record { left = w.left; is_ready = w.is_ready; queued = w.queued; found = w.found }),
        ap (λ o. (o.mutex i).owner) e ∙ ap (λ m. m.owner) own,
        ap (λ o. (o.mutex i).is_ready) e
            ∙ ap (λ m. m.is_ready) own
            ∙ ap (λ f. (f i).is_ready) (unblock-mutex t k₁),
      )
