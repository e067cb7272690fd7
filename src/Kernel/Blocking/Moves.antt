-- ===== src/Kernel/Blocking/Moves.antt =====
-- Where `Block` and `UnBlock` of src/blocking.cpp take a thread.
use mark.Prelude.{
  ℕ, ◌≡◌, ◌≢◌, refl, sym, ◌∙◌, ap, Bool, true, false, not, ◌&&◌, inl, inr, some, List, [], ◌∷◌,
  arith, if◌then◌else◌, ==_self, subst, Option-cases,
}
use mark.PrioMap.Interface.{PriorityMap}
use mark.ThreadList.Ring.{push_back, pivot_forward, remove_node, contains}
use mark.ThreadList.{ThreadId, ListId, remove}
use mark.ThreadList.Consistent.{ready_list}
use mark.Kernel.State.{Kernel, ready, blocked}
use mark.ThreadList.Effects.{
  add-own, add-other, not-same, remove-own, remove-other, add_priority-own, add_priority-other,
  contains-pivot, contains-push_back,
}
use mark.Kernel.Scheduler.{yield}
use mark.Kernel.Quiet.{Objects, objects, objects-yield}
use mark.Kernel.Blocking.{block, block_priority, unblock}

abbrev pub distinct : List ℕ → Bool
distinct [] = true
distinct (x ∷ xs) = not (contains xs x) && distinct xs

pub not_again :
    (ts : List ℕ) (u t : ℕ)
    → contains ts u ≡ true
    → (not (contains ts t) && distinct ts) ≡ true
    → u ≢ t
not_again ts u t h once same =
    absurd (ground (arith, once, subst (λ v. contains ts v ≡ true) same h))

module _ {M : Type 0} (t : ThreadId) (l : ListId) (o : Objects M) where
  -- The thread went from list `l` to its ready list.
  pub record Woken (o' : Objects M) : Type 0 where
    pub left : (o'.lists.list l).members ≡ remove_node (o.lists.list l).members t
    pub is_ready : (o'.thread t).state ≡ ready
    pub queued :
        (o'.lists.list (ready_list (o.thread t).priority)).members
        ≡ pivot_forward (push_back (o.lists.list (ready_list (o.thread t).priority)).members t)
    pub found : contains (o'.lists.list (ready_list (o.thread t).priority)).members t ≡ true

  -- The thread went from its ready list to list `l`.
  pub record Waits (o' : Objects M) : Type 0 where
    pub enlisted : contains (o'.lists.list l).members t ≡ true
    pub is_blocked : (o'.thread t).state ≡ blocked
    pub located : (o'.thread t).current ≡ some l
    pub dequeued :
        (o'.lists.list (ready_list (o.thread t).priority)).members
        ≡ remove_node (o.lists.list (ready_list (o.thread t).priority)).members t

module _ {M : Type 0} ⦃pm : PriorityMap M⦄ (t : ThreadId) (l : ListId) (k : Kernel M) where
  pub unblock-Woken :
      (k.thread t).current ≡ some l
      → l ≢ ready_list (k.thread t).priority
      → Woken t l (objects k) (objects (unblock t k))
  unfolding unblock
  unblock-Woken e apart =
      rw (e, unblock)
        (record {
          left = ap (λ j. j.members) (add-other _ t _ l apart) ∙ remove-own l t k.lists;
          is_ready = rw (==_self t) refl;
          queued =
              add-own _ t (remove l t k.lists)
              ∙ ap (λ j. pivot_forward (push_back j.members t))
                  (remove-other l t k.lists (ready_list (k.thread t).priority)
                    (λ q. apart (sym q)));
          found =
              rw (add-own (ready_list (k.thread t).priority) t (remove l t k.lists))
                (contains-pivot _ t (contains-push_back _ t));
        })

  pub block-Waits :
      l ≢ ready_list (k.thread t).priority → Waits t l (objects k) (objects (block l t k))
  unfolding block
  block-Waits apart = record {
    enlisted = rw (add-own l t _) (contains-pivot _ t (contains-push_back _ t));
    is_blocked = rw (==_self t) refl;
    located = rw (==_self t) refl;
    dequeued =
        ap (λ j. j.members)
          (add-other l t _ (ready_list (k.thread t).priority) (λ q. apart (sym q)))
        ∙ remove-own (ready_list (k.thread t).priority) t k.lists;
  }

  pub block_priority-Waits :
      l ≢ ready_list (k.thread t).priority → Waits t l (objects k) (objects (block_priority l t k))
  unfolding block_priority
  block_priority-Waits apart = record {
    enlisted = add_priority-own l t _ _;
    is_blocked = rw (==_self t) refl;
    located = rw (==_self t) refl;
    dequeued =
        ap (λ j. j.members)
          (add_priority-other l t _ _ (ready_list (k.thread t).priority) (λ q. apart (sym q)))
        ∙ remove-own (ready_list (k.thread t).priority) t k.lists;
  }

module _ {M : Type 0} ⦃pm : PriorityMap M⦄ where
  pub objects-yield_if : (b : Bool) (k : Kernel M) → objects (if b then yield k else k) ≡ objects k
  objects-yield_if true k = objects-yield k
  objects-yield_if false k = refl

  pub unblock-other : (t u : ThreadId) (k : Kernel M) → u ≢ t → (unblock t k).thread u ≡ k.thread u
  unfolding unblock
  unblock-other t u k h = elim (Option-cases (k.thread t).current) [
    | inl e ↦ rw (e, unblock) refl
    | inr (l, e) ↦ rw (e, unblock) (rw (not-same u t h) refl)
  ]
