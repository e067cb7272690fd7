-- ===== src/Kernel/Mutex/Waiting.antt =====
-- A claim of a mutex that another thread holds (src/mutex.cpp) blocks the running thread.
use mark.Prelude.{
  ℕ, ◌≡◌, ◌≢◌, refl, sym, subst, ◌∙◌, ap, Bool, true, false, ◌&&◌, inl, inr, Option, none, some,
  List, [], ◌∷◌, leb, opt_eq, Bool-cases, arith,
}
use mark.PrioMap.Interface.{PriorityMap}
use mark.ThreadList.Ring.{contains}
use mark.ThreadList.{ThreadId, ListId}
use mark.ThreadList.Consistent.{ready_list}
use mark.Kernel.State.{Kernel, put_mutex}
use mark.Kernel.Scheduler.{yield, set_scheduler}
use mark.Kernel.Blocking.{block_priority}
use mark.Kernel.Blocking.Moves.{Waits, block_priority-Waits}
use mark.Kernel.Priority.{inherit_priority}
use mark.Kernel.Quiet.{objects, objects-yield, objects-set_scheduler}
use mark.Prelude.{if_true, if_false}
use mark.Kernel.Mutex.{claim, claim_i, wait_for, inherit, inherit_all, inherit_owner}

module _ {M : Type 0} where
  -- What inheritance does not change.
  record Inherits (k k' : Kernel M) : Type 0 where
    lists : k'.lists ≡ k.lists
    state : (t : ThreadId) → (k'.thread t).state ≡ (k.thread t).state
    current : (t : ThreadId) → (k'.thread t).current ≡ (k.thread t).current
    owner : (i : ℕ) → (k'.mutex i).owner ≡ (k.mutex i).owner
    is_ready : (i : ℕ) → (k'.mutex i).is_ready ≡ (k.mutex i).is_ready

  Inherits-refl : (k : Kernel M) → Inherits k k
  Inherits-refl k = record {
    lists = refl;
    state = λ t. refl;
    current = λ t. refl;
    owner = λ i. refl;
    is_ready = λ i. refl;
  }

  Inherits-trans : (k k' k'' : Kernel M) → Inherits k k' → Inherits k' k'' → Inherits k k''
  Inherits-trans k k' k'' p q = record {
    lists = q.lists ∙ p.lists;
    state = λ t. q.state t ∙ p.state t;
    current = λ t. q.current t ∙ p.current t;
    owner = λ i. q.owner i ∙ p.owner i;
    is_ready = λ i. q.is_ready i ∙ p.is_ready i;
  }

  one-Inherits : (t : ThreadId) (prio : ℕ) (k : Kernel M) → Inherits k (inherit_priority t prio k)
  unfolding inherit_priority
  one-Inherits t prio k = record {
    lists = refl;
    state = λ u. ground arith;
    current = λ u. ground arith;
    owner = λ i. refl;
    is_ready = λ i. refl;
  }

  all-Inherits : (ts : List ThreadId) (prio : ℕ) (k : Kernel M) → Inherits k (inherit_all ts prio k)
  unfolding inherit_all
  all-Inherits [] prio k = Inherits-refl k
  all-Inherits (t ∷ ts) prio k =
      Inherits-trans k (inherit_priority t prio k) _ (one-Inherits t prio k)
        (all-Inherits ts prio (inherit_priority t prio k))

  owner-Inherits :
      (o : Option ThreadId) (prio : ℕ) (k : Kernel M) → Inherits k (inherit_owner o prio k)
  owner-Inherits none prio k = record {
    lists = refl;
    state = λ t. refl;
    current = λ t. refl;
    owner = λ i. refl;
    is_ready = λ i. refl;
  }
  owner-Inherits (some t) prio k = one-Inherits t prio k

  raised-Inherits :
      (i prio : ℕ) (k : Kernel M)
      → Inherits k (put_mutex i (record (k.mutex i) { max_pri = prio }) k)
  raised-Inherits i prio k = record {
    lists = refl;
    state = λ t. refl;
    current = λ t. refl;
    owner = λ j. ground arith;
    is_ready = λ j. ground arith;
  }

  inherit-Inherits : (i : ℕ) (k : Kernel M) → Inherits k (inherit i k)
  unfolding inherit
  inherit-Inherits i k =
      let prio = (k.thread k.current).priority in
      let k₁ = put_mutex i (record (k.mutex i) { max_pri = prio }) k in
      let ts = (k.lists.list (k.mutex i).block_list).members in
      elim (Bool-cases (leb (k.mutex i).max_pri prio)) [
        | inl raises ↦ subst (Inherits k) (sym (if_true _ _ raises)) (
            Inherits-trans k k₁ _ (raised-Inherits i prio k) (
              Inherits-trans k₁ (inherit_all ts prio k₁) _ (all-Inherits ts prio k₁)
                (owner-Inherits (k.mutex i).owner prio (inherit_all ts prio k₁))))
        | inr keeps ↦ subst (Inherits k) (sym (if_false _ _ keeps)) (Inherits-refl k)
      ]

module _ {M : Type 0} ⦃pm : PriorityMap M⦄ where
  Inherits-Waits :
      (t : ThreadId) (l : ListId) (k k' k'' : Kernel M)
      → Inherits k' k''
      → Waits t l (objects k) (objects k')
      → Waits t l (objects k) (objects k'')
  Inherits-Waits t l k k' k'' p w = record {
    enlisted = ap (λ s. contains (s.list l).members t) p.lists ∙ w.enlisted;
    is_blocked = p.state t ∙ w.is_blocked;
    located = p.current t ∙ w.located;
    dequeued = ap (λ s. (s.list (ready_list (k.thread t).priority)).members) p.lists ∙ w.dequeued;
  }

  blocked-mutex :
      (l : ListId) (t : ThreadId) (k : Kernel M) → (block_priority l t k).mutex ≡ k.mutex
  unfolding block_priority
  blocked-mutex l t k = refl

  -- A claim without a timeout of a mutex that is held, and that the running thread does not own
  -- recursively, gives the system up in a state in which the thread is blocked on the mutex's block
  -- list and off its ready list, and the mutex has the owner that it had.
  pub claim-Waits :
      (others : Kernel M → Kernel M) (i : ℕ) (k : Kernel M)
      → (k.mutex i).is_ready ≡ false
      → ((k.mutex i).recursive && opt_eq (some k.current) (k.mutex i).owner) ≡ false
      → (k.mutex i).block_list ≢ ready_list (k.thread k.current).priority
      → (k' : Kernel M) × (claim others i k ≡ others k')
        × Waits k.current (k.mutex i).block_list (objects k) (objects k')
        × ((k'.mutex i).owner ≡ (k.mutex i).owner)
        × ((k'.mutex i).is_ready ≡ false)
  unfolding claim claim_i wait_for set_scheduler
  claim-Waits others i k held foreign apart =
      let k₁ = (set_scheduler false k).1 in
      let k₂ = block_priority (k.mutex i).block_list k.current k₁ in
      let k₃ = inherit i k₂ in
      let k' = yield (set_scheduler true k₃).1 in
      let e : objects k' ≡ objects k₃ =
        objects-yield (set_scheduler true k₃).1 ∙ objects-set_scheduler true k₃ in
      let p = inherit-Inherits i k₂ in
      let w = block_priority-Waits k.current (k.mutex i).block_list k₁ apart in
      let same = blocked-mutex (k.mutex i).block_list k.current k₁ in
      (
        k',
        ap (λ (r : Bool × Kernel M). r.1) (if_false _ _ held ∙ if_false _ _ foreign),
        subst (Waits k.current (k.mutex i).block_list (objects k)) (sym e)
            (Inherits-Waits k.current (k.mutex i).block_list k k₂ k₃ p w),
        ap (λ o. (o.mutex i).owner) e ∙ p.owner i ∙ ap (λ f. (f i).owner) same,
        ap (λ o. (o.mutex i).is_ready) e ∙ p.is_ready i ∙ ap (λ f. (f i).is_ready) same ∙ held,
      )
