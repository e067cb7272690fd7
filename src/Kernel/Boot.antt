-- ===== src/Kernel/Boot.antt =====
-- `Scheduler::Init` (src/scheduler.cpp) on the lists of a system that has just started.
use mark.Prelude.{
  false, ℕ, zero, suc, ◌+◌, ◌≤◌, ◌<◌, ◌≡◌, refl, ◌∙◌, ap, true, inl, inr, arith, ◌==◌, ◌⊎◌, [],
  Bool-cases,
}
use mark.PrioMap.Interface.{PriorityMap}
use mark.ThreadList.{ListId, ListStore, empty_thread_list, set_priority, set_map_pointer}
use mark.ThreadList.Consistent.{IsConsistent, ready_list}
use mark.Kernel.Scheduler.{init, init_lists}

module _ {M : Type 0} ⦃pm : PriorityMap M⦄ where
  -- The lists and the map as their constructors leave them.
  abbrev pub fresh_lists : ListStore M
  fresh_lists = record {
    list = λ l. empty_thread_list;
    map = pm.empty;
    tracked = [];
    misused = false;
  }

  init_lists-map : (n p : ℕ) (s : ListStore M) → (init_lists n p s).map ≡ s.map
  unfolding init_lists
  init_lists-map zero p s = refl
  init_lists-map (suc n) p s = init_lists-map n (p + 1) _

  init_lists-members :
      (n p : ℕ) (s : ListStore M) (l : ListId)
      → (s.list l).members ≡ []
      → ((init_lists n p s).list l).members ≡ []
  unfolding init_lists
  init_lists-members zero p s l e = e
  init_lists-members (suc n) p s l e = init_lists-members n (p + 1) _ l (ground arith)

  -- The loop leaves the lists of the other priorities alone.
  init_lists-other :
      (n p : ℕ) (s : ListStore M) (l : ListId)
      → (l ≤ p) ⊎ (p + n < l)
      → (init_lists n p s).list l ≡ s.list l
  unfolding init_lists
  init_lists-other zero p s l o = refl
  init_lists-other (suc n) p s l o =
      let s' = set_map_pointer (ready_list p) (set_priority (ready_list p) p s) in
      init_lists-other n (p + 1) s' l (ground arith) ∙ ground arith

  init_lists-own :
      (n p : ℕ) (s : ListStore M) (q : ℕ)
      → p ≤ q
      → q < p + n
      → (init_lists n p s).list (ready_list q)
        ≡ record (s.list (ready_list q)) { priority = q; mapped = true }
  unfolding init_lists
  init_lists-own zero p s q low high = ground arith
  init_lists-own (suc n) p s q low high =
      let s' = set_map_pointer (ready_list p) (set_priority (ready_list p) p s) in
      elim (Bool-cases (q == p)) [
        | inl here ↦
            init_lists-other n (p + 1) s' (ready_list q) (inl (ground arith)) ∙ ground arith
        | inr later ↦ init_lists-own n (p + 1) s' q (ground arith) (ground arith) ∙ ground arith
      ]

  -- The loop of `Scheduler::Init` leaves the lists of a system that has just started with every
  -- ready list wired to the map at its own priority, and the map and the lists in agreement.
  pub init-IsConsistent : (num : ℕ) → num ≤ pm.capacity → IsConsistent num (init num fresh_lists)
  unfolding init
  init-IsConsistent num fits = record {
    map_ok = rw (init_lists-map num 0 fresh_lists) pm.empty-IsConsistent;
    wired = λ p below.
        ap (λ l. l.mapped) (init_lists-own num 0 fresh_lists p (ground arith) (ground arith));
    level = λ p below.
        ap (λ l. l.priority) (init_lists-own num 0 fresh_lists p (ground arith) (ground arith));
    plain = λ l o. ap (λ l. l.mapped) (init_lists-other num 0 fresh_lists l (ground arith));
    agrees = λ p below.
        rw
          (
            init_lists-map num 0 fresh_lists,
            init_lists-members num 0 fresh_lists (ready_list p) refl,
          )
          (pm.member-empty p);
    beyond = λ p above less. rw (init_lists-map num 0 fresh_lists) (pm.member-empty p);
  }
