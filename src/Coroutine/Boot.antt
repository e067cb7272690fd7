-- ===== src/Coroutine/Boot.antt =====
-- `CoScheduler::Init` of src/cosched.cpp at start-up, when its statics are zero.
use mark.Prelude.{
  ℕ, zero, suc, ◌<◌, ◌≡◌, refl, sym, subst, ap, ◌∙◌, Bool, true, false, [], arith, update,
}
use mark.PrioMap.Interface.{PriorityMap}
use mark.ThreadList.Ring.{contains, nonempty}
use mark.LinkedList.Chains.{Distinct}
use mark.Coroutine.{Coroutine, CoList, CoScheduler, stop_list, init_lists, init_scheduler}
use mark.Coroutine.Sound.{IsSound}

abbrev blank : CoList
blank = record { members = []; mapped = false; priority = 0 }

-- The statics as the program starts; the coroutines have any contents.
abbrev pub at_start : {M : Type 0} → PriorityMap M → (ℕ → Coroutine) → CoScheduler M
at_start pm coroutine = record {
  list = λ l. blank;
  map = pm.empty;
  coroutine = coroutine;
  panicked = false;
  faulted = false;
}

module _ {M : Type 0} (pm : PriorityMap M) (s : CoScheduler M) where
  init_lists-rest :
      (n : ℕ)
      → ((init_lists ⦃pm = pm⦄ n s).map ≡ s.map)
        × ((l : ℕ) → ((init_lists ⦃pm = pm⦄ n s).list l).members ≡ (s.list l).members)
        × ((init_lists ⦃pm = pm⦄ n s).list stop_list ≡ s.list stop_list)
        × ((init_lists ⦃pm = pm⦄ n s).faulted ≡ s.faulted)
  unfolding init_lists
  init_lists-rest zero = (refl, λ l. refl, refl, refl)
  init_lists-rest (suc p) =
      let (map, members, stopped, safe) = init_lists-rest p in
      (map, λ l. ground (arith, members l), ground (arith, stopped), safe)

  -- The lists of the first `n` priorities are wired.
  init_lists-wired :
      (n p : ℕ)
      → p < n
      → (((init_lists ⦃pm = pm⦄ n s).list (suc p)).mapped ≡ true)
        × (((init_lists ⦃pm = pm⦄ n s).list (suc p)).priority ≡ p)
  unfolding init_lists
  init_lists-wired zero p h = absurd (ground (arith, h))
  init_lists-wired (suc n) p h = ground (arith, init_lists-wired n p, h)

-- No coroutine is initialised yet.
abbrev pub nobody : ℕ → Bool
nobody c = true

module _ {M : Type 0} (pm : PriorityMap M) (coroutine : ℕ → Coroutine) where
  abbrev emptied : CoScheduler M
  emptied = record (at_start pm coroutine) {
    list = update (at_start pm coroutine).list stop_list blank;
  }

  abbrev booted : CoScheduler M
  booted = init_scheduler ⦃pm = pm⦄ (at_start pm coroutine)

  booted_empty : (l : ℕ) → (booted.list l).members ≡ []
  unfolding init_scheduler
  booted_empty l = (init_lists-rest pm emptied pm.capacity).1 l ∙ ground arith

  booted_map : booted.map ≡ pm.empty
  unfolding init_scheduler
  booted_map = (init_lists-rest pm emptied pm.capacity).0

  booted_unmapped : (booted.list stop_list).mapped ≡ false
  unfolding init_scheduler
  booted_unmapped = ap (λ (q : CoList). q.mapped) (init_lists-rest pm emptied pm.capacity).2

  booted_wired :
      (p : ℕ)
      → p < pm.capacity
      → ((booted.list (suc p)).mapped ≡ true) × ((booted.list (suc p)).priority ≡ p)
  unfolding init_scheduler
  booted_wired p h = init_lists-wired pm emptied pm.capacity p h

  nothing_held : (l c : ℕ) → contains (booted.list l).members c ≡ false
  nothing_held l c = ap (λ xs. contains xs c) (booted_empty l)

  booted_safe : booted.faulted ≡ false
  unfolding init_scheduler
  booted_safe = (init_lists-rest pm emptied pm.capacity).3

  pub init_scheduler-IsSound : IsSound pm nobody booted
  init_scheduler-IsSound = record {
    mapped = record {
      map_ok = subst pm.IsConsistent (sym booted_map) pm.empty-IsConsistent;
      wired = booted_wired;
      stop_unmapped = booted_unmapped;
      agrees = λ p h.
          ap (λ m. pm.member m p) booted_map
          ∙ pm.member-empty p
          ∙ sym (ap nonempty (booted_empty (suc p)));
    };
    placed = record {
      once = λ l. subst Distinct (sym (booted_empty l)) tt;
      placed = λ l c h. absurd (ground (arith, h, nothing_held l c));
      owned = λ c h. absurd (ground (arith, h));
    };
    safe = booted_safe;
  }
