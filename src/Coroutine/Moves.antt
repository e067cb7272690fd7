-- ===== src/Coroutine/Moves.antt =====
-- How a coroutine of src/coroutine.cpp moves from one list to another.
use mark.Prelude.{
  ℕ, zero, suc, ◌<◌, ◌≡◌, sym, subst, ◌∙◌, inl, inr, Bool, true, false, not, ◌&&◌, ◌||◌, some, List,
  arith, update, if_true, if_false, ◌==◌, if◌then◌else◌, Bool-cases,
}
use mark.PrioMap.Interface.{PriorityMap}
use mark.ThreadList.Ring.{contains, nonempty, remove_node}
use mark.LinkedList.Chains.{Distinct}
use mark.Coroutine.{Coroutine, CoList, CoScheduler, stop_list, list_add, list_remove}
use mark.Coroutine.Members.{
  added, contains-added, nonempty-added, nonempty-contains, Distinct-added, contains-remove,
  Distinct-remove,
}
use mark.Coroutine.Sound.{home, IsMapped, IsPlaced}

module _ {M : Type 0} (pm : PriorityMap M) (list : ℕ → CoList) (map : M)
    (r : IsMapped pm list map) where
  -- Other members of the list of a priority, where the map holds the priority if there are any.
  IsMapped-update :
      (p : ℕ) (xs : List ℕ) (map' : M)
      → pm.IsConsistent map'
      → ((q : ℕ)
          → q < pm.capacity
          → pm.member map' q ≡ (if q == p then nonempty xs else pm.member map q))
      → IsMapped pm (update list (suc p) (record (list (suc p)) { members = xs })) map'
  IsMapped-update p xs map' ok member = record {
    map_ok = ok;
    wired = λ q h. ground (arith, r.wired q h);
    stop_unmapped = ground (arith, r.stop_unmapped);
    agrees = λ q h. member q h ∙ ground (arith, r.agrees q h);
  }

  -- The stop list is not wired to the map.
  IsMapped-stop :
      (xs : List ℕ)
      → IsMapped pm (update list stop_list (record (list stop_list) { members = xs })) map
  IsMapped-stop xs = record {
    map_ok = r.map_ok;
    wired = λ q h. ground (arith, r.wired q h);
    stop_unmapped = r.stop_unmapped;
    agrees = λ q h. ground (arith, r.agrees q h);
  }

module _ {M : Type 0} (pm : PriorityMap M) where
  pub list_remove-IsMapped :
      (l c : ℕ) (s : CoScheduler M)
      → IsMapped pm s.list s.map
      → l < suc pm.capacity
      → contains (s.list l).members c ≡ true
      → IsMapped pm (list_remove ⦃pm = pm⦄ l c s).list (list_remove ⦃pm = pm⦄ l c s).map
  unfolding list_remove
  list_remove-IsMapped zero c s r h here =
      let xs = remove_node (s.list 0).members c in
      subst (IsMapped pm (update s.list 0 (record (s.list 0) { members = xs })))
        (sym (if_false _ _ r.stop_unmapped)) (IsMapped-stop pm s.list s.map r xs)
  list_remove-IsMapped (suc p) c s r h here =
      let (wired, at_p) = r.wired p (omega arith) in
      let xs = remove_node (s.list (suc p)).members c in
      let there : nonempty (s.list (suc p)).members ≡ true = nonempty-contains _ c here in
      let list' = update s.list (suc p) (record (s.list (suc p)) { members = xs }) in
      elim (Bool-cases (nonempty xs)) [
        | inl more ↦ subst (IsMapped pm list') (sym (if_true _ _ wired ∙ if_true _ _ more)) (
            IsMapped-update pm s.list s.map r p xs s.map r.map_ok
              (λ q l. ground (arith, there, r.agrees p, more)))
        | inr empty ↦ subst (IsMapped pm list') (sym (if_true _ _ wired ∙ if_false _ _ empty)) (
            IsMapped-update pm s.list s.map r p xs (pm.clear (s.list (suc p)).priority s.map)
              (rw at_p (pm.clear-IsConsistent p s.map (omega arith) r.map_ok))
              (λ q l. rw at_p (pm.member-clear p q s.map (omega arith) l ∙ ground (arith, empty))))
      ]

  pub list_add-IsMapped :
      (l c : ℕ) (s : CoScheduler M)
      → IsMapped pm s.list s.map
      → l < suc pm.capacity
      → IsMapped pm (list_add ⦃pm = pm⦄ l c s).list (list_add ⦃pm = pm⦄ l c s).map
  unfolding list_add
  list_add-IsMapped zero c s r h =
      let xs = added (s.list 0).members c in
      subst (IsMapped pm (update s.list 0 (record (s.list 0) { members = xs })))
        (sym (if_false _ _ r.stop_unmapped)) (IsMapped-stop pm s.list s.map r xs)
  list_add-IsMapped (suc p) c s r h =
      let (wired, at_p) = r.wired p (omega arith) in
      let xs = added (s.list (suc p)).members c in
      let some_member : nonempty xs ≡ true = nonempty-added (s.list (suc p)).members c in
      subst (IsMapped pm (update s.list (suc p) (record (s.list (suc p)) { members = xs })))
        (sym (if_true _ _ wired))
        (IsMapped-update pm s.list s.map r p xs (pm.set (s.list (suc p)).priority s.map)
          (rw at_p (pm.set-IsConsistent p s.map (omega arith) r.map_ok))
          (λ q l. rw at_p (pm.member-set p q s.map (omega arith) l ∙ ground (arith, some_member))))

-- The members of the lists after a coroutine has left one of them, or come to it.
module _ (list : ℕ → CoList) (l c j z : ℕ) where
  contains-left :
      Distinct (list l).members
      → contains
          (update list l (record (list l) { members = remove_node (list l).members c }) j).members
          z
        ≡ (if j == l
            then (not (c == z) && contains (list l).members z)
            else contains (list j).members z)
  contains-left d = ground (arith, contains-remove (list l).members c z d)

  contains-joined :
      contains (update list l (record (list l) { members = added (list l).members c }) j).members z
      ≡ (if j == l then (c == z || contains (list l).members z) else contains (list j).members z)
  contains-joined = ground (arith, contains-added (list l).members c z)

module _ (capacity : ℕ) (absent : ℕ → Bool) (list : ℕ → CoList) (coroutine : ℕ → Coroutine)
    (c l : ℕ) (r : IsPlaced capacity absent list coroutine) where
  -- A coroutine that is taken from its list is on none.
  pub list_remove-IsPlaced :
      absent c ≡ false
      → (coroutine c).owner ≡ some l
      → IsPlaced capacity
          (update absent c true)
          (update list l (record (list l) { members = remove_node (list l).members c }))
          coroutine
  list_remove-IsPlaced present own = record {
    once = λ j. elim (Bool-cases (j == l)) [
      | inl here ↦ rw here (Distinct-remove (list l).members c (r.once l))
      | inr there ↦ rw there (r.once j)
    ];
    placed = λ j z h.
        ground (arith, h, contains-left list l c j z (r.once l), r.placed l z, r.placed j z, own);
    owned = λ z h.
        ground (arith, h, r.owned z, contains-left list l c (home (coroutine z)) z (r.once l));
  }

  -- A coroutine that is on no list is added to its home.
  pub list_add-IsPlaced :
      absent c ≡ true
      → (coroutine c).owner ≡ some l
      → home (coroutine c) ≡ l
      → l < suc capacity
      → IsPlaced capacity
          (update absent c false)
          (update list l (record (list l) { members = added (list l).members c }))
          coroutine
  list_add-IsPlaced out own at_home inside = record {
    once = λ j. elim (Bool-cases (j == l)) [
      | inl here ↦ rw here (Distinct-added (list l).members c (r.once l) nowhere)
      | inr there ↦ rw there (r.once j)
    ];
    placed = λ j z h.
        ground (arith, h, contains-joined list l c j z, r.placed l z, r.placed j z, own, out);
    owned = λ z h. ground (
      arith,
      h,
      r.owned z,
      contains-joined list l c (home (coroutine z)) z,
      own,
      at_home,
      inside,
    );
  }
    where
      nowhere : contains (list l).members c ≡ false
      nowhere = ground (arith, r.placed l c, out)
