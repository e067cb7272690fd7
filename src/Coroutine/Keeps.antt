-- ===== src/Coroutine/Keeps.antt =====
-- Every operation of src/coroutine.cpp keeps the state in order.
use mathlib.Core.Path.{fun_ext}
use mark.Prelude.{
  ℕ, suc, ◌<◌, ◌≡◌, refl, sym, subst, ap, ◌∙◌, inl, inr, Bool, true, false, some, arith, update,
  update-own, update_twice, if_true, if_false, opt_eq, ◌==◌, if◌then◌else◌, Bool-cases,
}
use mark.PrioMap.Interface.{PriorityMap}
use mark.Coroutine.{
  Coroutine, CoList, CoScheduler, stop_list, get_co_list, put_coroutine, set_owner, set_queued,
  list_add, list_remove, owner_add, owner_remove, init, dequeue, activate, set_priority, destroy,
}
use mark.Coroutine.Sound.{home, IsPlaced, IsSound}
use mark.Coroutine.Moves.{
  list_remove-IsMapped, list_add-IsMapped, list_remove-IsPlaced, list_add-IsPlaced,
}

module _ {M : Type 0} (pm : PriorityMap M) where
  -- A coroutine that is on no list may change.
  IsPlaced-update :
      (capacity : ℕ) (absent : ℕ → Bool) (list : ℕ → CoList) (coroutine : ℕ → Coroutine) (c : ℕ)
      (v : Coroutine)
      → IsPlaced capacity absent list coroutine
      → absent c ≡ true
      → IsPlaced capacity absent list (update coroutine c v)
  IsPlaced-update capacity absent list coroutine c v r out = record {
    once = r.once;
    placed = λ l z h. ground (arith, r.placed l z h, out);
    owned = λ z h. elim (Bool-cases (z == c)) [
      | inl here ↦
          let same : z ≡ c = ground arith in absurd (ground (arith, ap absent same, out, h))
      | inr there ↦ rw there (r.owned z h)
    ];
  }

  left :
      (absent : ℕ → Bool) (c l : ℕ) (s : CoScheduler M)
      → IsSound pm absent s
      → absent c ≡ false
      → home (s.coroutine c) ≡ l
      → IsSound pm (update absent c true) (list_remove ⦃pm = pm⦄ l c s)
  unfolding list_remove
  left absent c l s r present at_home =
      let (own, here, inside) = rw at_home at (r.placed.owned c present) in
      record {
        mapped = list_remove-IsMapped pm l c s r.mapped inside here;
        placed =
            list_remove-IsPlaced pm.capacity absent s.list s.coroutine c l r.placed present own;
        safe = if_true _ _ here ∙ r.safe;
      }

  -- The coroutine `c`, now `v`, comes to the list `l`, which is the home of `v`.
  abbrev pub settled : ℕ → ℕ → Coroutine → CoScheduler M → CoScheduler M
  settled l c v out = record (list_add ⦃pm = pm⦄ l c out) { coroutine = update out.coroutine c v }

  settled-IsSound :
      (absent : ℕ → Bool) (c l : ℕ) (v : Coroutine) (out : CoScheduler M)
      → IsSound pm absent out
      → absent c ≡ true
      → v.owner ≡ some l
      → home v ≡ l
      → l < suc pm.capacity
      → IsSound pm (update absent c false) (settled l c v out)
  unfolding list_add
  settled-IsSound absent c l v out r gone own at_home inside =
      let coroutine = update out.coroutine c v in
      let changed : IsPlaced pm.capacity absent out.list coroutine =
        IsPlaced-update pm.capacity absent out.list out.coroutine c v r.placed gone in
      let is_v : coroutine c ≡ v = update-own out.coroutine c v in
      record {
        mapped = list_add-IsMapped pm l c out r.mapped inside;
        placed =
            list_add-IsPlaced pm.capacity absent out.list coroutine c l changed gone
              (ap (λ (w : Coroutine). w.owner) is_v ∙ own) (ap home is_v ∙ at_home) inside;
        safe = r.safe;
      }

  owner_remove-some :
      (c l : ℕ) (s : CoScheduler M)
      → (s.coroutine c).owner ≡ some l
      → owner_remove ⦃pm = pm⦄ c s ≡ list_remove ⦃pm = pm⦄ l c s
  unfolding owner_remove
  owner_remove-some c l s own = rw (owner_remove, own) refl

  owner_add-some :
      (c l : ℕ) (s : CoScheduler M)
      → (s.coroutine c).owner ≡ some l
      → owner_add ⦃pm = pm⦄ c s ≡ list_add ⦃pm = pm⦄ l c s
  unfolding owner_add
  owner_add-some c l s own = rw (owner_add, own) refl

  retouch :
      (f : ℕ → Coroutine) (c : ℕ) (v : Coroutine) (g : Coroutine → Coroutine)
      → update (update f c v) c (g (update f c v c)) ≡ update f c (g v)
  retouch f c v g =
      ap (λ (w : Coroutine). update (update f c v) c (g w)) (update-own f c v)
      ∙ update_twice f c v (g v)

  -- A coroutine that gets an owner, is added there and then gets its mark.
  added-settled :
      (c l : ℕ) (b : Bool) (out : CoScheduler M)
      → set_queued c b (owner_add ⦃pm = pm⦄ c (set_owner c (some l) out))
        ≡ settled l c (record (out.coroutine c) { owner = some l; queued = b }) out
  unfolding list_add
  added-settled c l b out =
      let v : Coroutine = record (out.coroutine c) { owner = some l } in
      let own : (update out.coroutine c v c).owner ≡ some l =
        ap (λ (w : Coroutine). w.owner) (update-own out.coroutine c v) in
      ap (set_queued c b) (owner_add-some c l (set_owner c (some l) out) own)
      ∙ ap (λ (f : ℕ → Coroutine). record (list_add ⦃pm = pm⦄ l c out) { coroutine = f })
          (retouch out.coroutine c v (λ w. record w { queued = b }))

  absent_again :
      (absent : ℕ → Bool) (c : ℕ)
      → absent c ≡ false
      → update (update absent c true) c false ≡ absent
  absent_again absent c present = fun_ext (λ z. ground (arith, ap absent))

  -- A coroutine leaves its list and comes to the one that is its home as `v`.
  resettled-IsSound :
      (absent : ℕ → Bool) (c l : ℕ) (v : Coroutine) (s : CoScheduler M)
      → IsSound pm absent s
      → absent c ≡ false
      → v.owner ≡ some l
      → home v ≡ l
      → l < suc pm.capacity
      → IsSound pm absent (settled l c v (list_remove ⦃pm = pm⦄ (home (s.coroutine c)) c s))
  resettled-IsSound absent c l v s r present own at_home inside =
      let out = list_remove ⦃pm = pm⦄ (home (s.coroutine c)) c s in
      subst (λ a. IsSound pm a (settled l c v out)) (absent_again absent c present)
        (settled-IsSound (update absent c true) c l v out
          (left absent c (home (s.coroutine c)) s r present refl) (update-own absent c true) own
          at_home inside)

  pub dequeue-settled :
      (absent : ℕ → Bool) (c : ℕ) (s : CoScheduler M)
      → IsSound pm absent s
      → absent c ≡ false
      → dequeue ⦃pm = pm⦄ c s
        ≡ settled stop_list c
            (record (s.coroutine c) { owner = some stop_list; queued = false })
            (list_remove ⦃pm = pm⦄ (home (s.coroutine c)) c s)
  unfolding dequeue list_remove
  dequeue-settled absent c s r present =
      let out = list_remove ⦃pm = pm⦄ (home (s.coroutine c)) c s in
      ap (λ o. set_queued c false (owner_add ⦃pm = pm⦄ c (set_owner c (some stop_list) o)))
        (owner_remove-some c (home (s.coroutine c)) s (r.placed.owned c present).0)
      ∙ added-settled c stop_list false out

  -- `Coroutine::Run` moves the coroutine to the stop list before it calls the handler.
  pub dequeue-IsSound :
      (absent : ℕ → Bool) (c : ℕ) (s : CoScheduler M)
      → IsSound pm absent s
      → absent c ≡ false
      → IsSound pm absent (dequeue ⦃pm = pm⦄ c s)
  unfolding home
  dequeue-IsSound absent c s r present =
      subst (IsSound pm absent) (sym (dequeue-settled absent c s r present))
        (resettled-IsSound absent c stop_list _ s r present refl refl (omega arith))

  -- `Coroutine::Activate` of a coroutine whose priority is in range.
  pub activate-IsSound :
      (absent : ℕ → Bool) (c : ℕ) (s : CoScheduler M)
      → IsSound pm absent s
      → absent c ≡ false
      → (s.coroutine c).priority < pm.capacity
      → IsSound pm absent (activate ⦃pm = pm⦄ c s)
  unfolding activate list_remove home
  activate-IsSound absent c s r present inside =
      let out = list_remove ⦃pm = pm⦄ (home (s.coroutine c)) c s in
      let removed = owner_remove-some c (home (s.coroutine c)) s (r.placed.owned c present).0 in
      let there : get_co_list pm.capacity (s.coroutine c).priority
          ≡ some (suc (s.coroutine c).priority) =
        ground arith in
      let next : CoScheduler M → CoScheduler M = λ o. set_queued c true (
        owner_add ⦃pm = pm⦄ c (set_owner c (get_co_list pm.capacity (o.coroutine c).priority) o)) in
      let result : next (owner_remove ⦃pm = pm⦄ c s)
          ≡ settled (suc (s.coroutine c).priority) c
              (record (s.coroutine c) {
                owner = some (suc (s.coroutine c).priority);
                queued = true;
              })
              out =
        ap next removed
        ∙ ap (λ o. set_queued c true (owner_add ⦃pm = pm⦄ c (set_owner c o out))) there
        ∙ added-settled c (suc (s.coroutine c).priority) true out in
      elim (Bool-cases (s.coroutine c).queued) [
        | inl queued ↦ subst (IsSound pm absent) (sym (if_true _ _ queued)) r
        | inr idle ↦ subst (IsSound pm absent) (sym (if_false _ _ idle ∙ result)) (
            resettled-IsSound absent c (suc (s.coroutine c).priority) _ s r present refl refl
              (omega arith))
      ]

  -- A coroutine that changes to `v`, gets an owner and is added there.
  changed-settled :
      (c l : ℕ) (v : Coroutine) (out : CoScheduler M)
      → owner_add ⦃pm = pm⦄ c (set_owner c (some l) (put_coroutine c v out))
        ≡ settled l c (record v { owner = some l }) out
  unfolding list_add
  changed-settled c l v out =
      let w : Coroutine = record (update out.coroutine c v c) { owner = some l } in
      let own : (update (update out.coroutine c v) c w c).owner ≡ some l =
        ap (λ (w : Coroutine). w.owner) (update-own (update out.coroutine c v) c w) in
      owner_add-some c l (set_owner c (some l) (put_coroutine c v out)) own
      ∙ ap (λ (f : ℕ → Coroutine). record (list_add ⦃pm = pm⦄ l c out) { coroutine = f })
          (retouch out.coroutine c v (λ w. record w { owner = some l }))

  -- `Coroutine::SetPriority` of a priority that is in range.
  pub set_priority-IsSound :
      (absent : ℕ → Bool) (c priority : ℕ) (s : CoScheduler M)
      → IsSound pm absent s
      → absent c ≡ false
      → priority < pm.capacity
      → IsSound pm absent (set_priority ⦃pm = pm⦄ c priority s)
  unfolding set_priority list_remove home
  set_priority-IsSound absent c priority s r present inside =
      let out = list_remove ⦃pm = pm⦄ (home (s.coroutine c)) c s in
      let removed = owner_remove-some c (home (s.coroutine c)) s (r.placed.owned c present).0 in
      let v : Coroutine = record (s.coroutine c) { priority = priority } in
      let l : ℕ = home v in
      let next : CoScheduler M → CoScheduler M = λ o.
        let ranked = put_coroutine c (record (o.coroutine c) { priority = priority }) o in
        owner_add ⦃pm = pm⦄ c (
          set_owner c
            (if (ranked.coroutine c).queued
              then get_co_list pm.capacity priority
              else some stop_list)
            ranked) in
      let target : (if (update s.coroutine c v c).queued
            then get_co_list pm.capacity priority
            else some stop_list)
          ≡ some l =
        rw (update-own s.coroutine c v) (ground arith) in
      subst (IsSound pm absent)
        (sym (
          ap next removed
          ∙ ap (λ o. owner_add ⦃pm = pm⦄ c (set_owner c o (put_coroutine c v out))) target
          ∙ changed-settled c l v out))
        (resettled-IsSound absent c l (record v { owner = some l }) s r present refl refl
          (ground arith))

  -- `Coroutine::Init` of a coroutine that is on no list.
  pub init-IsSound :
      (absent : ℕ → Bool) (c priority handler context : ℕ) (s : CoScheduler M)
      → IsSound pm absent s
      → absent c ≡ true
      → IsSound pm (update absent c false) (init ⦃pm = pm⦄ c priority handler context s)
  unfolding init list_add home
  init-IsSound absent c priority handler context s r gone =
      let v : Coroutine = record {
        owner = some stop_list;
        handler = handler;
        context = context;
        priority = priority;
        queued = false;
      } in
      let own : (update s.coroutine c v c).owner ≡ some stop_list =
        ap (λ (w : Coroutine). w.owner) (update-own s.coroutine c v) in
      subst (IsSound pm (update absent c false))
        (sym (owner_add-some c stop_list (put_coroutine c v s) own))
        (settled-IsSound absent c stop_list v s r gone refl refl (omega arith))

  -- The destructor of a coroutine that is on a list takes it off.
  pub destroy-IsSound :
      (absent : ℕ → Bool) (c : ℕ) (s : CoScheduler M)
      → IsSound pm absent s
      → absent c ≡ false
      → IsSound pm (update absent c true) (destroy ⦃pm = pm⦄ c s)
  unfolding destroy list_remove
  destroy-IsSound absent c s r present =
      let stopped = opt_eq (s.coroutine c).owner (some stop_list) in
      let s' : CoScheduler M = record s { panicked = if stopped then s.panicked else true } in
      let r' : IsSound pm absent s' = record {
        mapped = r.mapped;
        placed = r.placed;
        safe = r.safe;
      } in
      let removed = owner_remove-some c (home (s.coroutine c)) s' (r.placed.owned c present).0 in
      subst (IsSound pm (update absent c true)) (sym removed)
        (left absent c (home (s.coroutine c)) s' r' present refl)
