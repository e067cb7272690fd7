-- ===== src/Coroutine/Task.antt =====
-- The task of src/public/manual.h that runs the coroutines, round after round.
use mark.Prelude.{
  ℕ, zero, suc, ◌+◌, ◌<◌, ◌≤◌, ◌≡◌, refl, sym, subst, ap, ◌∙◌, inl, inr, Bool, true, false, none,
  some, List, [], ◌∷◌, arith, update, length, ◌==◌, Bool-cases, Option-cases, if_true, if_false,
}
use mark.PrioMap.Interface.{PriorityMap}
use mark.ThreadList.Ring.{contains, remove_node}
use mark.Coroutine.{
  Coroutine, CoList, CoScheduler, stop_list, schedule, run, dequeue, list_add, list_remove,
}
use mark.Coroutine.Sound.{home, IsSound}
use mark.Coroutine.Keeps.{dequeue-IsSound, dequeue-settled}
use mark.Coroutine.Choice.{IsChoice, schedule-IsChoice}

-- The coroutines that are run in the first `n` rounds of the task.
unfoldable pub ran :
    {M : Type 0} ⦃pm : PriorityMap M⦄
    → (ℕ → ℕ → ℕ → CoScheduler M → CoScheduler M)
    → ℕ
    → CoScheduler M
    → List ℕ
ran handlers zero s = []
ran handlers (suc n) s = elim (schedule s) [
  | none ↦ ran handlers n s
  | some c ↦ c ∷ ran handlers n (run handlers c s)
]

-- How many coroutines the lists of the first `n` priorities hold.
abbrev pub held : (ℕ → CoList) → ℕ → ℕ
held list zero = 0
held list (suc p) = length (list (suc p)).members + held list p

held-stop :
    (list : ℕ → CoList) (q : CoList) (n : ℕ) → held (update list stop_list q) n ≡ held list n
held-stop list q zero = refl
held-stop list q (suc p) = ground (arith, held-stop list q p)

held_above :
    (list : ℕ → CoList) (p : ℕ) (q : CoList) (n : ℕ)
    → n ≤ p
    → held (update list (suc p) q) n ≡ held list n
held_above list p q zero h = refl
held_above list p q (suc n) h = ground (arith, held_above list p q n, h)

held-update :
    (list : ℕ → CoList) (p : ℕ) (q : CoList) (n : ℕ)
    → p < n
    → held (update list (suc p) q) n + length (list (suc p)).members
      ≡ held list n + length q.members
held-update list p q zero h = absurd (ground (arith, h))
held-update list p q (suc n) h = elim (Bool-cases (n == p)) [
  | inl here ↦
      let same : n ≡ p = ground (arith, here) in
      subst
        (λ m.
          held (update list (suc p) q) (suc m) + length (list (suc p)).members
          ≡ held list (suc m) + length q.members)
        (sym same) (ground (arith, held_above list p q p))
  | inr there ↦ ground (arith, held-update list p q n, there, h)
]

length-remove_node :
    (xs : List ℕ) (c : ℕ) → contains xs c ≡ true → suc (length (remove_node xs c)) ≡ length xs
length-remove_node [] c h = absurd (ground (arith, h))
length-remove_node (x ∷ xs) c h = ground (arith, length-remove_node xs c, h)

length-contains : (xs : List ℕ) (c : ℕ) → contains xs c ≡ true → 0 < length xs
length-contains [] c h = absurd (ground (arith, h))
length-contains (x ∷ xs) c h = omega arith

held_some :
    (list : ℕ → CoList) (p c n : ℕ)
    → p < n
    → contains (list (suc p)).members c ≡ true
    → 0 < held list n
held_some list p c zero h here = absurd (ground (arith, h))
held_some list p c (suc n) h here = elim (Bool-cases (n == p)) [
  | inl at_p ↦
      let same : n ≡ p = ground (arith, at_p) in
      let more = length-contains (list (suc p)).members c here in
      subst (λ m. 0 < held list (suc m)) (sym same) (omega (arith, more))
  | inr below ↦
      let more = held_some list p c n (ground (arith, h, below)) here in omega (arith, more)
]

module _ {M : Type 0} (pm : PriorityMap M) (absent : ℕ → Bool) where
  -- A queued coroutine is held by the list of its priority.
  queued_here :
      (s : CoScheduler M) (c : ℕ)
      → IsSound pm absent s
      → absent c ≡ false
      → (s.coroutine c).queued ≡ true
      → (home (s.coroutine c) ≡ suc (s.coroutine c).priority)
        × (contains (s.list (suc (s.coroutine c).priority)).members c ≡ true)
        × ((s.coroutine c).priority < pm.capacity)
  unfolding home
  queued_here s c r present queued =
      let at_home : home (s.coroutine c) ≡ suc (s.coroutine c).priority = if_true _ _ queued in
      let (own, here, inside) = rw at_home at (r.placed.owned c present) in
      (at_home, here, omega (arith, inside))

  held-dequeue :
      (s : CoScheduler M) (c : ℕ)
      → IsSound pm absent s
      → absent c ≡ false
      → (s.coroutine c).queued ≡ true
      → suc (held (dequeue ⦃pm = pm⦄ c s).list pm.capacity) ≡ held s.list pm.capacity
  unfolding list_remove list_add
  held-dequeue s c r present queued =
      let p = (s.coroutine c).priority in
      let (at_home, here, inside) = queued_here s c r present queued in
      let result = dequeue-settled pm absent c s r present in
      let moved = rw at_home at result in
      let xs = remove_node (s.list (suc p)).members c in
      let q : CoList = record (s.list (suc p)) { members = xs } in
      let out = update s.list (suc p) q in
      let back : held (dequeue ⦃pm = pm⦄ c s).list pm.capacity ≡ held out pm.capacity =
        ap (λ (s' : CoScheduler M). held s'.list pm.capacity) moved ∙ held-stop out _ pm.capacity in
      let less = held-update s.list p q pm.capacity inside in
      let one = length-remove_node (s.list (suc p)).members c here in omega (arith, back, less, one)

  -- Another coroutine stays as it is.
  dequeue_other :
      (s : CoScheduler M) (c d : ℕ)
      → IsSound pm absent s
      → absent c ≡ false
      → (d == c) ≡ false
      → (dequeue ⦃pm = pm⦄ c s).coroutine d ≡ s.coroutine d
  unfolding list_remove list_add
  dequeue_other s c d r present other =
      ap (λ (s' : CoScheduler M). s'.coroutine d) (dequeue-settled pm absent c s r present)
      ∙ if_false _ _ other

  module _ (handlers : ℕ → ℕ → ℕ → CoScheduler M → CoScheduler M)
      (apart : (h c x : ℕ) (s : CoScheduler M) → handlers h c x s ≡ s) where
    run-dequeue : (c : ℕ) (s : CoScheduler M) → run ⦃pm = pm⦄ handlers c s ≡ dequeue ⦃pm = pm⦄ c s
    unfolding run
    run-dequeue c s = apart _ _ _ _

    ran-chosen :
        (n c : ℕ) (s : CoScheduler M)
        → schedule ⦃pm = pm⦄ s ≡ some c
        → ran ⦃pm = pm⦄ handlers (suc n) s ≡ (c ∷ ran ⦃pm = pm⦄ handlers n (dequeue ⦃pm = pm⦄ c s))
    unfolding ran
    ran-chosen n c s chosen =
        rw (ran, chosen) (ap (λ s'. c ∷ ran ⦃pm = pm⦄ handlers n s') (run-dequeue c s))

    -- Where the scheduler of the coroutines is in order and the handlers leave it alone, the task
    -- that schedules and runs coroutines runs every coroutine that is queued, within as many rounds
    -- as the lists of the priorities hold coroutines.
    pub contains-ran :
        (n d : ℕ) (s : CoScheduler M)
        → IsSound pm absent s
        → held s.list pm.capacity ≤ n
        → absent d ≡ false
        → (s.coroutine d).queued ≡ true
        → contains (ran ⦃pm = pm⦄ handlers n s) d ≡ true
    unfolding ran IsChoice
    contains-ran zero d s r enough present queued =
        let (at_home, here, inside) = queued_here s d r present queued in
        absurd (
          omega
            (arith, held_some s.list (s.coroutine d).priority d pm.capacity inside here, enough))
    contains-ran (suc n) d s r enough present queued = elim (Option-cases (schedule ⦃pm = pm⦄ s)) [
      | inl nobody ↦
          let choice = subst (IsChoice absent s) nobody (schedule-IsChoice pm absent s r) in
          absurd (ground (arith, choice d present, queued))
      | inr (c, chosen) ↦
          let choice = subst (IsChoice absent s) chosen (schedule-IsChoice pm absent s r) in
          let s' = dequeue ⦃pm = pm⦄ c s in
          let less = held-dequeue s c r choice.0 choice.1 in
          let sound : IsSound pm absent s' = dequeue-IsSound pm absent c s r choice.0 in
          let first = ran-chosen n c s chosen in
          elim (Bool-cases (d == c)) [
            | inl same ↦ rw first (ground (arith, same))
            | inr other ↦
                let later = contains-ran n d s' sound (omega (arith, less, enough)) present (
                  ap (λ (co : Coroutine). co.queued) (dequeue_other s c d r choice.0 other)
                  ∙ queued) in
                rw first (ground (arith, later, other))
          ]
    ]
