-- ===== src/Coroutine/Choice.antt =====
-- Which coroutine `CoScheduler::Schedule` of src/cosched.cpp chooses.
use mark.Prelude.{
  ℕ, suc, ◌-◌, ◌<◌, ◌≤◌, ◌≡◌, refl, sym, subst, ap, ◌∙◌, inl, inr, Bool, true, false, Option, none,
  some, List, [], ◌∷◌, arith, if_true, if_false, ◌==◌, ==_self, Bool-cases, ℕ-cases,
}
use mark.PrioMap.Interface.{PriorityMap}
use mark.ThreadList.Ring.{contains, nonempty, head?}
use mark.Coroutine.{CoScheduler, schedule}
use mark.Coroutine.Members.{nonempty-contains}
use mark.Coroutine.Sound.{home, IsSound}

-- What the scheduler promises: no coroutine may run, or `c` may and none that may is of a higher
-- priority.
unfoldable pub IsChoice : {M : Type 0} → (ℕ → Bool) → CoScheduler M → Option ℕ → Type 0
IsChoice absent s none = (c : ℕ) → absent c ≡ false → (s.coroutine c).queued ≡ false
IsChoice absent s (some c) =
    (absent c ≡ false)
    × ((s.coroutine c).queued ≡ true)
    × ((d : ℕ)
        → absent d ≡ false
        → (s.coroutine d).queued ≡ true
        → (s.coroutine d).priority ≤ (s.coroutine c).priority)

head_member :
    (xs : List ℕ) → nonempty xs ≡ true → (c : ℕ) × (head? xs ≡ some c) × (contains xs c ≡ true)
head_member [] h = absurd (ground (arith, h))
head_member (x ∷ xs) h = (x, refl, ground (arith, ==_self x))

suc_minus : (p : ℕ) → suc p - 1 ≡ p
suc_minus p = omega arith

-- The branch of `Schedule` for a priority in the map.
schedule-head :
    {M : Type 0} ⦃pm : PriorityMap M⦄ (s : CoScheduler M) (p : ℕ)
    → pm.highest_priority s.map ≡ suc p
    → schedule s ≡ head? (s.list (suc p)).members
unfolding schedule
schedule-head ⦃pm⦄ s p top =
    let some_priority : (pm.highest_priority s.map == 0) ≡ false = ground (arith, top) in
    if_false _ _ some_priority
    ∙ ap (λ prio. head? (s.list (suc (prio - 1))).members) top
    ∙ ap (λ prio. head? (s.list (suc prio)).members) (suc_minus p)

module _ {M : Type 0} (pm : PriorityMap M) (absent : ℕ → Bool) (s : CoScheduler M)
    (r : IsSound pm absent s) where
  -- A coroutine that may run has its priority in the map.
  below_highest :
      (c : ℕ)
      → absent c ≡ false
      → (s.coroutine c).queued ≡ true
      → (s.coroutine c).priority < pm.highest_priority s.map
  unfolding home
  below_highest c present queued =
      let p = (s.coroutine c).priority in
      let at_home : home (s.coroutine c) ≡ suc p = if_true _ _ queued in
      let (own, here, inside) = rw at_home at (r.placed.owned c present) in
      let held : pm.member s.map p ≡ true =
        r.mapped.agrees p (omega arith) ∙ nonempty-contains _ c here in
      ground (arith, held, pm.highest_above s.map p r.mapped.map_ok, inside)

  -- The head of the list of the highest priority.
  at_highest :
      (p c : ℕ)
      → pm.highest_priority s.map ≡ suc p
      → contains (s.list (suc p)).members c ≡ true
      → IsChoice absent s (some c)
  unfolding IsChoice home
  at_highest p c top here =
      let (present, own) = r.placed.placed (suc p) c here in
      let own_home = (r.placed.owned c present).0 in
      let same : home (s.coroutine c) ≡ suc p = ground (arith, sym own_home ∙ own) in
      (
        present,
        ground (arith, same),
        λ d d_present d_queued. ground (arith, same, below_highest d d_present d_queued, top),
      )

  pub schedule-IsChoice : IsChoice absent s (schedule ⦃pm = pm⦄ s)
  unfolding schedule IsChoice
  schedule-IsChoice = elim (ℕ-cases (pm.highest_priority s.map)) [
    | inl is_zero ↦
        rw (schedule, is_zero)
          (λ c present. elim (Bool-cases (s.coroutine c).queued) [
            | inl queued ↦ absurd (ground (arith, below_highest c present queued, is_zero))
            | inr idle ↦ idle
          ])
    | inr (p, is_suc) ↦
        let le = pm.highest-le s.map r.mapped.map_ok in
        let some_member : nonempty (s.list (suc p)).members ≡ true =
          sym (r.mapped.agrees p (ground (arith, is_suc, le)))
          ∙ pm.highest_member s.map p r.mapped.map_ok is_suc in
        let (c, first, here) = head_member (s.list (suc p)).members some_member in
        let choice : schedule ⦃pm = pm⦄ s ≡ some c = schedule-head ⦃pm = pm⦄ s p is_suc ∙ first in
        subst (IsChoice absent s) (sym choice) (at_highest p c is_suc here)
  ]
