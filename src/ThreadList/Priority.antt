-- ===== src/ThreadList/Priority.antt =====
-- What the insertion of `ThreadList::AddPriority` (src/threadlist.cpp) promises, and what it does not.
use mathlib.Core.List.{Perm}
use mathlib.Core.List.Perm
use mark.Prelude.{ℕ, inl, inr, List, [], ◌∷◌, Bool-cases, ltb}
use mark.ThreadList.Ring.{insert_by_priority, insert_before_lower}

module _ (cur : ℕ → ℕ) where
  insert_before_lower-perm : (n : ℕ) (xs : List ℕ) → Perm (insert_before_lower cur n xs) (n ∷ xs)
  unfolding insert_before_lower
  insert_before_lower-perm n [] = Perm.refl _
  insert_before_lower-perm n (x ∷ []) = Perm.refl _
  insert_before_lower-perm n (x ∷ y ∷ xs) = elim (Bool-cases (ltb (cur x) (cur n))) [
    | inl lower ↦ rw lower (Perm.refl _)
    | inr above ↦
        rw above
          (Perm.trans (Perm.cons x (insert_before_lower-perm n (y ∷ xs))) (Perm.swap n x (y ∷ xs)))
  ]

  -- The insertion of `AddPriority` adds the thread to the waiters, and loses and repeats none.
  pub insert_by_priority-perm : (n : ℕ) (xs : List ℕ) → Perm (insert_by_priority cur n xs) (n ∷ xs)
  unfolding insert_by_priority
  insert_by_priority-perm n [] = Perm.refl _
  insert_by_priority-perm n (x ∷ []) = elim (Bool-cases (ltb (cur x) (cur n))) [
    | inl lower ↦ rw lower (Perm.refl _)
    | inr above ↦ rw above (Perm.swap n x [])
  ]
  insert_by_priority-perm n (x ∷ y ∷ xs) = insert_before_lower-perm n (x ∷ y ∷ xs)
