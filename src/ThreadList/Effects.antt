-- ===== src/ThreadList/Effects.antt =====
-- What `Add`, `Remove` and `AddPriority` of src/threadlist.cpp do to each list.
use mark.Prelude.{
  ℕ, ◌≡◌, ◌≢◌, refl, true, false, inl, inr, List, [], ◌∷◌, arith, ◌==◌, Bool-cases, ==_self,
}
use mark.PrioMap.Interface.{PriorityMap}
use mark.ThreadList.Ring.{
  push_back, pivot_forward, remove_node, contains, nonempty, insert_by_priority,
  insert_before_lower,
}
use mark.ThreadList.{ThreadId, ListId, ListStore, add, remove, add_priority}

pub not-same : (a b : ℕ) → a ≢ b → (a == b) ≡ false
not-same a b h = ground arith

pub contains-push_back : (xs : List ℕ) (n : ℕ) → contains (push_back xs n) n ≡ true
contains-push_back [] n = rw (==_self n) refl
contains-push_back (x ∷ xs) n = ground (arith, contains-push_back xs n)

contains_earlier :
    (xs : List ℕ) (n x : ℕ) → contains xs n ≡ true → contains (push_back xs x) n ≡ true
contains_earlier [] n x h = absurd (ground (arith, h))
contains_earlier (y ∷ ys) n x h = ground (arith, contains_earlier ys n x)

pub contains-pivot :
    (xs : List ℕ) (n : ℕ) → contains xs n ≡ true → contains (pivot_forward xs) n ≡ true
contains-pivot [] n h = h
contains-pivot (x ∷ xs) n h = elim (Bool-cases (x == n)) [
  | inl here ↦ let e : x ≡ n = ground arith in rw e (contains-push_back xs n)
  | inr there ↦ contains_earlier xs n x (rw there at h)
]

contains-insert_before :
    (cur : ℕ → ℕ) (n : ℕ) (xs : List ℕ) → contains (insert_before_lower cur n xs) n ≡ true
unfolding insert_before_lower
contains-insert_before cur n [] = rw (==_self n) refl
contains-insert_before cur n (x ∷ []) = rw (==_self n) refl
contains-insert_before cur n (x ∷ y ∷ xs) = ground (arith, contains-insert_before cur n (y ∷ xs))

pub contains-insert :
    (cur : ℕ → ℕ) (n : ℕ) (xs : List ℕ) → contains (insert_by_priority cur n xs) n ≡ true
unfolding insert_by_priority
contains-insert cur n [] = rw (==_self n) refl
contains-insert cur n (x ∷ []) = ground arith
contains-insert cur n (x ∷ y ∷ xs) = contains-insert_before cur n (x ∷ y ∷ xs)

module _ {M : Type 0} ⦃pm : PriorityMap M⦄ (l : ListId) (t : ThreadId) (s : ListStore M) where
  pub add-own : ((add l t s).list l).members ≡ pivot_forward (push_back (s.list l).members t)
  unfolding add
  add-own = rw (==_self l) refl

  pub add-other : (j : ListId) → j ≢ l → (add l t s).list j ≡ s.list j
  unfolding add
  add-other j h = rw (not-same j l h) refl

  pub remove-own : ((remove l t s).list l).members ≡ remove_node (s.list l).members t
  unfolding remove
  remove-own = rw (==_self l) refl

  pub remove-other : (j : ListId) → j ≢ l → (remove l t s).list j ≡ s.list j
  unfolding remove
  remove-other j h = rw (not-same j l h) refl

  pub add_priority-own :
      (cur : ThreadId → ℕ) → contains ((add_priority cur l t s).list l).members t ≡ true
  unfolding add_priority
  add_priority-own cur = elim (Bool-cases (nonempty (s.list l).members)) [
    | inl some_wait ↦ rw (some_wait, ==_self l) (contains-insert cur t (s.list l).members)
    | inr first ↦ rw (first, add-own) (contains-pivot _ t (contains-push_back (s.list l).members t))
  ]

  pub add_priority-other :
      (cur : ThreadId → ℕ) (j : ListId) → j ≢ l → (add_priority cur l t s).list j ≡ s.list j
  unfolding add_priority
  add_priority-other cur j h = elim (Bool-cases (nonempty (s.list l).members)) [
    | inl some_wait ↦ rw (some_wait, not-same j l h) refl
    | inr first ↦ rw first (add-other j h)
  ]
