-- ===== src/ThreadList/Order.antt =====
-- The order of the waiters that `ThreadList::AddPriority` (src/threadlist.cpp) leaves.
use mark.Prelude.{
  ℕ, ◌≤◌, ◌≡◌, refl, ◌∙◌, Bool, true, ◌&&◌, ◌||◌, inl, inr, some, List, [], ◌∷◌, arith, ◌==◌, leb,
  ltb, if◌then◌else◌, Bool-cases,
}
use mark.ThreadList.Ring.{head?, last?, contains, insert_by_priority, insert_before_lower}

module _ (cur : ℕ → ℕ) where
  -- No thread of the list has a priority above that of the one before it.
  unfoldable pub sorted : List ℕ → Bool
  sorted [] = true
  sorted (x ∷ []) = true
  sorted (x ∷ y ∷ xs) = leb (cur y) (cur x) && sorted (y ∷ xs)

  contains-insert_before :
      (n : ℕ) (xs : List ℕ) (u : ℕ)
      → contains (insert_before_lower cur n xs) u ≡ (n == u || contains xs u)
  unfolding insert_before_lower
  contains-insert_before n [] u = ground arith
  contains-insert_before n (x ∷ []) u = ground arith
  contains-insert_before n (x ∷ y ∷ xs) u = ground (arith, contains-insert_before n (y ∷ xs) u)

  contains-insert :
      (n : ℕ) (xs : List ℕ) (u : ℕ)
      → contains (insert_by_priority cur n xs) u ≡ (n == u || contains xs u)
  unfolding insert_by_priority
  contains-insert n [] u = ground arith
  contains-insert n (x ∷ []) u = ground arith
  contains-insert n (x ∷ y ∷ xs) u = contains-insert_before n (x ∷ y ∷ xs) u

  -- The head of the list has the highest priority.
  pub record IsHead (xs : List ℕ) (h : ℕ) : Type 0 where
    pub first : head? xs ≡ some h
    pub highest : (u : ℕ) → contains xs u ≡ true → cur u ≤ cur h

  head-insert :
      (n : ℕ) (xs : List ℕ) (h : ℕ)
      → head? xs ≡ some h
      → head? (insert_by_priority cur n xs) ≡ some (if ltb (cur h) (cur n) then n else h)
  unfolding insert_by_priority insert_before_lower
  head-insert n [] h e = ground (arith, e)
  head-insert n (x ∷ []) h e = ground (arith, e)
  head-insert n (x ∷ y ∷ xs) h e = ground (arith, e)

  -- If the head of the waiters has the highest priority, it has after an insertion by `AddPriority`
  -- too: the new thread becomes the head just when its priority is above the head's.
  pub insert-IsHead :
      (n : ℕ) (xs : List ℕ) (h : ℕ)
      → IsHead xs h
      → IsHead (insert_by_priority cur n xs) (if ltb (cur h) (cur n) then n else h)
  insert-IsHead n xs h w = record {
    first = head-insert n xs h w.first;
    highest = λ u c. ground (arith, w.highest u, contains-insert n xs u);
  }

  sorted-last :
      (x : ℕ) (xs : List ℕ) (z : ℕ)
      → sorted (x ∷ xs) ≡ true
      → last? (x ∷ xs) ≡ some z
      → cur z ≤ cur x
  unfolding sorted
  sorted-last x [] z s e = ground (arith, e)
  sorted-last x (y ∷ xs) z s e = ground (arith, sorted-last y xs z, e)

  sorted-cons :
      (x : ℕ) (r : List ℕ) (h : ℕ) → head? r ≡ some h → cur h ≤ cur x → sorted (x ∷ r) ≡ sorted r
  unfolding sorted
  sorted-cons x [] h e le = refl
  sorted-cons x (y ∷ r) h e le = ground (arith, e, le)

  sorted-insert_before :
      (n x y : ℕ) (xs : List ℕ) (z : ℕ)
      → sorted (x ∷ y ∷ xs) ≡ true
      → last? (x ∷ y ∷ xs) ≡ some z
      → sorted (insert_before_lower cur n (x ∷ y ∷ xs)) ≡ leb (cur z) (cur n)
  unfolding sorted insert_before_lower insert_by_priority
  sorted-insert_before n x y [] z s e = elim (Bool-cases (ltb (cur x) (cur n))) [
    | inl lower ↦ rw lower (ground (arith, s, e))
    | inr level ↦ rw level (ground (arith, s, e))
  ]
  sorted-insert_before n x y (w ∷ ws) z s e =
      let tail_low = sorted-last x (y ∷ w ∷ ws) z s e in
      elim (Bool-cases (ltb (cur x) (cur n))) [
        | inl lower ↦ rw lower (ground (arith, s, tail_low))
        | inr level ↦ rw level (
            sorted-cons x (insert_before_lower cur n (y ∷ w ∷ ws)) _
              (head-insert n (y ∷ w ∷ ws) y refl) (ground (arith, s))
            ∙ sorted-insert_before n y w ws z (ground (arith, s)) e)
      ]

  -- In a list of two or more waiters in order of their priorities, an insertion by `AddPriority`
  -- keeps the order just when the last waiter's priority is not above that of the new thread: the
  -- walk never looks at the last waiter.
  pub insert-sorted :
      (n x y : ℕ) (xs : List ℕ) (z : ℕ)
      → sorted (x ∷ y ∷ xs) ≡ true
      → last? (x ∷ y ∷ xs) ≡ some z
      → sorted (insert_by_priority cur n (x ∷ y ∷ xs)) ≡ leb (cur z) (cur n)
  unfolding insert_by_priority
  insert-sorted n x y xs z s e = sorted-insert_before n x y xs z s e
