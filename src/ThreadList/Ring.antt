-- ===== src/ThreadList/Ring.antt =====
-- The operations of `CircularLinkList` (src/ll.cpp) on the list of the nodes from head to tail.
use mark.Prelude.{
  ℕ, Bool, true, false, Option, none, some, List, [], ◌∷◌, ◌++◌, ◌==◌, ltb, if◌then◌else◌,
}

-- `CircularLinkList::Add`
abbrev pub push_back : List ℕ → ℕ → List ℕ
push_back xs n = xs ++ (n ∷ [])

-- `PivotForward`
abbrev pub pivot_forward : List ℕ → List ℕ
pivot_forward [] = []
pivot_forward (x ∷ xs) = xs ++ (x ∷ [])

-- `CircularLinkList::Remove`
abbrev pub remove_node : List ℕ → ℕ → List ℕ
remove_node [] n = []
remove_node (x ∷ xs) n = if x == n then xs else x ∷ remove_node xs n

-- `GetHead`
abbrev pub head? : List ℕ → Option ℕ
head? [] = none
head? (x ∷ xs) = some x

abbrev pub last? : List ℕ → Option ℕ
last? [] = none
last? (x ∷ []) = some x
last? (x ∷ y ∷ xs) = last? (y ∷ xs)

abbrev pub contains : List ℕ → ℕ → Bool
contains [] n = false
contains (x ∷ xs) n = if x == n then true else contains xs n

abbrev pub nonempty : List ℕ → Bool
nonempty [] = false
nonempty (x ∷ xs) = true

-- `CircularLinkList::InsertNodeBefore` the first node, from the head up to but not including the tail,
-- whose priority is below that of `n`; before the tail if there is none.
unfoldable pub insert_before_lower : (ℕ → ℕ) → ℕ → List ℕ → List ℕ
insert_before_lower cur n [] = n ∷ []
insert_before_lower cur n (x ∷ []) = n ∷ x ∷ []
insert_before_lower cur n (x ∷ y ∷ xs) =
    let rest = insert_before_lower cur n (y ∷ xs) in
    if ltb (cur x) (cur n) then n ∷ x ∷ y ∷ xs else x ∷ rest

-- The walk and the insertion of `ThreadList::AddPriority` on a list that is not empty. In a ring of one
-- node the walk ends at the head, and the new node becomes the head or the tail.
unfoldable pub insert_by_priority : (ℕ → ℕ) → ℕ → List ℕ → List ℕ
unfolding insert_before_lower
insert_by_priority cur n [] = n ∷ []
insert_by_priority cur n (x ∷ []) = if ltb (cur x) (cur n) then n ∷ x ∷ [] else x ∷ n ∷ []
insert_by_priority cur n (x ∷ y ∷ xs) = insert_before_lower cur n (x ∷ y ∷ xs)
