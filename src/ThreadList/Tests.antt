-- ===== src/ThreadList/Tests.antt =====
-- The theorems on the order of the waiters, where a thread's priority is its number.
use mathlib.Core.List.{Perm}
use mark.Prelude.{◌≡◌, refl, true, [], ◌∷◌, arith, leb, ltb, if◌then◌else◌}
use mark.ThreadList.Ring.{insert_by_priority}
use mark.ThreadList.Priority.{insert_by_priority-perm}
use mark.ThreadList.Order.{sorted, IsHead, insert-IsHead, insert-sorted}

insert_by_priority-perm_example :
    Perm (insert_by_priority (λ t. t) 5 (9 ∷ 7 ∷ 3 ∷ [])) (5 ∷ 9 ∷ 7 ∷ 3 ∷ [])
insert_by_priority-perm_example = insert_by_priority-perm (λ t. t) 5 (9 ∷ 7 ∷ 3 ∷ [])

nine-IsHead : IsHead (λ t. t) (9 ∷ 7 ∷ 3 ∷ []) 9
nine-IsHead = record { first = refl; highest = λ u h. ground (arith, h) }

insert-IsHead_example :
    IsHead (λ t. t) (insert_by_priority (λ t. t) 12 (9 ∷ 7 ∷ 3 ∷ [])) (if ltb 9 12 then 12 else 9)
insert-IsHead_example = insert-IsHead (λ t. t) 12 (9 ∷ 7 ∷ 3 ∷ []) 9 nine-IsHead

in_order : sorted (λ t. t) (9 ∷ 7 ∷ 3 ∷ []) ≡ true
unfolding sorted
in_order = refl

-- A thread of priority 2 goes before the tail of priority 3.
insert-sorted_example : sorted (λ t. t) (insert_by_priority (λ t. t) 2 (9 ∷ 7 ∷ 3 ∷ [])) ≡ leb 3 2
insert-sorted_example = insert-sorted (λ t. t) 2 9 7 (3 ∷ []) 3 in_order refl
