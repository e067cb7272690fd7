-- ===== src/LinkedList/Tests.antt =====
-- Runs of src/ll.cpp on small lists.
use mark.Prelude.{◌≡◌, refl, true, false, none, some, [], ◌∷◌, get_or}
use mark.ThreadList.Ring.{push_back, pivot_forward, remove_node}
use mark.LinkedList.{Links}
use mark.LinkedList.Chains.{IsCircle}
use mark.LinkedList.Adds.{Calm, add-push_back}
use mark.LinkedList.Pivots.{pivot_forward-rotates}
use mark.LinkedList.Removes.{remove-remove_node}
use mark.LinkedList.Circular
use mark.LinkedList.Double

abbrev no_links : Links
no_links = record {
  next = λ a. none;
  prev = λ a. none;
  head = none;
  tail = none;
  panicked = false;
  fault = false;
}

-- The ring of 3, 1 and 2.
abbrev three : Links
three = record {
  next = λ a. get_or (none ∷ some 2 ∷ some 3 ∷ some 1 ∷ []) a none;
  prev = λ a. get_or (none ∷ some 3 ∷ some 1 ∷ some 2 ∷ []) a none;
  head = some 3;
  tail = some 2;
  panicked = false;
  fault = false;
}

three-IsCircle : IsCircle three (3 ∷ 1 ∷ 2 ∷ [])
three-IsCircle = record {
  at_head = refl;
  at_tail = refl;
  chain = (refl, refl, (refl, refl, (refl, refl, tt)));
}

add-push_back_example :
    IsCircle (Circular.add 4 three) (push_back (3 ∷ 1 ∷ 2 ∷ []) 4)
    × Calm three (Circular.add 4 three)
add-push_back_example =
    add-push_back 4 three (3 ∷ 1 ∷ 2 ∷ []) three-IsCircle (refl, (refl, (refl, tt))) refl

remove-remove_node_example :
    IsCircle (Circular.remove 3 three) (remove_node (3 ∷ 1 ∷ 2 ∷ []) 3)
    × Calm three (Circular.remove 3 three)
remove-remove_node_example =
    remove-remove_node 3 three (3 ∷ 1 ∷ 2 ∷ []) three-IsCircle (refl, (refl, (refl, tt))) refl

pivot_forward-rotates_example :
    IsCircle (Circular.pivot_forward three) (pivot_forward (3 ∷ 1 ∷ 2 ∷ []))
pivot_forward-rotates_example = pivot_forward-rotates three (3 ∷ 1 ∷ 2 ∷ []) three-IsCircle

-- A node that is not linked by its neighbours makes the removal panic.
broken_panics : (Circular.remove 2 (record three { next = λ a. some 1 })).panicked ≡ true
unfolding Circular.remove
broken_panics = refl

-- Three nodes on a `DoubleLinkList`, from which the middle one is taken.
line_runs : (Double.remove 2 (Double.add 3 (Double.add 2 (Double.add 1 no_links)))).next 1 ≡ some 3
unfolding Double.remove Double.add
line_runs = refl

inserted : (Circular.insert_node_before 4 1 three).next 3 ≡ some 4
unfolding Circular.insert_node_before
inserted = refl
