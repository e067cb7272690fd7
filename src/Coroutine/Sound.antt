-- ===== src/Coroutine/Sound.antt =====
-- When the state of src/cosched.cpp and src/coroutine.cpp is in order.
use mark.Prelude.{ℕ, suc, ◌<◌, ◌≡◌, Bool, true, false, some, if◌then◌else◌}
use mark.PrioMap.Interface.{PriorityMap}
use mark.ThreadList.Ring.{contains, nonempty}
use mark.LinkedList.Chains.{Distinct}
use mark.Coroutine.{Coroutine, CoList, CoScheduler, stop_list}

-- The list that a coroutine belongs on.
unfoldable pub home : Coroutine → ℕ
home co = if co.queued then suc co.priority else stop_list

-- The lists of the priorities are wired to the map, which holds the priorities whose lists hold a
-- coroutine.
pub record IsMapped {M : Type 0} (pm : PriorityMap M) (list : ℕ → CoList) (map : M) : Type 0 where
  pub map_ok : pm.IsConsistent map
  pub wired :
      (p : ℕ) → p < pm.capacity → ((list (suc p)).mapped ≡ true) × ((list (suc p)).priority ≡ p)
  pub stop_unmapped : (list stop_list).mapped ≡ false
  pub agrees : (p : ℕ) → p < pm.capacity → pm.member map p ≡ nonempty (list (suc p)).members

-- Every list holds just the coroutines that it owns, each once, and a coroutine is owned by the list
-- of its priority when it is queued and by the stop list when it is not. The coroutines of `absent`
-- are on no list: they are not initialised, or on their way from one list to another.
pub record IsPlaced (capacity : ℕ) (absent : ℕ → Bool) (list : ℕ → CoList)
    (coroutine : ℕ → Coroutine) : Type 0 where
  pub once : (l : ℕ) → Distinct (list l).members
  pub placed :
      (l c : ℕ)
      → contains (list l).members c ≡ true
      → (absent c ≡ false) × ((coroutine c).owner ≡ some l)
  pub owned :
      (c : ℕ)
      → absent c ≡ false
      → ((coroutine c).owner ≡ some (home (coroutine c)))
        × (contains (list (home (coroutine c))).members c ≡ true)
        × (home (coroutine c) < suc capacity)

-- The whole state is in order.
pub record IsSound {M : Type 0} (pm : PriorityMap M) (absent : ℕ → Bool) (s : CoScheduler M)
    : Type 0 where
  pub mapped : IsMapped pm s.list s.map
  pub placed : IsPlaced pm.capacity absent s.list s.coroutine
  -- No call went through a null owner, or took a coroutine from a list that it was not on.
  pub safe : s.faulted ≡ false
