-- ===== src/PrioMap/Interface.antt =====
-- What the schedulers use of a priority map: `Set`, `Clear` and `HighestPriority`, and the laws that
-- tie them to the set of the priorities that the map holds.
use mark.Prelude.{ℕ, suc, ◌≤◌, ◌<◌, ◌≡◌, Bool, true, false, not, ◌&&◌, ◌||◌, ◌==◌}

pub record PriorityMap (M : Type 0) : Type 1 where
  -- How many priorities the client has: at most as many as there is room for.
  pub capacity : ℕ
  pub empty : M
  pub set : ℕ → M → M
  pub clear : ℕ → M → M
  pub highest_priority : M → ℕ
  -- Whether a priority is in the map, and what the operations keep of the representation.
  pub member : M → ℕ → Bool
  pub IsConsistent : M → Type 0
  pub empty-IsConsistent : IsConsistent empty
  pub set-IsConsistent : (p : ℕ) (m : M) → p < capacity → IsConsistent m → IsConsistent (set p m)
  pub clear-IsConsistent :
      (p : ℕ) (m : M) → p < capacity → IsConsistent m → IsConsistent (clear p m)
  pub member-empty : (q : ℕ) → member empty q ≡ false
  pub member-set :
      (p q : ℕ) (m : M) → p < capacity → q < capacity → member (set p m) q ≡ (q == p || member m q)
  pub member-clear :
      (p q : ℕ) (m : M)
      → p < capacity
      → q < capacity
      → member (clear p m) q ≡ (not (q == p) && member m q)
  pub highest-le : (m : M) → IsConsistent m → highest_priority m ≤ capacity
  pub highest_member :
      (m : M) (p : ℕ) → IsConsistent m → highest_priority m ≡ suc p → member m p ≡ true
  pub highest_above :
      (m : M) (q : ℕ) → IsConsistent m → highest_priority m ≤ q → q < capacity → member m q ≡ false
