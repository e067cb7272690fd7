-- ===== src/Kernel/Choice.antt =====
-- What `Scheduler::Schedule` (src/scheduler.cpp) chooses: a theorem over any priority map.
use mark.Prelude.{
  ℕ, zero, suc, ◌-◌, ◌≤◌, ◌<◌, ◌≡◌, refl, sym, ◌∙◌, true, false, inl, inr, arith, ◌==◌, ◌⊎◌,
}
use mark.PrioMap.Interface.{PriorityMap}
use mark.ThreadList.Ring.{nonempty, head?}
use mark.ThreadList.{ListStore}
use mark.ThreadList.Consistent.{IsConsistent, ready_list}
use mark.Kernel.State.{Kernel, panic, fault}
use mark.Kernel.Scheduler.{schedule, panic_no_ready_threads}

-- `q` is the highest priority below `num` with a thread that is ready.
pub record IsHighest {M : Type 0} (num : ℕ) (s : ListStore M) (q : ℕ) : Type 0 where
  pub below : q < num
  pub waiting : nonempty (s.list (ready_list q)).members ≡ true
  pub above : (r : ℕ) → q < r → r < num → nonempty (s.list (ready_list r)).members ≡ false

suc-eq_zero : (q : ℕ) → (suc q == 0) ≡ false
suc-eq_zero q = ground arith

suc-pred : (q : ℕ) → suc q - 1 ≡ q
suc-pred q = omega arith

module _ {M : Type 0} ⦃pm : PriorityMap M⦄ (num : ℕ) (fits : num ≤ pm.capacity) where
  abbrev pub Chosen : Kernel M → Type 0
  Chosen k =
      (q : ℕ) × IsHighest num k.lists q
      × (schedule k ≡ record k { next = head? (k.lists.list (ready_list q)).members })

  abbrev pub Idle : Kernel M → Type 0
  Idle k =
      ((q : ℕ) → q < num → nonempty (k.lists.list (ready_list q)).members ≡ false)
      × (schedule k ≡ fault (panic panic_no_ready_threads k))

  agreed-IsHighest :
      (s : ListStore M) (q : ℕ)
      → IsConsistent num s
      → pm.highest_priority s.map ≡ suc q
      → q < num
      → IsHighest num s q
  agreed-IsHighest s q c e below = record {
    below = below;
    waiting = sym (c.agrees q below) ∙ pm.highest_member s.map q c.map_ok e;
    above = λ r more less.
        sym (c.agrees r less) ∙ pm.highest_above s.map r c.map_ok (ground arith) (ground arith);
  }

  -- The highest priority of the map is one of the scheduler's.
  highest-lt :
      (s : ListStore M) (q : ℕ) → IsConsistent num s → pm.highest_priority s.map ≡ suc q → q < num
  highest-lt s q c e =
      ground (arith, c.beyond q, pm.highest_member s.map q c.map_ok e, pm.highest-le s.map c.map_ok)

  schedule_by_value :
      (k : Kernel M) (n : ℕ)
      → IsConsistent num k.lists
      → pm.highest_priority k.lists.map ≡ n
      → Chosen k ⊎ Idle k
  unfolding schedule
  schedule_by_value k zero c e = inr (
    (λ q below.
        sym (c.agrees q below)
        ∙ pm.highest_above k.lists.map q c.map_ok (ground arith) (ground arith)),
    rw (e, schedule),
  )
  schedule_by_value k (suc q) c e = inl (
    q,
    agreed-IsHighest k.lists q c e (highest-lt k.lists q c e),
    rw (e, schedule, suc-eq_zero q, suc-pred q),
  )

  -- Where the map and the ready lists agree, `schedule` makes the head of the ready list of the
  -- highest priority that has a ready thread the next thread, and changes nothing else; if no thread
  -- is ready it panics with PANIC_NO_READY_THREADS and reads outside the array.
  pub schedule-highest : (k : Kernel M) → IsConsistent num k.lists → Chosen k ⊎ Idle k
  schedule-highest k c = schedule_by_value k (pm.highest_priority k.lists.map) c refl
