-- ===== src/Kernel/Quantum.antt =====
-- The round-robin state of src/quantum.cpp.
use mark.Prelude.{◌-◌, Bool, true, false, not, ◌||◌, none, some, ◌==◌, opt_eq, if◌then◌else◌}
use mark.ThreadList.Ring.{head?, last?}
use mark.ThreadList.{ThreadId, ListId, pivot_list}
use mark.Kernel.State.{Kernel, fault}

module _ {M : Type 0} where
  -- `Quantum::SetInTimer`
  unfoldable pub set_in_timer : Kernel M → Kernel M
  set_in_timer k = record k {
    in_timer = true;
    ticks_remain = if k.ticks_remain == 0 then k.ticks_remain else k.ticks_remain - 1;
  }

  -- Whether a list has one head and tail, or none.
  abbrev pub is_single : ListId → Kernel M → Bool
  is_single l k = opt_eq (head? (k.lists.list l).members) (last? (k.lists.list l).members)

  unfoldable pub pivot_active : ThreadId → Kernel M → Kernel M
  pivot_active t k = elim (k.thread t).current [
    | none ↦ fault k
    | some l ↦ record k {
      lists = if not (is_single l k) then pivot_list l k.lists else k.lists;
      active_thread = none;
    }
  ]

  -- `Quantum::ClearInTimer`
  unfoldable pub clear_in_timer : Kernel M → Kernel M
  unfolding pivot_active
  clear_in_timer k =
      let k' = record k { in_timer = false } in
      elim k.active_thread [
        | none ↦ k'
        | some t ↦ if k.ticks_remain == 0 then pivot_active t k' else k'
      ]

  -- `Quantum::Update`
  unfoldable pub update : ThreadId → Kernel M → Kernel M
  update t k = elim (k.thread t).current [
    | none ↦ fault k
    | some l ↦
        if is_single l k
          || opt_eq (some t) k.timer_thread
          || opt_eq (some t) k.active_thread
          || k.in_timer
        then k
        else record k { active_thread = some t; ticks_remain = (k.thread t).quantum }
  ]

  -- `Quantum::Cancel`
  abbrev pub cancel : Kernel M → Kernel M
  cancel k = record k { active_thread = none; ticks_remain = 0 }
