-- ===== src/Kernel/Tests/Objects.antt =====
-- The theorems on the blocking objects, the timers and the mailboxes, at the small system.
use mark.Prelude.{ℕ, ◌<◌, ◌≡◌, refl, true, false, some, [], ◌∷◌, ◌++◌, arith, ◌||◌, ltb}
use mark.PrioMap.LevelOne.{MapL1}
use mark.ThreadList.Ring.{nonempty}
use mark.ThreadList.{ListId, add}
use mark.Kernel.State.{Kernel, Mailbox, ready}
use mark.Kernel.Scheduler.{init, init_lists}
use mark.Kernel.Quiet.{objects}
use mark.Kernel.Blocking.Moves.{Woken}
use mark.Kernel.Message.Laws.{take_all, send_all, wrap, take_all-send_all}
use mark.Kernel.Semaphore
use mark.Kernel.Semaphore.Laws.{posted, post-counts}
use mark.Kernel.Mutex
use mark.Kernel.Mutex.Laws.{release-claim, release-Woken}
use mark.Kernel.Notify
use mark.Kernel.Notify.Laws.{Queue, AllWoken, signal-AllWoken}
use mark.Kernel.EventFlag
use mark.Kernel.EventFlag.Laws.{Waiters, set-wakes, set-keeps}
use mark.Kernel.TimerList.Countdown.{ticks, with_left}
use mark.Kernel.TimerList.Expiring.{Ended, ticks-Ended}
use mark.Kernel.Mailbox.Slots.{write_slot, read_slot}
use mark.Kernel.Mailbox.Deque.{IsRing, contents, write_slot-contents, read_slot-contents}
use mark.Kernel.Tests.{eight, system, waiter}

-- Thread 1 is the only one on its list, and no ready list has that address.
waiting : (l : ListId) → 9 < l → ((system l).lists.list l).members ≡ 1 ∷ []
unfolding add init init_lists
waiting l far = ground arith

post-counts_example :
    ((Semaphore.post ⦃pm = eight⦄ 0 (system 30)).0
      ≡ (nonempty ((system 30).lists.list 20).members || ltb 0 2))
    × ((j : ℕ)
        → (((Semaphore.post ⦃pm = eight⦄ 0 (system 30)).1.semaphore j).value
            ≡ posted ⦃pm = eight⦄ 0 (system 30) j)
          × (((Semaphore.post ⦃pm = eight⦄ 0 (system 30)).1.semaphore j).max_value ≡ 2))
post-counts_example = post-counts ⦃pm = eight⦄ 0 (system 30)

idle : ((system 30).lists.list 20).members ≡ []
unfolding add init init_lists
idle = refl

idle_mutex : ((system 30).lists.list 21).members ≡ []
unfolding add init init_lists
idle_mutex = refl

release-claim_example :
    (Mutex.release ⦃pm = eight⦄ 0 (Mutex.claim ⦃pm = eight⦄ (λ s. s) 0 (system 30))).mutex 0
    ≡ (system 30).mutex 0
release-claim_example =
    release-claim ⦃pm = eight⦄ (λ s. s) 0 (system 30) refl refl refl refl refl refl idle_mutex 0

-- Mutex 0 is held by the running thread.
abbrev held : ListId → Kernel MapL1
held l = record (system l) {
  mutex = λ i. record ((system l).mutex i) { is_ready = false; owner = some 0; max_pri = 3 };
}

release-Woken_example :
    Woken 1 21 (objects (held 21)) (objects (Mutex.release ⦃pm = eight⦄ 0 (held 21)))
    × (((Mutex.release ⦃pm = eight⦄ 0 (held 21)).mutex 0).owner ≡ some 1)
    × (((Mutex.release ⦃pm = eight⦄ 0 (held 21)).mutex 0).is_ready ≡ false)
release-Woken_example =
    release-Woken ⦃pm = eight⦄ 0 (held 21) 1 [] refl refl (waiting 21 (omega arith)) refl
      (λ e. absurd (omega arith))

one_waits : Queue ⦃pm = eight⦄ 22 (1 ∷ []) (system 22)
one_waits = record {
  members = waiting 22 (omega arith);
  once = refl;
  at_home = λ t h. ground (arith, h);
  away = λ t h. ground (arith, h);
}

signal-AllWoken_example :
    AllWoken ⦃pm = eight⦄ 22 (1 ∷ []) (system 22) (Notify.signal ⦃pm = eight⦄ 1 0 (system 22))
    × (((Notify.signal ⦃pm = eight⦄ 1 0 (system 22)).notify 0).pending ≡ false)
signal-AllWoken_example =
    signal-AllWoken ⦃pm = eight⦄ 1 [] 1 0 22 (system 22) refl (omega arith) one_waits

one_waits_for_flags : Waiters ⦃pm = eight⦄ 0 (1 ∷ []) (system 23)
one_waits_for_flags = record {
  members = waiting 23 (omega arith);
  once = refl;
  at_home = λ t h. ground (arith, h);
  waiting = λ t h. ground arith;
}

set-wakes_example :
    (((EventFlag.set ⦃pm = eight⦄ 0 3 (system 23)).thread 1).state ≡ ready)
    × (((EventFlag.set ⦃pm = eight⦄ 0 3 (system 23)).thread 1).flag_mask ≡ 1)
set-wakes_example = set-wakes ⦃pm = eight⦄ 0 3 (1 ∷ []) (system 23) 1 one_waits_for_flags refl refl

set-keeps_example : (EventFlag.set ⦃pm = eight⦄ 0 2 (system 23)).thread 1 ≡ waiter 23
set-keeps_example = set-keeps ⦃pm = eight⦄ 0 2 (1 ∷ []) (system 23) 1 one_waits_for_flags refl

-- The running thread holds the mutex of the timers.
abbrev in_round : Kernel MapL1
in_round = record (system 30) {
  timer_list = 3 ∷ 5 ∷ [];
  mutex = λ i. record ((system 30).mutex i) { is_ready = false; owner = some 0; max_pri = 3 };
}

ticks-Ended_example :
    Ended 5
      (with_left ⦃pm = eight⦄ (λ s. s) (λ cb t k. k) 5 0 in_round)
      (ticks ⦃pm = eight⦄ (λ s. s) (λ cb t k. k) 5 2 in_round)
ticks-Ended_example =
    ticks-Ended ⦃pm = eight⦄ (λ s. s) (λ cb t k. k) 5 1 in_round refl refl (omega arith)
      (record { taken = refl; recursive = refl; own = refl; shallow = omega arith })

-- A mailbox with room for two, and one that holds an element.
abbrev empty_box : Mailbox
empty_box = (system 30).mailbox 0

empty_box-IsRing : IsRing empty_box
empty_box-IsRing = record {
  head_in = omega arith;
  tail_in = omega arith;
  count_in = omega arith;
  free_in = omega arith;
  reaches = refl;
}

abbrev one_in_box : Mailbox
one_in_box = write_slot false (7 ∷ []) empty_box

one_in_box-IsRing : IsRing one_in_box
one_in_box-IsRing = (write_slot-contents empty_box false (7 ∷ []) empty_box-IsRing (omega arith)).0

write_slot-contents_example :
    IsRing one_in_box × (contents one_in_box ≡ contents empty_box ++ ((7 ∷ []) ∷ []))
write_slot-contents_example =
    write_slot-contents empty_box false (7 ∷ []) empty_box-IsRing (omega arith)

one_used : one_in_box.free < one_in_box.count
unfolding write_slot
one_used = omega arith

read_slot-contents_example :
    IsRing (read_slot true one_in_box).1
    × (contents one_in_box ≡ (read_slot true one_in_box).0 ∷ contents (read_slot true one_in_box).1)
read_slot-contents_example = read_slot-contents one_in_box true one_in_box-IsRing one_used

take_all-send_all_example :
    ((take_all ⦃pm = eight⦄ 3 0 (send_all ⦃pm = eight⦄ 0 (4 ∷ 2 ∷ 7 ∷ []) (system 30))).0
      ≡ wrap (4 ∷ 2 ∷ 7 ∷ []))
    × (((take_all ⦃pm = eight⦄ 3 0 (send_all ⦃pm = eight⦄ 0 (4 ∷ 2 ∷ 7 ∷ []) (system 30))).1.queue
          0).messages
        ≡ [])
    × (((take_all ⦃pm = eight⦄ 3 0 (send_all ⦃pm = eight⦄ 0 (4 ∷ 2 ∷ 7 ∷ []) (system 30))).1.queue
          0).broken
        ≡ false)
take_all-send_all_example =
    take_all-send_all ⦃pm = eight⦄ 0 (4 ∷ 2 ∷ 7 ∷ []) (system 30) refl refl
      (refl, (refl, (refl, tt)))
