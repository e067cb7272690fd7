-- ===== src/Kernel/Tests/Waiting.antt =====
-- The theorems on a claim that blocks, a broadcast and a round of the timers, at the small system.
use mark.Prelude.{ℕ, ◌≡◌, refl, true, false, some, [], ◌∷◌, arith, if◌then◌else◌}
use mark.PrioMap.LevelOne.{MapL1}
use mark.ThreadList.Ring.{contains}
use mark.Kernel.State.{Kernel}
use mark.Kernel.Quiet.{objects}
use mark.Kernel.Blocking.Moves.{Waits}
use mark.Kernel.Mutex.{claim}
use mark.Kernel.Mutex.Waiting.{claim-Waits}
use mark.Kernel.CondVar.{post_all}
use mark.Kernel.CondVar.Laws.{IsWaitedFor, Broadcasted, post_all-Broadcasted}
use mark.Kernel.TimerList.{process_from}
use mark.Kernel.TimerList.Round.{Counting, down, process_from-all}
use mark.ThreadList.{add}
use mark.Kernel.Scheduler.{init, init_lists}
use mark.Kernel.Tests.{eight, system}

-- Mutex 0 is held by thread 1.
abbrev taken : Kernel MapL1
taken = record (system 30) {
  mutex = λ i. record ((system 30).mutex i) { is_ready = false; owner = some 1; max_pri = 5 };
}

claim-Waits_example :
    (k' : Kernel MapL1) × (claim ⦃pm = eight⦄ (λ s. s) 0 taken ≡ k')
    × Waits 0 21 (objects taken) (objects k')
    × ((k'.mutex 0).owner ≡ some 1)
    × ((k'.mutex 0).is_ready ≡ false)
claim-Waits_example =
    claim-Waits ⦃pm = eight⦄ (λ s. s) 0 taken refl refl (λ e. absurd (omega arith))

-- Thread 1 waits for condition variable 0, and another that is counted has timed out.
abbrev two_wait : Kernel MapL1
two_wait = record (system 20) { condvar = λ i. record { waiters = 2; lock = 0; semaphore = 0 } }

one_waits : IsWaitedFor ⦃pm = eight⦄ (λ s. s) 0 20 (1 ∷ []) two_wait
unfolding add init init_lists
one_waits = record {
  counted = omega arith;
  blocks = refl;
  waiting = record {
    members = refl;
    once = refl;
    at_home = λ t h. ground (arith, h);
    away = λ t h. ground (arith, h);
  };
}

post_all-Broadcasted_example :
    Broadcasted ⦃pm = eight⦄
      (λ s. s)
      0
      20
      (1 ∷ [])
      two_wait
      (post_all ⦃pm = eight⦄ (λ s. s) 255 0 two_wait)
post_all-Broadcasted_example =
    post_all-Broadcasted ⦃pm = eight⦄ (λ s. s) 0 20 255 (1 ∷ []) two_wait one_waits (omega arith)

-- Two timers run.
abbrev running : Kernel MapL1
running = record (system 30) { timer_list = 3 ∷ 6 ∷ [] }

all-Counting : (j : ℕ) → contains (3 ∷ 6 ∷ []) j ≡ true → Counting (running.timer j)
all-Counting j h = record { on = refl; later = omega arith; fits = omega arith }

process_from-all_example :
    (process_from ⦃pm = eight⦄ (λ s. s) (λ cb t k. k) 2 (some 3) running).timer 6
    ≡ (if contains (3 ∷ 6 ∷ []) 6 then down (running.timer 6) else running.timer 6)
process_from-all_example =
    process_from-all ⦃pm = eight⦄ (λ s. s) (λ cb t k. k) 2 running refl all-Counting (omega arith) 6
