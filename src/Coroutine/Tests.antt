-- ===== src/Coroutine/Tests.antt =====
-- The scheduler of src/cosched.cpp with eight priorities in a word of 32 bits, and two coroutines.
use mark.Prelude.{ℕ, ◌≡◌, refl, Bool, true, false, none, some, arith, update, ◌∷◌, []}
use mark.PrioMap.LevelOne.{MapL1, map_l1}
use mark.PrioMap.LevelOne
use mark.PrioMap.Word.{priority_from_bitmap}
use mark.PrioMap.Interface.{PriorityMap}
use mark.Coroutine.{
  Coroutine, CoScheduler, init_scheduler, init, activate, dequeue, run, schedule, set_priority,
}
use mark.Coroutine.Sound.{IsSound}
use mark.Coroutine.Boot.{at_start, nobody, init_scheduler-IsSound}
use mark.Coroutine.Choice.{IsChoice}
use mark.Coroutine.Runs.{Calls, inits, activates, done, call, calls-schedule, calls-IsSound}
use mark.Coroutine.Task.{ran, held, contains-ran}
use mark.ThreadList.Ring.{contains}

abbrev map : PriorityMap MapL1
map = map_l1 5 8 (omega arith) (omega arith)

abbrev unused : ℕ → Coroutine
unused c = record { owner = none; handler = 0; context = 0; priority = 0; queued = false }

abbrev start : CoScheduler MapL1
start = init_scheduler ⦃pm = map⦄ (at_start map unused)

abbrev with_seven : CoScheduler MapL1
with_seven = init ⦃pm = map⦄ 7 2 0 0 start

abbrev with_both : CoScheduler MapL1
with_both = init ⦃pm = map⦄ 5 4 0 0 with_seven

abbrev one_active : CoScheduler MapL1
one_active = activate ⦃pm = map⦄ 7 with_both

abbrev both_active : CoScheduler MapL1
both_active = activate ⦃pm = map⦄ 5 one_active

higher_first : schedule ⦃pm = map⦄ both_active ≡ some 5
unfolding init_scheduler init activate schedule LevelOne.highest_priority LevelOne.set
    LevelOne.clear LevelOne.empty priority_from_bitmap
higher_first = refl

lower_next : schedule ⦃pm = map⦄ (dequeue ⦃pm = map⦄ 5 both_active) ≡ some 7
unfolding init_scheduler init activate schedule dequeue LevelOne.highest_priority LevelOne.set
    LevelOne.clear LevelOne.empty priority_from_bitmap
lower_next = refl

raised : schedule ⦃pm = map⦄ (set_priority ⦃pm = map⦄ 7 6 both_active) ≡ some 7
unfolding init_scheduler init activate schedule set_priority LevelOne.highest_priority LevelOne.set
    LevelOne.clear LevelOne.empty priority_from_bitmap
raised = refl

five_gone : update nobody 7 false 5 ≡ true
five_gone = refl

abbrev both_present : ℕ → Bool
both_present = update (update nobody 7 false) 5 false

two_calls : Calls map nobody start both_present both_active
unfolding init_scheduler init activate
two_calls = call (inits nobody start 7 2 0 0 refl) (
    call (inits (update nobody 7 false) with_seven 5 4 0 0 five_gone) (
      call (activates both_present with_both 7 refl (omega arith)) (
        call (activates both_present one_active 5 refl (omega arith))
          (done both_present both_active))))

calls-schedule_example :
    IsSound map both_present both_active
    × IsChoice both_present both_active (schedule ⦃pm = map⦄ both_active)
calls-schedule_example = calls-schedule map unused two_calls

both_ran : ran ⦃pm = map⦄ (λ h c x s. s) 3 both_active ≡ (5 ∷ 7 ∷ [])
unfolding ran init_scheduler init activate schedule run LevelOne.highest_priority LevelOne.set
    LevelOne.clear LevelOne.empty priority_from_bitmap
both_ran = refl

two_held : held both_active.list 8 ≡ 2
unfolding init_scheduler init activate
two_held = refl

seven_queued : (both_active.coroutine 7).queued ≡ true
unfolding init_scheduler init activate
seven_queued = refl

contains-ran_example : contains (ran ⦃pm = map⦄ (λ h c x s. s) 2 both_active) 7 ≡ true
contains-ran_example =
    contains-ran map both_present (λ h c x s. s) (λ h c x s. refl) 2 7 both_active
      (calls-IsSound map two_calls (init_scheduler-IsSound map unused)) (omega (arith, two_held))
      refl seven_queued
