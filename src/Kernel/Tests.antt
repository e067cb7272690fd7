-- ===== src/Kernel/Tests.antt =====
-- The theorems at a small system: eight priorities, a running thread 0 and a thread 1 on one list.
mod Creation
mod Objects
mod Waiting
use mark.Prelude.{
  ℕ, ◌≤◌, ◌<◌, ◌≡◌, refl, Bool, true, false, inl, inr, Option, none, some, List, [], ◌∷◌, arith,
  ◌==◌, ltb, if◌then◌else◌, ◌⊎◌,
}
use mark.PrioMap.Interface.{PriorityMap}
use mark.PrioMap.LevelOne.{MapL1, map_l1}
use mark.ThreadList.{ThreadId, ListId, ListStore, add}
use mark.ThreadList.Consistent.{
  IsConsistent, ready_list, add_ready-IsConsistent, add_plain-IsConsistent,
}
use mark.Kernel.State.{Kernel, Thread, ready, blocked, all_set, EventFlagOperation, no_callback}
use mark.Kernel.State
use mark.Kernel.Scheduler.{init, yield}
use mark.Kernel.Boot.{fresh_lists, init-IsConsistent}
use mark.Kernel.Choice.{Chosen, Idle, schedule-highest}
use mark.Kernel.Stack.{IsEdge, get_stack_slack, get_stack_slack-edge}
use mark.Kernel.Sound.{IsSound}
use mark.Kernel.Semaphore
use mark.Kernel.Runs.{Run, go, posts, stay, yields}
use mark.Kernel.Runs.Reach.{reachable-Sound, reachable-schedule}

abbrev pub eight : PriorityMap MapL1
eight = map_l1 3 8 (omega arith) (omega arith)

pub fits : 8 ≤ 8
fits = omega arith

abbrev pub runner : Thread
runner = record {
  priority = 3;
  cur_priority = 3;
  state = ready;
  current = some 4;
  owner = some 4;
  quantum = 4;
  flag_mask = 1;
  flag_mode = all_set;
  expired = false;
  stack_size = 64;
  untouched = λ w. true;
  timer = 0;
}

-- Thread 1 is on list `l`.
abbrev pub waiter : ListId → Thread
waiter l = record runner { priority = 5; cur_priority = 5; state = blocked; current = some l }

abbrev pub lists_at : ListId → ListStore MapL1
lists_at l =
    add ⦃pm = eight⦄ l 1
      (add ⦃pm = eight⦄ (ready_list 3) 0 (init ⦃pm = eight⦄ 8 (fresh_lists ⦃pm = eight⦄)))

abbrev pub system : ListId → Kernel MapL1
system l = record {
  lists = lists_at l;
  thread = λ t. if t == 1 then waiter l else runner;
  enabled = true;
  queued = false;
  current = 0;
  next = some 0;
  started = true;
  switch_requests = 0;
  panics = [];
  faulted = false;
  guard_threshold = 0;
  ticks_remain = 0;
  active_thread = none;
  timer_thread = none;
  in_timer = false;
  semaphore = λ i. record { value = 0; max_value = 2; block_list = 20; initialized = true };
  mutex = λ i. record {
    recurse = 0;
    is_ready = true;
    recursive = true;
    max_pri = 0;
    owner = none;
    block_list = 21;
    initialized = true;
  };
  notify = λ i. record { pending = false; block_list = 22; initialized = true };
  event_flag = λ i. record { set_mask = 0; block_list = 23; initialized = true };
  condvar = λ i. record { waiters = 0; lock = 0; semaphore = 0 };
  rwlock = λ i. record { read_count = 0; global_mutex = 0; reader_mutex = 1 };
  queue = λ i. record { semaphore = 0; messages = []; broken = false };
  mailbox = λ i. record {
    head = 0;
    tail = 0;
    count = 2;
    free = 2;
    element_size = 1;
    slot = λ j. [];
    recv_sem = 0;
    send_sem = 1;
  };
  timer = λ i. record {
    initialized = true;
    one_shot = true;
    active = true;
    expired = false;
    interval = 2;
    time_left = 2;
    owner = 1;
    callback = no_callback;
  };
  timer_list = [];
  timer_mutex = 9;
}

system-IsSound : IsSound ⦃pm = eight⦄ 8 (system 20)
system-IsSound = record {
  consistent =
      add_plain-IsConsistent ⦃pm = eight⦄ 8 fits 20 (inr (omega arith)) _
        (add_ready-IsConsistent ⦃pm = eight⦄ 8 fits 3 0
          (init ⦃pm = eight⦄ 8 (fresh_lists ⦃pm = eight⦄)) (omega arith)
          (init-IsConsistent ⦃pm = eight⦄ 8 fits))
        1;
  in_range = λ t. ground arith;
  semaphore_apart = λ i. omega arith;
  mutex_apart = λ i. omega arith;
  notify_apart = λ i. omega arith;
  event_flag_apart = λ i. omega arith;
}

posted-Run :
    Run ⦃pm = eight⦄ 8
      (system 20)
      (yield ⦃pm = eight⦄ (Semaphore.post ⦃pm = eight⦄ 0 (system 20)).1)
posted-Run = go (posts 0 (system 20)) (
    go (yields (Semaphore.post ⦃pm = eight⦄ 0 (system 20)).1)
      (stay (yield ⦃pm = eight⦄ (Semaphore.post ⦃pm = eight⦄ 0 (system 20)).1)))

reachable-Sound_example :
    IsSound ⦃pm = eight⦄ 8 (yield ⦃pm = eight⦄ (Semaphore.post ⦃pm = eight⦄ 0 (system 20)).1)
reachable-Sound_example =
    reachable-Sound ⦃pm = eight⦄ 8 fits (system 20)
      (yield ⦃pm = eight⦄ (Semaphore.post ⦃pm = eight⦄ 0 (system 20)).1) posted-Run system-IsSound

reachable-schedule_example :
    Chosen ⦃pm = eight⦄ 8 fits (yield ⦃pm = eight⦄ (Semaphore.post ⦃pm = eight⦄ 0 (system 20)).1)
    ⊎ Idle ⦃pm = eight⦄ 8 fits (yield ⦃pm = eight⦄ (Semaphore.post ⦃pm = eight⦄ 0 (system 20)).1)
reachable-schedule_example =
    reachable-schedule ⦃pm = eight⦄ 8 fits (system 20)
      (yield ⦃pm = eight⦄ (Semaphore.post ⦃pm = eight⦄ 0 (system 20)).1) posted-Run system-IsSound

schedule-highest_example :
    Chosen ⦃pm = eight⦄ 8 fits (system 20) ⊎ Idle ⦃pm = eight⦄ 8 fits (system 20)
schedule-highest_example =
    schedule-highest ⦃pm = eight⦄ 8 fits (system 20) system-IsSound.consistent

init-IsConsistent_example :
    IsConsistent ⦃pm = eight⦄ 8 (init ⦃pm = eight⦄ 8 (fresh_lists ⦃pm = eight⦄))
init-IsConsistent_example = init-IsConsistent ⦃pm = eight⦄ 8 fits

-- A stack of sixteen words, ten of them unused.
abbrev stack_of_ten : Thread
stack_of_ten = record runner { untouched = λ w. ltb w 10 }

stack_of_ten-IsEdge : IsEdge stack_of_ten.untouched 10
stack_of_ten-IsEdge = record { below = λ i h. ground arith; above = λ i h. ground arith }

get_stack_slack-edge_example : get_stack_slack stack_of_ten ≡ 40
get_stack_slack-edge_example =
    get_stack_slack-edge stack_of_ten 10 stack_of_ten-IsEdge (omega arith) (omega arith)
