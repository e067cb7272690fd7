-- ===== src/Profile/Tests.antt =====
-- The profiling timer of src/profile.cpp over two blocks of code, one across the wrap of the ticks.
use mark.Prelude.{ℕ, ◌+◌, ◌*◌, ◌≤◌, ◌<◌, ◌≡◌, refl, true, [], ◌∷◌, arith}
use mark.Profile.{ProfileTimer, init, start, stop, get_average, get_current}
use mark.Profile.Average.{Block, measure_all, get_average-measure_all}

abbrev unused : ProfileTimer
unused = record {
  start_ticks = 3;
  current_iteration = 9;
  cumulative = 4;
  iterations = 1;
  active = true;
}

abbrev wrapping : Block
wrapping = record { begins = 4294967290; again = 4294967291; takes = 11 }

abbrev later : Block
later = record { begins = 4294967400; again = 4294967405; takes = 6 }

-- 17 ticks in two iterations.
average_up : get_average (measure_all (later ∷ wrapping ∷ []) (init unused)) ≡ 9
unfolding init start stop get_average
average_up = refl

while_running : get_current 4 (start 4294967290 (init unused)) ≡ 10
unfolding init start get_current
while_running = refl

get_average-measure_all_example :
    (2 * get_average (measure_all (later ∷ wrapping ∷ []) (init unused)) ≤ 18)
    × (18 < 2 * (get_average (measure_all (later ∷ wrapping ∷ []) (init unused)) + 1))
    × ((ticks : ℕ) → get_current ticks (measure_all (later ∷ wrapping ∷ []) (init unused)) ≡ 6)
get_average-measure_all_example =
    get_average-measure_all later (wrapping ∷ []) unused (omega arith) (omega arith)
