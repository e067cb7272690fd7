-- ===== src/Profile/Average.antt =====
-- What the profiling timer of src/profile.cpp measures.
use mark.Prelude.{
  ℕ, ◌+◌, ◌*◌, ◌/◌, ◌%◌, ◌^◌, ◌≤◌, ◌<◌, ◌≡◌, refl, sym, subst, ap, ◌∙◌, false, List, [], ◌∷◌, arith,
  ◌==◌, length, if_false,
}
use native.Mathlib.Nat.{mod-eq_of_lt, mul-div-le, lt-mul-div-succ}
use mark.Profile.{ProfileTimer, elapsed, init, start, stop, get_average, get_current}

-- A block of code that begins at a tick since start-up and takes a number of ticks. `Start` is called
-- again while it runs, which changes nothing.
pub record Block : Type 0 where
  pub begins : ℕ
  pub again : ℕ
  pub takes : ℕ

abbrev pub measure : Block → ProfileTimer → ProfileTimer
measure b p = stop ((b.begins + b.takes) % 2 ^ 32) (start b.again (start (b.begins % 2 ^ 32) p))

-- The blocks are measured from the last of the list to the first.
abbrev pub measure_all : List Block → ProfileTimer → ProfileTimer
measure_all [] p = p
measure_all (b ∷ bs) p = measure b (measure_all bs p)

abbrev pub total : List Block → ℕ
total [] = 0
total (b ∷ bs) = b.takes + total bs

elapsed_across :
    (begins takes : ℕ)
    → takes < 2 ^ 32
    → elapsed (begins % 2 ^ 32) ((begins + takes) % 2 ^ 32) ≡ takes
elapsed_across begins takes h = omega (arith, h)

measure-stop :
    (b : Block) (p : ProfileTimer)
    → p.active ≡ false
    → b.takes < 2 ^ 32
    → measure b p ≡ record p {
      start_ticks = b.begins % 2 ^ 32;
      current_iteration = b.takes;
      cumulative = (p.cumulative + b.takes) % 2 ^ 32;
      iterations = (p.iterations + 1) % 2 ^ 16;
      active = false;
    }
unfolding start stop
measure-stop b p idle h =
    let now = (b.begins + b.takes) % 2 ^ 32 in
    ap (λ q. stop now (start b.again q)) (if_false _ _ idle)
    ∙ ap
        (λ current. record p {
          start_ticks = b.begins % 2 ^ 32;
          current_iteration = current;
          cumulative = (p.cumulative + current) % 2 ^ 32;
          iterations = (p.iterations + 1) % 2 ^ 16;
          active = false;
        })
        (elapsed_across b.begins b.takes h)

-- The timer has measured the blocks.
pub record IsMeasured (bs : List Block) (p : ProfileTimer) : Type 0 where
  pub stopped : p.active ≡ false
  pub counted : p.iterations ≡ length bs
  pub summed : p.cumulative ≡ total bs

measure_all-IsMeasured :
    (bs : List Block) (p : ProfileTimer)
    → IsMeasured [] p
    → length bs < 2 ^ 16
    → total bs < 2 ^ 32
    → IsMeasured bs (measure_all bs p)
measure_all-IsMeasured [] p r few short = r
measure_all-IsMeasured (b ∷ bs) p r few short =
    let before = measure_all bs p in
    let ih = measure_all-IsMeasured bs p r (omega arith) (omega arith) in
    subst (IsMeasured (b ∷ bs)) (sym (measure-stop b before ih.stopped (omega arith))) (record {
      stopped = refl;
      counted = omega (arith, ih.counted, few);
      summed = omega (arith, ih.summed, short);
    })

-- The average of a timer that has measured some blocks is not out by more than the rounding.
measured_average :
    (b : Block) (bs : List Block) (p : ProfileTimer)
    → IsMeasured (b ∷ bs) p
    → total (b ∷ bs) + length (b ∷ bs) / 2 < 2 ^ 32
    → get_average p ≡ (total (b ∷ bs) + length (b ∷ bs) / 2) / length (b ∷ bs)
unfolding get_average
measured_average b bs p r short =
    let some_iteration : (p.iterations == 0) ≡ false = rw r.counted (ground arith) in
    if_false _ _ some_iteration
    ∙ rw (r.counted, r.summed) (ap (λ x. x / length (b ∷ bs)) (mod-eq_of_lt short))

-- After `Init` and the measuring of fewer than 2^16 blocks of code, one after another, whose ticks
-- with half the number of blocks come to less than 2^32, `get_average` is the mean of their ticks
-- rounded to the nearest number, a half up, also where the tick count wraps within a block, and
-- `get_current` is the ticks of the last block. A second `Start` within a block changes nothing.
pub get_average-measure_all :
    (b : Block) (bs : List Block) (p : ProfileTimer)
    → length (b ∷ bs) < 2 ^ 16
    → total (b ∷ bs) + length (b ∷ bs) / 2 < 2 ^ 32
    → (length (b ∷ bs) * get_average (measure_all (b ∷ bs) (init p))
        ≤ total (b ∷ bs) + length (b ∷ bs) / 2)
      × (total (b ∷ bs) + length (b ∷ bs) / 2
          < length (b ∷ bs) * (get_average (measure_all (b ∷ bs) (init p)) + 1))
      × ((ticks : ℕ) → get_current ticks (measure_all (b ∷ bs) (init p)) ≡ b.takes)
unfolding init get_current
get_average-measure_all b bs p few short =
    let fresh : IsMeasured [] (init p) = record { stopped = refl; counted = refl; summed = refl } in
    let before = measure_all-IsMeasured bs (init p) fresh (omega arith) (omega arith) in
    let after = measure_all-IsMeasured (b ∷ bs) (init p) fresh few (omega arith) in
    let average = measured_average b bs (measure_all (b ∷ bs) (init p)) after short in
    let x = total (b ∷ bs) + length (b ∷ bs) / 2 in
    let n = length (b ∷ bs) in
    (
      subst (λ a. n * a ≤ x) (sym average) (mul-div-le x n),
      subst (λ a. x < n * (a + 1)) (sym average) (lt-mul-div-succ x (omega arith)),
      λ ticks.
          ap (get_current ticks)
            (measure-stop b (measure_all bs (init p)) before.stopped (omega arith)),
    )
