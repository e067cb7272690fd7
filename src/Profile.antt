-- ===== src/Profile.antt =====
-- The profiling timer: src/profile.cpp. Ticks count modulo 2 ^ 32, iterations modulo 2 ^ 16.
mod Average
mod Tests
use mark.Prelude.{ℕ, ◌+◌, ◌-◌, ◌/◌, ◌%◌, ◌^◌, Bool, true, false, ◌==◌, if◌then◌else◌}

pub record ProfileTimer : Type 0 where
  pub start_ticks : ℕ
  pub current_iteration : ℕ
  pub cumulative : ℕ
  pub iterations : ℕ
  pub active : Bool

-- The difference of two words.
abbrev pub elapsed : ℕ → ℕ → ℕ
elapsed since now = (now + 2 ^ 32 - since) % 2 ^ 32

-- `Init` leaves the field of the current iteration as it was.
unfoldable pub init : ProfileTimer → ProfileTimer
init p = record p { start_ticks = 0; cumulative = 0; iterations = 0; active = false }

-- The argument is what `Kernel::GetTicks` returns.
unfoldable pub start : ℕ → ProfileTimer → ProfileTimer
start ticks p = if p.active then p else record p { start_ticks = ticks; active = true }

unfoldable pub stop : ℕ → ProfileTimer → ProfileTimer
stop ticks p =
    let current = elapsed p.start_ticks ticks in
    if p.active
    then record p {
      current_iteration = current;
      cumulative = (p.cumulative + current) % 2 ^ 32;
      iterations = (p.iterations + 1) % 2 ^ 16;
      active = false;
    }
    else p

unfoldable pub get_average : ProfileTimer → ℕ
get_average p =
    if p.iterations == 0 then 0 else (p.cumulative + p.iterations / 2) % 2 ^ 32 / p.iterations

unfoldable pub get_current : ℕ → ProfileTimer → ℕ
get_current ticks p = if p.active then elapsed p.start_ticks ticks else p.current_iteration
