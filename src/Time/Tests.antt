-- ===== src/Time/Tests.antt =====
-- deps/bundle-0.01/include/time/Timer.h at concrete inputs.
use libbundle.Prelude.{ℕ, ◌+◌, ◌*◌, ◌≤◌, ◌≡◌, refl, true, List, [], ◌∷◌, arith}
use libbundle.Time.{timer, expire}
use libbundle.Time.Timers.{fires, last_reading, fires_bound}

abbrev readings : List (ℕ × ℕ)
readings = (1040, 1040) ∷ (1100, 1101) ∷ (1200, 1200) ∷ (1250, 1250) ∷ []

fires_bound_example : 100 * fires readings (timer 1000 100) + 1000 ≤ last_reading 1000 readings
fires_bound_example = fires_bound readings (timer 1000 100) 1000 (omega arith) (omega arith)

-- At 1200 only 99 have passed since the mark at 1101.
two_fires : fires readings (timer 1000 100) ≡ 2
unfolding expire
two_fires = refl

-- Where the clock went back, the difference wraps, and the timer runs down at once.
back_in_time : (expire 999 999 (timer 1000 100)).0 ≡ true
unfolding expire
back_in_time = refl
