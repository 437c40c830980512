-- ===== src/Time.antt =====
-- src/time/Time.cpp, deps/bundle-0.01/include/time/Time.h and Timer.h. The clock's readings are arguments.
pub mod Timers
mod Tests
use libbundle.Prelude.{
  true, false, ℕ, ◌+◌, ◌-◌, ◌*◌, ◌/◌, ◌%◌, ◌^◌, ◌≤◌, ◌<◌, ◌≡◌, refl, Bool, ltb, leb, if◌then◌else◌,
  arith,
}
use libbundle.ByteBuffer.{size_max}

-- `_tv`.
pub record Time : Type 0 where
  pub tv_sec : ℕ
  pub tv_usec : ℕ

-- `Time(u64)` and the assignment of a number, in milliseconds.
unfoldable pub of_milliseconds : ℕ → Time
of_milliseconds ms = record { tv_sec = ms / 1000; tv_usec = ms % 1000 * 1000 }

-- `Time(u64, u64)`.
unfoldable pub of_parts : ℕ → ℕ → Time
of_parts seconds ms = record { tv_sec = seconds; tv_usec = ms * 1000 % size_max }

unfoldable pub millisecond_part : Time → ℕ
millisecond_part t = t.tv_usec / 1000

-- `milliseconds()`.
unfoldable pub milliseconds : Time → ℕ
unfolding millisecond_part
milliseconds t = (t.tv_sec * 1000 + millisecond_part t) % size_max

-- `operator +`, `-`, `>` and `<`, between times; with a number the right side is that number.
unfoldable pub plus : Time → ℕ → ℕ
unfolding milliseconds
plus t ms = (milliseconds t + ms) % size_max

unfoldable pub minus : Time → ℕ → ℕ
unfolding milliseconds
minus t ms = if leb ms (milliseconds t) then milliseconds t - ms else 0

unfoldable pub is_later : Time → Time → Bool
unfolding milliseconds
is_later t s = ltb (milliseconds s) (milliseconds t)

unfoldable pub is_earlier : Time → Time → Bool
unfolding milliseconds
is_earlier t s = ltb (milliseconds t) (milliseconds s)

-- `Timer`.
pub record Timer : Type 0 where
  pub last_scale : ℕ
  pub interval_milliseconds : ℕ

-- The constructor and `resetInterval`, whose argument is below 2 ^ 32; `resetScale`.
abbrev pub timer : ℕ → ℕ → Timer
timer now ms = record { last_scale = now; interval_milliseconds = ms }

abbrev pub reset_interval : ℕ → Timer → Timer
reset_interval ms t = record t { interval_milliseconds = ms }

abbrev pub reset_scale : ℕ → Timer → Timer
reset_scale now t = record t { last_scale = now }

-- `operator()`: the clock is read for the test, and again where the timer has run down. The difference is one
-- of u64.
unfoldable pub expire : ℕ → ℕ → Timer → Bool × Timer
expire now after t =
    if leb t.interval_milliseconds ((size_max + now - t.last_scale) % size_max)
    then (true, record t { last_scale = after })
    else (false, t)
