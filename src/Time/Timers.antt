-- ===== src/Time/Timers.antt =====
-- How often a timer of deps/bundle-0.01/include/time/Timer.h runs down, and the arithmetic of src/time/Time.cpp.
use libbundle.Prelude.{
  subst, sym, ◌⊎◌, ℕ, suc, ◌+◌, ◌-◌, ◌*◌, ◌%◌, ◌≤◌, ◌<◌, ◌≡◌, refl, Bool, true, false, List, [],
  ◌∷◌, leb, arith, Bool-cases, inl, inr,
}
use libbundle.ByteBuffer.{size_max}
use libbundle.Time.{Timer, expire, of_milliseconds, milliseconds, millisecond_part}

-- The two readings of the clock in each call of the timer, where the clock does not go back.
abbrev pub IsClock : ℕ → List (ℕ × ℕ) → Type 0
IsClock start [] = Unit
IsClock start ((now, after) ∷ cs) =
    (start ≤ now) × (now ≤ after) × (after < size_max) × IsClock after cs

abbrev pub last_reading : ℕ → List (ℕ × ℕ) → ℕ
last_reading start [] = start
last_reading start ((now, after) ∷ cs) = last_reading after cs

abbrev pub count_if : Bool → ℕ → ℕ
count_if true n = suc n
count_if false n = n

-- How many of the calls return true.
abbrev pub fires : List (ℕ × ℕ) → Timer → ℕ
fires [] t = 0
fires ((now, after) ∷ cs) t = let done = expire now after t in count_if done.0 (fires cs done.1)

elapsed :
    (last now : ℕ) → last ≤ now → now < size_max → (size_max + now - last) % size_max ≡ now - last
elapsed last now h k = omega arith

expire_cases :
    (now after : ℕ) (t : Timer)
    → t.last_scale ≤ now
    → now < size_max
    → ((expire now after t
          ≡ (true, record { last_scale = after; interval_milliseconds = t.interval_milliseconds }))
        × (t.interval_milliseconds + t.last_scale ≤ now))
      ⊎ (expire now after t ≡ (false, t))
unfolding expire
expire_cases now after t h k =
    let d = elapsed t.last_scale now h k in
    elim (Bool-cases (leb t.interval_milliseconds (now - t.last_scale))) [
      | inl e ↦ inl (rw (d, e) refl, ground arith)
      | inr e ↦ inr (rw (d, e) refl)
    ]

one_more : (i n : ℕ) → i * suc n ≡ i + i * n
one_more i n = omega arith

-- A timer whose clock does not go back runs down at most once in every interval: the number of calls that
-- return true, times the interval, is at most the time between its last mark and the last reading of the clock.
pub fires_bound :
    (cs : List (ℕ × ℕ)) (t : Timer) (start : ℕ)
    → t.last_scale ≤ start
    → IsClock start cs
    → t.interval_milliseconds * fires cs t + t.last_scale ≤ last_reading start cs
fires_bound [] t start h k = omega arith
fires_bound ((now, after) ∷ cs) t start h (k, l, m, c) =
    elim (expire_cases now after t (omega arith) (omega arith)) [
      | inl (e, waited) ↦
          let again : Timer = record {
            last_scale = after;
            interval_milliseconds = t.interval_milliseconds;
          } in
          subst
            (λ r.
              t.interval_milliseconds * count_if r.0 (fires cs r.1) + t.last_scale
              ≤ last_reading after cs)
            (sym e)
            (omega (
              arith,
              one_more t.interval_milliseconds (fires cs again),
              fires_bound cs again after (omega arith) c,
            ))
      | inr e ↦
          subst
            (λ r.
              t.interval_milliseconds * count_if r.0 (fires cs r.1) + t.last_scale
              ≤ last_reading after cs)
            (sym e) (fires_bound cs t after (omega arith) c)
    ]

-- A number of milliseconds is kept.
milliseconds-of_milliseconds : (ms : ℕ) → ms < size_max → milliseconds (of_milliseconds ms) ≡ ms
unfolding milliseconds of_milliseconds millisecond_part
milliseconds-of_milliseconds ms h = omega arith
