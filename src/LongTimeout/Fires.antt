-- ===== src/LongTimeout/Fires.antt =====
-- The callback is called, once its time has come.
use perfect_ws.Base.{
  ℕ, suc, zero, ◌+◌, ◌-◌, ◌*◌, ◌≤◌, ◌<◌, ◌≡◌, refl, inl, inr, Bool-cases, false, Option, some, List,
  [], ◌∷◌, leb, arith, All, le→leb, lt→ltb,
}
use perfect_ws.LongTimeout.{
  max_timer_delay, is_finite_positive_timeout, timer_delay, schedule, set_long_timeout,
}

-- The callback is called, not before the deadline, and no timer was set for more than the
-- platform admits.
pub record IsCalled (deadline : ℕ) (outcome : Option (ℕ × List ℕ)) : Type 0 where
  pub time : ℕ
  pub timers : List ℕ
  pub called : outcome ≡ some (time, timers)
  pub due : deadline ≤ time
  pub admitted : All (λ d. d ≤ max_timer_delay) timers

timer_delay-le : (remaining : ℕ) → timer_delay remaining ≤ max_timer_delay
unfolding timer_delay
timer_delay-le remaining = ground arith

progress :
    (n deadline now l : ℕ)
    → deadline ≤ now + suc n * max_timer_delay
    → leb deadline now ≡ false
    → deadline ≤ now + timer_delay (deadline - now) + l + n * max_timer_delay
unfolding timer_delay
progress n deadline now l h e = ground arith

schedule-IsCalled :
    (n : ℕ) (late : ℕ → ℕ) (i deadline now : ℕ) (timers : List ℕ)
    → deadline ≤ now + n * max_timer_delay
    → All (λ d. d ≤ max_timer_delay) timers
    → IsCalled deadline (schedule (suc n) late i deadline now timers)
unfolding schedule
schedule-IsCalled zero late i deadline now timers h a =
    rw (le→leb deadline now (omega (arith, h)))
      (record { time = now; timers = timers; called = refl; due = omega (arith, h); admitted = a })
schedule-IsCalled (suc n) late i deadline now timers h a = elim (Bool-cases (leb deadline now)) [
  | inl e ↦
      rw e (record { time = now; timers = timers; called = refl; due = ground arith; admitted = a })
  | inr e ↦
      let d = timer_delay (deadline - now) in
      rw e (
        schedule-IsCalled n late (i + 1) deadline (now + d + late i) (d ∷ timers)
          (progress n deadline now (late i) h e) (timer_delay-le (deadline - now), a))
]

-- If a delay is positive and at most `n` times `MAX_TIMER_DELAY`, then `n + 1` calls of `schedule`
-- are enough, however late the timers fire: the callback is called, not before its time, and no
-- timer is set for more than `MAX_TIMER_DELAY`.
pub set_long_timeout-IsCalled :
    (n : ℕ) (late : ℕ → ℕ) (now delay : ℕ)
    → 0 < delay
    → delay ≤ n * max_timer_delay
    → IsCalled (now + delay) (set_long_timeout (suc n) late now (some delay))
unfolding set_long_timeout is_finite_positive_timeout
set_long_timeout-IsCalled n late now delay p h =
    rw (lt→ltb 0 delay p) (schedule-IsCalled n late 0 (now + delay) now [] (omega (arith, h)) tt)
