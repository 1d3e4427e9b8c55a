-- ===== src/LongTimeout.antt =====
-- `setLongTimeout` of src/utils/setLongTimeout.ts, which the platform's timers serve whose delays
-- are bounded. A timer that was set for a delay fires after it, as late as the environment has it;
-- `late i` is the lateness of the timer that follows `i` others.
pub mod Fires
mod Tests
use perfect_ws.Base.{
  ℕ, suc, zero, ◌+◌, ◌-◌, Bool, ◌&&◌, true, false, Option, none, some, List, [], ◌∷◌, ltb, leb,
  if◌then◌else◌,
}

abbrev pub max_timer_delay : ℕ
max_timer_delay = 0x7fff_ffff

-- A delay is a number, or infinite.
pub is_finite_positive_timeout : Option ℕ → Bool
is_finite_positive_timeout none = false
is_finite_positive_timeout (some delay) = ltb 0 delay

-- `Math.min(remaining, MAX_TIMER_DELAY)`
pub timer_delay : ℕ → ℕ
timer_delay remaining = if leb remaining max_timer_delay then remaining else max_timer_delay

-- When the callback is called, and the delays of the timers that were set, the latest first;
-- `none` if that takes more than `fuel` calls of `schedule`.
pub schedule : (fuel : ℕ) → (late : ℕ → ℕ) → ℕ → (deadline now : ℕ) → List ℕ → Option (ℕ × List ℕ)
schedule zero late i deadline now timers = none
schedule (suc fuel) late i deadline now timers =
    let d = timer_delay (deadline - now) in
    let next = schedule fuel late (i + 1) deadline (now + d + late i) (d ∷ timers) in
    if leb deadline now then some (now, timers) else next

-- The call at the time `now`; `none` if no callback is called.
pub set_long_timeout : (fuel : ℕ) → (late : ℕ → ℕ) → (now : ℕ) → Option ℕ → Option (ℕ × List ℕ)
set_long_timeout fuel late now none = none
set_long_timeout fuel late now (some delay) =
    if is_finite_positive_timeout (some delay)
    then schedule fuel late 0 (now + delay) now []
    else none
