-- ===== src/LongTimeout/Tests.antt =====
-- A delay that takes two timers, the first of which is late.
use perfect_ws.Base.{ℕ, ◌+◌, ◌≡◌, refl, none, some, [], ◌∷◌, arith, nat_beq, if◌then◌else◌}
use perfect_ws.LongTimeout.{
  max_timer_delay, is_finite_positive_timeout, timer_delay, schedule, set_long_timeout,
}
use perfect_ws.LongTimeout.Fires.{IsCalled, set_long_timeout-IsCalled}

computing : Unit {0}
unfolding is_finite_positive_timeout timer_delay schedule set_long_timeout
computing = tt

abbrev late : ℕ → ℕ
late i = if nat_beq i 0 then 7 else 0

two_timers :
    (set_long_timeout 3 late 100 (some 0x8000_0063) ≡ some (0x8000_00c7, 93 ∷ max_timer_delay ∷ []))
    × (set_long_timeout 3 late 100 none ≡ none)
unfolding computing
two_timers = (refl, refl)

set_long_timeout-IsCalled_example :
    IsCalled (100 + 0x8000_0063) (set_long_timeout 3 late 100 (some 0x8000_0063))
set_long_timeout-IsCalled_example =
    set_long_timeout-IsCalled 2 late 100 0x8000_0063 (omega arith) (omega arith)
