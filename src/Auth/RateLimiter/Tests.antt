-- ===== src/Auth/RateLimiter/Tests.antt =====
-- Runs of the limiter, and the theorems at concrete inputs.
use perfect_ws.Base.{ℕ, ◌≡◌, refl, inl, true, false, List, [], ◌∷◌, arith, leb}
use perfect_ws.JsMap.{get, set, has, delete}
use perfect_ws.Auth.RateLimiter.{
  Config, Event, asks, fails, ticks, fresh, run, step, fail_at, is_blocked, record_failure,
  open_window, evict, reset, sweep, drop_stale, stop_sweep_if_idle,
}
use perfect_ws.Auth.RateLimiter.Throttle.{is_blocked-fail_at}
use perfect_ws.Auth.RateLimiter.Bounds.{IsBounded, limiter-IsBounded}

computing : Unit {0}
unfolding fresh run step fail_at is_blocked record_failure open_window evict reset sweep drop_stale
    stop_sweep_if_idle get set has delete
computing = tt

abbrev config : Config
config = record { max_attempts = 3; window_ms = 60; max_tracked_keys = 2 }

-- Three failures block a key until its window is over.
blocked :
    ((is_blocked config 50 "ip" (fail_at config "ip" fresh (10 ∷ 20 ∷ 30 ∷ []))).0 ≡ true)
    × ((is_blocked config 50 "ip" (fail_at config "ip" fresh (10 ∷ 20 ∷ []))).0 ≡ false)
    × ((is_blocked config 70 "ip" (fail_at config "ip" fresh (10 ∷ 20 ∷ 30 ∷ []))).0 ≡ false)
unfolding computing
blocked = (refl, refl, refl)

abbrev history : List (ℕ × Event)
history = (1, fails "a") ∷ (2, fails "b") ∷ (3, fails "c") ∷ (4, asks "a") ∷ (90, ticks) ∷ []

is_blocked-fail_at_example :
    (is_blocked config 50 "ip" (fail_at config "ip" fresh (10 ∷ 20 ∷ 30 ∷ []))).0
    ≡ leb config.max_attempts 3
unfolding computing
is_blocked-fail_at_example =
    is_blocked-fail_at config "ip" fresh 10 50 (20 ∷ 30 ∷ []) (inl refl) (omega arith) (omega arith)

limiter-IsBounded_example : IsBounded config (run config fresh history)
limiter-IsBounded_example = limiter-IsBounded config history (omega arith)
