-- ===== src/Auth/RateLimiter/Throttle.antt =====
-- When a key is blocked.
use perfect_ws.Base.{
  ℕ, ◌+◌, ◌≤◌, ◌<◌, ◌≡◌, ◌⊎◌, inl, inr, String, none, some, List, [], ◌∷◌, arith, leb, length, All,
  string_eq,
}
use perfect_ws.JsMap.{get}
use perfect_ws.JsMap.Laws.{get-set_self}
use perfect_ws.Auth.RateLimiter.{
  Entry, Config, Limiter, is_blocked, open_window, record_failure, fail_at,
}

-- The key has no entry, or one whose window is over.
abbrev pub IsIdle : ℕ → String → Limiter → Type 0
IsIdle now key l =
    (get l.attempts key ≡ none) ⊎ ((e : Entry) × (get l.attempts key ≡ some e) × (e.reset_at ≤ now))

open_window_lem :
    (c : Config) (now : ℕ) (key : String) (l : Limiter)
    → get (open_window c now key l).attempts key
      ≡ some (record { count = 1; reset_at = now + c.window_ms })
unfolding open_window
open_window_lem c now key l = get-set_self _ key _

record_failure-first :
    (c : Config) (now : ℕ) (key : String) (l : Limiter)
    → IsIdle now key l
    → record_failure c now key l ≡ open_window c now key l
unfolding record_failure
record_failure-first c now key l (inl e) = rw (e, record_failure)
record_failure-first c now key l (inr (e, h, old)) = rw (h, record_failure) (ground arith)

record_failure-next :
    (c : Config) (now n r : ℕ) (key : String) (l : Limiter)
    → get l.attempts key ≡ some (record { count = n; reset_at = r })
    → now < r
    → get (record_failure c now key l).attempts key ≡ some (record { count = n + 1; reset_at = r })
unfolding record_failure
record_failure-next c now n r key l h t =
    rw (h, record_failure)
      (ground (arith, get-set_self l.attempts key (record { count = n + 1; reset_at = r })))

fail_at-count :
    (c : Config) (n r : ℕ) (key : String) (l : Limiter) (ts : List ℕ)
    → get l.attempts key ≡ some (record { count = n; reset_at = r })
    → All (λ t. t < r) ts
    → get (fail_at c key l ts).attempts key ≡ some (record { count = n + length ts; reset_at = r })
unfolding fail_at
fail_at-count c n r key l [] h w = rw h (ground arith)
fail_at-count c n r key l (t ∷ ts) h (w, ws) =
    let rest =
      fail_at-count c (n + 1) r key (record_failure c t key l) ts
        (record_failure-next c t n r key l h w) ws in
    ground (arith, rest)

is_blocked_live :
    (c : Config) (now n r : ℕ) (key : String) (l : Limiter)
    → get l.attempts key ≡ some (record { count = n; reset_at = r })
    → now < r
    → (is_blocked c now key l).0 ≡ leb c.max_attempts n
unfolding is_blocked
is_blocked_live c now n r key l h w = rw (h, is_blocked) (ground arith)

-- When a key that is idle at a time fails then, and again at any later times before the window
-- that this opens is over, and the limiter does nothing else in between (no failure of another key,
-- which may evict this one, no success, and no clean-up), then until the end of that window the key is
-- blocked exactly when its failures have reached `maxAttempts`.
pub is_blocked-fail_at :
    (c : Config) (key : String) (l : Limiter) (start now : ℕ) (later : List ℕ)
    → IsIdle start key l
    → All (λ t. t < start + c.window_ms) later
    → now < start + c.window_ms
    → (is_blocked c now key (fail_at c key l (start ∷ later))).0
      ≡ leb c.max_attempts (1 + length later)
unfolding fail_at
is_blocked-fail_at c key l start now later idle within h =
    is_blocked_live c now (1 + length later) (start + c.window_ms) key _
      (fail_at-count c 1 (start + c.window_ms) key (record_failure c start key l) later
        (rw (record_failure-first c start key l idle) (open_window_lem c start key l)) within)
      h
