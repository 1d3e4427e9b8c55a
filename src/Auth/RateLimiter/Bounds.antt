-- ===== src/Auth/RateLimiter/Bounds.antt =====
-- How many keys the limiter tracks, and when its sweep timer runs.
use perfect_ws.Base.{
  ℕ, ◌+◌, ◌≤◌, ◌<◌, ◌≡◌, refl, ◌⊎◌, inl, inr, String, Bool, true, none, some, Option-cases,
  Bool-cases, List, [], ◌∷◌, arith, string_eq, beq_refl, ltb,
}
use perfect_ws.JsMap.{JsMap, get, set, delete, size}
use perfect_ws.JsMap.Laws.{size-set-le, size-set_old, size-delete-le, has_absent, has_of_get}
use perfect_ws.Auth.RateLimiter.{
  Entry, Config, Limiter, Event, asks, fails, succeeds, ticks, stops, stop_sweep_if_idle,
  drop_stale, sweep, reset, is_blocked, evict, open_window, record_failure, stop, fresh, step, run,
}

pub record IsBounded (c : Config) (l : Limiter) : Type 0 where
  pub tracked : size l.attempts ≤ c.max_tracked_keys
  -- the timer runs exactly while there is something to sweep
  pub timer : l.sweeping ≡ ltb 0 (size l.attempts)

size-drop_stale : (now : ℕ) (m : JsMap String Entry) → size (drop_stale now m) ≤ size m
unfolding drop_stale
size-drop_stale now [] = omega arith
size-drop_stale now ((k, e) ∷ m) = ground (arith, size-drop_stale now m)

stop_sweep_if_idle-IsBounded :
    (c : Config) (m : JsMap String Entry) (s : Bool)
    → size m ≤ c.max_tracked_keys
    → (s ≡ true) ⊎ (s ≡ ltb 0 (size m))
    → IsBounded c (stop_sweep_if_idle (record { attempts = m; sweeping = s }))
unfolding stop_sweep_if_idle
stop_sweep_if_idle-IsBounded c [] s h k = ground arith
stop_sweep_if_idle-IsBounded c (p ∷ m) s h k = ground arith

size-delete_head :
    (k : String) (e : Entry) (m : JsMap String Entry) → size (delete ((k, e) ∷ m) k) ≤ size m
unfolding delete
size-delete_head k e m = rw (beq_refl k) (size-delete-le m k)

size-evict :
    (c : Config) (key : String) (m : JsMap String Entry)
    → 0 < c.max_tracked_keys
    → size m ≤ c.max_tracked_keys
    → (get m key ≡ none → size (evict c key m) < c.max_tracked_keys)
      × (size (evict c key m) ≤ c.max_tracked_keys)
unfolding evict
size-evict c key [] p h = (λ _. p, omega arith)
size-evict c key ((k, e) ∷ m) p h =
    ground (arith, size-delete_head k e m, has_absent ((k, e) ∷ m) key)

get-evict_present :
    (c : Config) (key : String) (e : Entry) (m : JsMap String Entry)
    → get m key ≡ some e
    → evict c key m ≡ m
unfolding evict
get-evict_present c key e [] h = refl
get-evict_present c key e ((k, f) ∷ m) h = rw (has_of_get ((k, f) ∷ m) key e h)

size-set-pos : (m : JsMap String Entry) (k : String) (e : Entry) → 0 < size (set m k e)
unfolding set
size-set-pos [] k e = omega arith
size-set-pos ((j, f) ∷ m) k e = ground arith

open_window-IsBounded :
    (c : Config) (now : ℕ) (key : String) (l : Limiter)
    → 0 < c.max_tracked_keys
    → IsBounded c l
    → IsBounded c (open_window c now key l)
unfolding open_window
open_window-IsBounded c now key l p b =
    let e : Entry = record { count = 1; reset_at = now + c.window_ms } in
    let room = size-evict c key l.attempts p b.tracked in
    elim (Option-cases (get l.attempts key)) [
      | inl new ↦ record {
        tracked = omega (arith, room.0 new, size-set-le (evict c key l.attempts) key e);
        timer = ground (arith, size-set-pos (evict c key l.attempts) key e);
      }
      | inr (f, old) ↦ rw (get-evict_present c key f l.attempts old) (record {
        tracked = omega (arith, b.tracked, size-set_old l.attempts key e f old);
        timer = ground (arith, size-set-pos l.attempts key e);
      })
    ]

record_failure-IsBounded :
    (c : Config) (now : ℕ) (key : String) (l : Limiter)
    → 0 < c.max_tracked_keys
    → IsBounded c l
    → IsBounded c (record_failure c now key l)
unfolding record_failure
record_failure-IsBounded c now key l p b = elim (Option-cases (get l.attempts key)) [
  | inl e ↦ rw (e, record_failure) (open_window-IsBounded c now key l p b)
  | inr (f, e) ↦
      rw (e, record_failure)
        (ground (
          arith,
          open_window-IsBounded c now key l p b,
          size-set_old l.attempts key (record f { count = f.count + 1 }) f e,
        ))
]

shrink-IsBounded :
    (c : Config) (l : Limiter) (m : JsMap String Entry)
    → IsBounded c l
    → size m ≤ size l.attempts
    → IsBounded c (stop_sweep_if_idle (record l { attempts = m }))
shrink-IsBounded c l m b less =
    stop_sweep_if_idle-IsBounded c m l.sweeping (omega (arith, b.tracked))
      (elim (Bool-cases l.sweeping) [ inl e ↦ inl e | inr e ↦ inr (ground arith) ])

reset-IsBounded :
    (c : Config) (key : String) (l : Limiter) → IsBounded c l → IsBounded c (reset key l)
unfolding reset
reset-IsBounded c key l b =
    shrink-IsBounded c l (delete l.attempts key) b (size-delete-le l.attempts key)

is_blocked-IsBounded :
    (c : Config) (now : ℕ) (key : String) (l : Limiter)
    → IsBounded c l
    → IsBounded c (is_blocked c now key l).1
unfolding is_blocked
is_blocked-IsBounded c now key l b = elim (Option-cases (get l.attempts key)) [
  | inl e ↦ rw (e, is_blocked) b
  | inr (f, e) ↦ rw (e, is_blocked) (ground (arith, reset-IsBounded c key l b))
]

step-IsBounded :
    (c : Config) (l : Limiter) (e : ℕ × Event)
    → 0 < c.max_tracked_keys
    → IsBounded c l
    → IsBounded c (step c l e)
unfolding step sweep stop
step-IsBounded c l (now, asks key) p b = is_blocked-IsBounded c now key l b
step-IsBounded c l (now, fails key) p b = record_failure-IsBounded c now key l p b
step-IsBounded c l (now, succeeds key) p b = reset-IsBounded c key l b
step-IsBounded c l (now, ticks) p b =
    ground
      (arith, shrink-IsBounded c l (drop_stale now l.attempts) b (size-drop_stale now l.attempts))
step-IsBounded c l (now, stops) p b = ground arith

run-IsBounded_of :
    (c : Config) (l : Limiter) (es : List (ℕ × Event))
    → 0 < c.max_tracked_keys
    → IsBounded c l
    → IsBounded c (run c l es)
unfolding run
run-IsBounded_of c l [] p b = b
run-IsBounded_of c l (e ∷ es) p b = run-IsBounded_of c (step c l e) es p (step-IsBounded c l e p b)

-- If at least one key may be tracked, then after any history of questions, failures, successes,
-- sweeps and stops the limiter tracks at most `maxTrackedKeys` keys, and its sweep timer runs
-- exactly while it tracks any.
pub limiter-IsBounded :
    (c : Config) (es : List (ℕ × Event)) → 0 < c.max_tracked_keys → IsBounded c (run c fresh es)
unfolding fresh
limiter-IsBounded c es p =
    run-IsBounded_of c fresh es p (record { tracked = omega arith; timer = refl })
