-- ===== src/Auth/RateLimiter.antt =====
-- `PasswordRateLimiter` of src/auth/utils/PasswordRateLimiter.ts. The clock is an argument; the
-- sweep timer is a flag, and each of its ticks is an event.
pub mod Throttle
pub mod Bounds
mod Tests
use perfect_ws.Base.{
  ℕ, ◌+◌, String, Bool, true, false, not, ◌&&◌, Option, none, some, List, [], ◌∷◌, leb,
  if◌then◌else◌, string_eq,
}
use perfect_ws.JsMap.{JsMap, size}
use perfect_ws.JsMap

pub record Entry : Type 0 where
  pub count : ℕ
  pub reset_at : ℕ

pub record Config : Type 0 where
  pub max_attempts : ℕ
  pub window_ms : ℕ
  pub max_tracked_keys : ℕ

pub record Limiter : Type 0 where
  pub attempts : JsMap String Entry
  -- `_sweepTimer !== undefined`
  pub sweeping : Bool

pub stop_sweep_if_idle : Limiter → Limiter
stop_sweep_if_idle l = elim l.attempts [ [] ↦ record l { sweeping = false } | _ ∷ _ ↦ l ]

pub drop_stale : ℕ → JsMap String Entry → JsMap String Entry
drop_stale now [] = []
drop_stale now ((k, e) ∷ m) =
    if leb e.reset_at now then drop_stale now m else (k, e) ∷ drop_stale now m

pub sweep : ℕ → Limiter → Limiter
unfolding stop_sweep_if_idle
sweep now l = stop_sweep_if_idle (record l { attempts = drop_stale now l.attempts })

pub reset : String → Limiter → Limiter
unfolding stop_sweep_if_idle
reset key l = stop_sweep_if_idle (record l { attempts = JsMap.delete l.attempts key })

-- The answer, and the limiter after it.
pub is_blocked : Config → ℕ → String → Limiter → Bool × Limiter
is_blocked c now key l = elim (JsMap.get l.attempts key) [
  | none ↦ (false, l)
  | some e ↦ if leb e.reset_at now then (false, reset key l) else (leb c.max_attempts e.count, l)
]

-- The entry that was inserted first goes when a new key would exceed the limit.
pub evict : Config → String → JsMap String Entry → JsMap String Entry
evict c key [] = []
evict c key ((k, e) ∷ m) =
    if not (JsMap.has ((k, e) ∷ m) key) && leb c.max_tracked_keys (size ((k, e) ∷ m))
    then JsMap.delete ((k, e) ∷ m) k
    else (k, e) ∷ m

pub open_window : Config → ℕ → String → Limiter → Limiter
unfolding evict
open_window c now key l = record {
  attempts =
      JsMap.set (evict c key l.attempts) key (record { count = 1; reset_at = now + c.window_ms });
  sweeping = true;
}

pub record_failure : Config → ℕ → String → Limiter → Limiter
unfolding open_window
record_failure c now key l = elim (JsMap.get l.attempts key) [
  | none ↦ open_window c now key l
  | some e ↦
      if leb e.reset_at now
      then open_window c now key l
      else record l { attempts = JsMap.set l.attempts key (record e { count = e.count + 1 }) }
]

pub stop : Limiter → Limiter
stop l = record { attempts = []; sweeping = false }

pub fresh : Limiter
fresh = record { attempts = []; sweeping = false }

pub data Event : Type 0 where
  asks fails succeeds : String → Event
  ticks stops : Event

pub step : Config → Limiter → ℕ × Event → Limiter
step c l (now, asks key) = (is_blocked c now key l).1
step c l (now, fails key) = record_failure c now key l
step c l (now, succeeds key) = reset key l
step c l (now, ticks) = if l.sweeping then sweep now l else l
step c l (now, stops) = stop l

pub run : Config → Limiter → List (ℕ × Event) → Limiter
run c l [] = l
run c l (e ∷ es) = run c (step c l e) es

pub fail_at : Config → String → Limiter → List ℕ → Limiter
fail_at c key l [] = l
fail_at c key l (t ∷ ts) = fail_at c key (record_failure c t key l) ts
