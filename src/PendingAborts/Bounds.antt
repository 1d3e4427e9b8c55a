-- ===== src/PendingAborts/Bounds.antt =====
-- How many aborts wait.
use perfect_ws.Base.{
  length-keep_if, ℕ, ◌+◌, ◌≤◌, ◌≡◌, String, Bool, true, not, ◌&&◌, ◌||◌, List, [], ◌∷◌, arith,
  string_eq, keep_if,
}
use perfect_ws.JsMap.{get, delete, has, size}
use perfect_ws.JsMap.Laws.{size-set-le, size-delete-le}
use perfect_ws.PendingAborts.{
  PendingAbort, Config, Aborts, is_full, add_abort, take_abort, is_aged, clear_aborts, Event,
  aborts, begins, clears, step, run,
}

size-delete_present : (t : Aborts) (k : String) → has t k ≡ true → size (delete t k) + 1 ≤ size t
unfolding has get delete
size-delete_present [] k h = absurd (ground arith)
size-delete_present ((j, a) ∷ t) k h = ground (arith, size-delete_present t k, size-delete-le t k)

module _ (key : String → String → String) (c : Config) where
  step-size :
      (t : Aborts) (e : ℕ × Event key c)
      → size t ≤ c.max_total_pending_aborts
      → size (step key c t e) ≤ c.max_total_pending_aborts
  unfolding step add_abort is_full take_abort clear_aborts
  step-size t (now, aborts client request) h =
      let k = key client request in
      let a : PendingAbort = record { client_id = client; request_id = request; timestamp = now } in
      ground (arith, size-delete_present t k, size-delete-le t k, size-set-le (delete t k) k a)
  step-size t (now, begins client request) h = ground (arith, size-delete-le t (key client request))
  step-size t (now, clears known) h =
      let fresh : String × PendingAbort → Bool =
        λ p. not (is_aged key c now p.1 && not (known p.1.client_id p.1.request_id)) in
      let kept : String × PendingAbort → Bool =
        λ p. known p.1.client_id p.1.request_id || not (is_aged key c now p.1) in
      ground (arith, length-keep_if fresh t, length-keep_if kept (keep_if fresh t))

  -- However aborts come, requests begin and rounds of clean-up pass, at most
  -- `maxTotalPendingAborts` aborts wait if no more did at first.
  pub run-size :
      (t : Aborts) (es : List (ℕ × Event key c))
      → size t ≤ c.max_total_pending_aborts
      → size (run key c t es) ≤ c.max_total_pending_aborts
  unfolding run
  run-size t [] h = h
  run-size t (e ∷ es) h = run-size (step key c t e) es (step-size t e h)
