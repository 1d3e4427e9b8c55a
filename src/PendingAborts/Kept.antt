-- ===== src/PendingAborts/Kept.antt =====
-- An abort waits for its request.
use perfect_ws.Base.{
  ℕ, ◌+◌, ◌≤◌, ◌≡◌, ◌≢◌, refl, String, Bool, true, false, not, ◌&&◌, ◌||◌, some, List, [], ◌∷◌,
  arith, ◌==◌, string_eq, keep_if, All, Bool-cases, inl, inr, ◌∙◌,
}
use perfect_ws.JsMap.{get, delete}
use perfect_ws.JsMap.Laws.{get-set, get-set_self, get-delete, has_of_get}
use perfect_ws.PendingAborts.{
  PendingAbort, Config, Aborts, is_full, add_abort, take_abort, is_aged, clear_aborts, Event,
  aborts, begins, clears, step, run,
}

get-keep_if :
    (p : PendingAbort → Bool) (t : Aborts) (k : String) (a : PendingAbort)
    → p a ≡ true
    → get t k ≡ some a
    → get (keep_if (λ q. p q.1) t) k ≡ some a
unfolding get
get-keep_if p [] k a h g = g
get-keep_if p ((j, b) ∷ t) k a h g = ground (arith, get-keep_if p t k a h)

-- The abort waits under its key since the time or later.
pub record Waits (key : String → String → String) (client request : String) (since : ℕ) (t : Aborts)
    : Type 0 where
  pub abort : PendingAbort
  pub there : get t (key client request) ≡ some abort
  pub late : since ≤ abort.timestamp

module _ (key : String → String → String) (c : Config) where
  -- Events that leave the abort of a request alone: no start of that request, and no clean-up
  -- after its time.
  unfoldable pub Leaves : (client request : String) → ℕ → ℕ × Event key c → Type 0
  Leaves client request since (now, aborts d r) = since ≤ now
  Leaves client request since (now, begins d r) = key d r ≢ key client request
  Leaves client request since (now, clears known) = now ≤ since + c.pending_aborts_min_age

  not_aged :
      (now since : ℕ) (a : PendingAbort)
      → now ≤ since + c.pending_aborts_min_age
      → since ≤ a.timestamp
      → is_aged key c now a ≡ false
  unfolding is_aged
  not_aged now since a h l = ground arith

  added :
      (since : ℕ) (client request : String) (t : Aborts)
      → is_full key c client request t ≡ false
      → Waits key client request since (add_abort key c since client request t)
  unfolding add_abort
  added since client request t f =
      let k = key client request in
      let a : PendingAbort = record {
        client_id = client;
        request_id = request;
        timestamp = since;
      } in
      rw (f, add_abort)
        (record { abort = a; there = get-set_self (delete t k) k a; late = omega arith })

  add_abort-Waits :
      (now : ℕ) (d r client request : String) (since : ℕ) (t : Aborts)
      → since ≤ now
      → Waits key client request since t
      → Waits key client request since (add_abort key c now d r t)
  unfolding add_abort
  add_abort-Waits now d r client request since t h w =
      let k = key d r in
      let j = key client request in
      let a : PendingAbort = record { client_id = d; request_id = r; timestamp = now } in
      elim (Bool-cases (is_full key c d r t)) [
        | inl f ↦ rw (f, add_abort) w
        | inr f ↦ elim (Bool-cases (k == j)) [
          | inl e ↦
              rw (f, add_abort)
                (record { abort = a; there = get-set (delete t k) k j a ∙ rw e refl; late = h })
          | inr e ↦
              rw (f, add_abort)
                (record {
                  abort = w.abort;
                  there = get-set (delete t k) k j a ∙ rw e (get-delete t k j ∙ rw e w.there);
                  late = w.late;
                })
        ]
      ]

  take_abort-Waits :
      (d r client request : String) (since : ℕ) (t : Aborts)
      → key d r ≢ key client request
      → Waits key client request since t
      → Waits key client request since (take_abort key c d r t).1
  unfolding take_abort
  take_abort-Waits d r client request since t h w =
      let there : get (take_abort key c d r t).1 (key client request) ≡ some w.abort = ground (
        arith,
        h,
        w.there,
        get-delete t (key d r) (key client request),
        string_eq.same_iff (key d r) (key client request),
      ) in
      record { abort = w.abort; there = there; late = w.late }

  clear_aborts-Waits :
      (known : String → String → Bool) (now : ℕ) (client request : String) (since : ℕ) (t : Aborts)
      → now ≤ since + c.pending_aborts_min_age
      → Waits key client request since t
      → Waits key client request since (clear_aborts key c known now t)
  unfolding clear_aborts
  clear_aborts-Waits known now client request since t h w =
      let k = key client request in
      let fresh : PendingAbort → Bool =
        λ a. not (is_aged key c now a && not (known a.client_id a.request_id)) in
      let kept : PendingAbort → Bool =
        λ a. known a.client_id a.request_id || not (is_aged key c now a) in
      let young = not_aged now since w.abort h w.late in
      let first = get-keep_if fresh t k w.abort (ground (arith, young)) w.there in
      let second =
        get-keep_if kept (keep_if (λ p. fresh p.1) t) k w.abort (ground (arith, young)) first in
      record { abort = w.abort; there = ground (arith, first, second); late = w.late }

  run-Waits :
      (client request : String) (since : ℕ) (t : Aborts) (es : List (ℕ × Event key c))
      → All (Leaves client request since) es
      → Waits key client request since t
      → Waits key client request since (run key c t es)
  unfolding run step Leaves
  run-Waits client request since t [] h w = w
  run-Waits client request since t ((now, aborts d r) ∷ es) (h, hs) w =
      run-Waits client request since (step key c t (now, aborts d r)) es hs
        (add_abort-Waits now d r client request since t h w)
  run-Waits client request since t ((now, begins d r) ∷ es) (h, hs) w =
      run-Waits client request since (step key c t (now, begins d r)) es hs
        (take_abort-Waits d r client request since t h w)
  run-Waits client request since t ((now, clears known) ∷ es) (h, hs) w =
      run-Waits client request since (step key c t (now, clears known)) es hs
        (clear_aborts-Waits known now client request since t h w)

  -- An abort that comes while its table has room is not lost: whatever other aborts come later,
  -- whatever other requests begin, and whatever rounds of clean-up pass within
  -- `pendingAbortsMinAge`, its request is aborted when it begins.
  pub take_abort-add_abort :
      (client request : String) (since : ℕ) (t : Aborts) (es : List (ℕ × Event key c))
      → is_full key c client request t ≡ false
      → All (Leaves client request since) es
      → (take_abort key c client request (run key c (add_abort key c since client request t) es)).0
        ≡ true
  unfolding take_abort
  take_abort-add_abort client request since t es f hs =
      let w =
        run-Waits client request since (add_abort key c since client request t) es hs
          (added since client request t f) in
      rw (has_of_get _ (key client request) w.abort w.there) refl
