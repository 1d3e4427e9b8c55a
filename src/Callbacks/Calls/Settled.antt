-- ===== src/Callbacks/Calls/Settled.antt =====
-- Each call is open or settled, and settled once.
use perfect_ws.Base.{
  length-keep_if, ℕ, ◌+◌, ◌≤◌, String, ◌≡◌, refl, Bool, true, not, ◌||◌, none, some, List, [], ◌∷◌,
  map, arith, ltb, leb, if◌then◌else◌, if_both, if_cases, length, length-append, keep_if, count_if,
  any, count_if-append, count_if-map, ◌==◌, nat_eq, string_eq,
}
use perfect_ws.Protocol.{WsError}
use perfect_ws.Callbacks.Calls.{
  Outcome, resolved, rejected, Calls, fresh, invoke, is_active, take_out, settle, on_response,
  reject_all, on_send_failed, release_all, Event, invokes, responds, send_fails, releases, step,
  run,
}

module _ {A : Type 0} where
  -- How often the call is open, and how often it is settled.
  pub open_count : ℕ → Calls A → ℕ
  open_count id c = count_if (λ i. i == id) c.active

  unfoldable pub settled_count : ℕ → Calls A → ℕ
  settled_count id c = count_if (λ o. o.0 == id) c.outcomes

  pub record IsOnce (max_operations : ℕ) (c : Calls A) : Type 0 where
    pub once :
        (id : ℕ) → open_count id c + settled_count id c ≡ (if ltb id c.next_call then 1 else 0)
    pub within : length c.active ≤ max_operations
    pub none_left : c.released ≡ true → c.active ≡ []

count_if-keep :
    (id j : ℕ) (xs : List ℕ)
    → count_if (λ i. i == j) (keep_if (λ i. not (i == id)) xs)
      ≡ (if j == id then 0 else count_if (λ i. i == j) xs)
count_if-keep id j [] = ground arith
count_if-keep id j (x ∷ xs) =
    ground (
      arith,
      count_if-keep id j xs,
      nat_eq.same_iff x id,
      nat_eq.same_iff x j,
      nat_eq.same_iff j id,
    )

any-count_if :
    (id : ℕ) (xs : List ℕ) → any (λ i. i == id) xs ≡ true → 1 ≤ count_if (λ i. i == id) xs
any-count_if id [] h = absurd (ground (arith, h))
any-count_if id (x ∷ xs) h = ground (arith, any-count_if id xs, h)

module _ {A : Type 0} (max_operations : ℕ) where
  take_out-IsOnce :
      (id : ℕ) (o : Outcome A) (c : Calls A)
      → is_active id c ≡ true
      → IsOnce max_operations c
      → IsOnce max_operations (take_out id o c)
  unfolding take_out is_active open_count settled_count
  take_out-IsOnce id o c e h = record {
    once = λ j. rw (count_if-keep id j c.active) (
        ground (
          arith,
          h.once j,
          any-count_if id c.active e,
          nat_eq.same_iff id j,
          nat_eq.same_iff j id,
        ));
    within = omega (arith, length-keep_if (λ i. not (i == id)) c.active, h.within);
    none_left = λ r. rw (h.none_left r) refl;
  }

  settle-IsOnce :
      (id : ℕ) (o : Outcome A) (c : Calls A)
      → IsOnce max_operations c
      → IsOnce max_operations (settle id o c)
  unfolding settle
  settle-IsOnce id o c h =
      if_cases (IsOnce max_operations) (is_active id c) _ _ (λ e. take_out-IsOnce id o c e h)
        (λ e. h)

  reject_all-IsOnce :
      (e : WsError) (c : Calls A) → IsOnce max_operations c → IsOnce max_operations (reject_all e c)
  unfolding reject_all open_count settled_count
  reject_all-IsOnce e c h = record {
    once = λ j.
        rw
          (
            count_if-append (λ (p : ℕ × Outcome A). p.0 == j) (map (λ i. (i, rejected e)) c.active)
                c.outcomes,
            count_if-map {B = Outcome A} (λ (i : ℕ). i == j) (rejected e) c.active,
          )
          (ground (arith, h.once j));
    within = omega arith;
    none_left = λ r. refl;
  }

  released-IsOnce :
      (e : WsError) (c : Calls A)
      → IsOnce max_operations (reject_all e c)
      → IsOnce max_operations (record (reject_all e c) { released = true })
  unfolding reject_all open_count settled_count
  released-IsOnce e c h = record { once = h.once; within = h.within; none_left = λ r. refl }

  release_all-IsOnce :
      (c : Calls A) → IsOnce max_operations c → IsOnce max_operations (release_all c)
  unfolding release_all
  release_all-IsOnce c h =
      if_both (IsOnce max_operations) c.released _ _ h
        (released-IsOnce _ c (reject_all-IsOnce _ c h))

  invoke-IsOnce :
      (f : String) (d : Bool) (c : Calls A)
      → IsOnce max_operations c
      → IsOnce max_operations (invoke max_operations f d c)
  unfolding invoke open_count settled_count
  invoke-IsOnce f d c h =
      if_cases (IsOnce max_operations) c.released _ _
        (λ e. record { once = h.once; within = h.within; none_left = h.none_left })
        (λ r.
          if_cases (IsOnce max_operations) (leb max_operations (length c.active)) _ _
            (λ e. record { once = h.once; within = h.within; none_left = h.none_left })
            (λ e. record {
              once = λ j.
                  rw (count_if-append (λ i. i == j) c.active (c.next_call ∷ []))
                    (ground (arith, h.once j, nat_eq.same_iff c.next_call j));
              within = rw (length-append c.active (c.next_call ∷ [])) (ground (arith, e));
              none_left = λ q. absurd (ground (arith, q, r));
            }))

  step-IsOnce :
      (ev : Event A) (c : Calls A)
      → IsOnce max_operations c
      → IsOnce max_operations (step max_operations ev c)
  unfolding step on_response on_send_failed
  step-IsOnce (invokes f d) c h = invoke-IsOnce f d c h
  step-IsOnce (responds id none v) c h =
      if_both (IsOnce max_operations) c.released _ _ h (settle-IsOnce id (resolved v) c h)
  step-IsOnce (responds id (some m) v) c h =
      if_both (IsOnce max_operations) c.released _ _ h (settle-IsOnce id _ c h)
  step-IsOnce (send_fails m none id) c h =
      if_both (IsOnce max_operations) c.released _ _ h (reject_all-IsOnce _ c h)
  step-IsOnce (send_fails m (some n) none) c h = if_both (IsOnce max_operations) c.released _ _ h h
  step-IsOnce (send_fails m (some n) (some id)) c h =
      if_both (IsOnce max_operations) c.released _ _ h (
        if_both (IsOnce max_operations) (n == "___callback.request" || n == "___callback.response")
          _ _ (settle-IsOnce id _ c h) h)
  step-IsOnce releases c h = release_all-IsOnce c h

  -- After any events, each call that was made is open or settled, and exactly one of the two and
  -- exactly once, a call that was not made is neither, at most the limit of calls are open, and
  -- once the channel is released none is.
  pub calls-IsOnce : (es : List (Event A)) → IsOnce max_operations (run max_operations es)
  unfolding run
  calls-IsOnce [] =
      unfold fresh open_count settled_count in
      record { once = λ j. ground arith; within = omega arith; none_left = λ r. refl }
  calls-IsOnce (e ∷ es) = step-IsOnce e (run max_operations es) (calls-IsOnce es)
