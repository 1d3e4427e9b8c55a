-- ===== src/Callbacks/Incoming/Called.antt =====
-- How often a function is called for a request, and what a channel still runs.
use perfect_ws.Base.{
  ℕ, zero, suc, ◌+◌, ◌≤◌, ◌≡◌, refl, Bool, false, ◌||◌, none, some, List, [], ◌∷◌, arith, leb,
  if◌then◌else◌, is_some, if_both, if_cases, option_cases, count_if, get_elem?, count_if-append,
  ◌==◌, nat_eq, string_eq,
}
use perfect_ws.JsMap.{get, size}
use perfect_ws.JsMap.Laws.{get-set, get-delete, size-set_new, size-delete-le}
use perfect_ws.Callbacks.Incoming.{
  Reply, Wait, Incoming, drop_at, fresh, await_again, answer_unknown, start, on_request,
  on_malformed, on_settled, resume, on_delivered, release_all, Event, requests, malformed, delivers,
  settles, resumes, releases, step, run,
}

module _ {A : Type 0} where
  -- The reports that the response to this request was delivered.
  pub deliveries : ℕ → List (Event A) → ℕ
  deliveries id [] = 0
  deliveries id (delivers j ∷ es) = (if j == id then 1 else 0) + deliveries id es
  deliveries id (other ∷ es) = deliveries id es

  unfoldable pub call_count : ℕ → Incoming A → ℕ
  call_count id s = count_if (λ i. i == id) s.called

  pub started_count : Incoming A → ℕ
  started_count s = count_if (λ w. w.started_here) s.waits

  pub record IsCounted (max_operations : ℕ) (d : ℕ → ℕ) (s : Incoming A) : Type 0 where
    pub calls :
        (id : ℕ)
        → call_count id s ≤ d id + (if is_some (get s.results id) || s.released then 1 else 0)
    pub running : s.active ≡ started_count s
    pub within : size s.results ≤ max_operations

count_if-drop_at :
    (i : ℕ) (ws : List Wait) (w : Wait)
    → get_elem? ws i ≡ some w
    → count_if (λ x. x.started_here) ws
      ≡ count_if (λ x. x.started_here) (drop_at i ws) + (if w.started_here then 1 else 0)
unfolding drop_at
count_if-drop_at i [] w h = absurd (ground (arith, h))
count_if-drop_at zero (x ∷ ws) w h = ground (arith, h)
count_if-drop_at (suc i) (x ∷ ws) w h = ground (arith, count_if-drop_at i ws w h)

module _ {A : Type 0} (max_operations : ℕ) where
  await_again-IsCounted :
      (d : ℕ → ℕ) (id p : ℕ) (s : Incoming A)
      → IsCounted max_operations d s
      → IsCounted max_operations d (await_again id p s)
  unfolding await_again call_count started_count
  await_again-IsCounted d id p s h = record {
    calls = h.calls;
    running =
        rw
          (count_if-append (λ w. w.started_here) s.waits
            (record { request = id; promise = p; started_here = false } ∷ []))
          (ground (arith, h.running));
    within = h.within;
  }

  answer_unknown-IsCounted :
      (d : ℕ → ℕ) (id : ℕ) (s : Incoming A)
      → get s.results id ≡ none
      → leb max_operations (size s.results) ≡ false
      → IsCounted max_operations d s
      → IsCounted max_operations d (answer_unknown id s)
  unfolding answer_unknown call_count started_count
  answer_unknown-IsCounted d id s g l h = record {
    calls = λ j. rw (get-set s.results id j s.next_promise) (ground (arith, h.calls j));
    running = rw (count_if-append (λ w. w.started_here) s.waits _) (ground (arith, h.running));
    within = ground (arith, size-set_new s.results id s.next_promise g, l);
  }

  start-IsCounted :
      (d : ℕ → ℕ) (id : ℕ) (s : Incoming A)
      → get s.results id ≡ none
      → leb max_operations (size s.results) ≡ false
      → s.released ≡ false
      → IsCounted max_operations d s
      → IsCounted max_operations d (start id s)
  unfolding start call_count started_count
  start-IsCounted d id s g l r h = record {
    calls = λ j.
        rw (get-set s.results id j s.next_promise)
          (ground (arith, h.calls j, g, r, nat_eq.same_iff id j));
    running = rw (count_if-append (λ w. w.started_here) s.waits _) (ground (arith, h.running));
    within = ground (arith, size-set_new s.results id s.next_promise g, l);
  }

  unsent-IsCounted :
      (d : ℕ → ℕ) (l : List (ℕ × Reply A)) (s : Incoming A)
      → IsCounted max_operations d s
      → IsCounted max_operations d (record s { sent = l })
  unfolding call_count started_count
  unsent-IsCounted d l s h = record { calls = h.calls; running = h.running; within = h.within }

  malformed-IsCounted :
      (d : ℕ → ℕ) (id : ℕ) (s : Incoming A)
      → IsCounted max_operations d s
      → IsCounted max_operations d (on_malformed id s)
  unfolding on_malformed
  malformed-IsCounted d id s h = unsent-IsCounted d _ s h

  on_request-IsCounted :
      (d : ℕ → ℕ) (id : ℕ) (known : Bool) (s : Incoming A)
      → s.released ≡ false
      → IsCounted max_operations d s
      → IsCounted max_operations d (on_request max_operations id known s)
  unfolding on_request
  on_request-IsCounted d id known s r h =
      option_cases (IsCounted max_operations d) (get s.results id) _ _
        (λ g.
          if_cases (IsCounted max_operations d) (leb max_operations (size s.results)) _ _
            (λ l. unsent-IsCounted d _ s h)
            (λ l.
              if_both (IsCounted max_operations d) known _ _ (start-IsCounted d id s g l r h)
                (answer_unknown-IsCounted d id s g l h)))
        (λ p g. await_again-IsCounted d id p s h)

  resume-IsCounted :
      (d : ℕ → ℕ) (i : ℕ) (s : Incoming A)
      → IsCounted max_operations d s
      → IsCounted max_operations d (resume i s)
  unfolding resume call_count started_count
  resume-IsCounted d i s h =
      option_cases (IsCounted max_operations d) (get_elem? s.waits i) _ _ (λ g. h)
        (λ w g.
          option_cases (IsCounted max_operations d) (get s.settled w.promise) _ _ (λ p. h)
            (λ reply p. record {
              calls = h.calls;
              running = ground (arith, h.running, count_if-drop_at i s.waits w g);
              within = h.within;
            }))

  on_settled-IsCounted :
      (d : ℕ → ℕ) (p : ℕ) (reply : Reply A) (s : Incoming A)
      → IsCounted max_operations d s
      → IsCounted max_operations d (on_settled p reply s)
  unfolding on_settled call_count started_count
  on_settled-IsCounted d p reply s h =
      if_both (IsCounted max_operations d) (is_some (get s.settled p)) _ _ h
        (record { calls = h.calls; running = h.running; within = h.within })

  on_delivered-IsCounted :
      (d : ℕ → ℕ) (id : ℕ) (s : Incoming A)
      → IsCounted max_operations d s
      → IsCounted max_operations (λ j. (if id == j then 1 else 0) + d j) (on_delivered id s)
  unfolding on_delivered call_count started_count
  on_delivered-IsCounted d id s h = record {
    calls = λ j. rw (get-delete s.results id j) (ground (arith, h.calls j));
    running = h.running;
    within = omega (arith, h.within, size-delete-le s.results id);
  }

  release_all-IsCounted :
      (d : ℕ → ℕ) (s : Incoming A)
      → IsCounted max_operations d s
      → IsCounted max_operations d (release_all s)
  unfolding release_all call_count started_count
  release_all-IsCounted d s h =
      if_both (IsCounted max_operations d) s.released _ _ h (record {
        calls = λ j. ground (arith, h.calls j);
        running = h.running;
        within = omega arith;
      })

  unheard-IsCounted :
      (d : ℕ → ℕ) (id : ℕ) (s : Incoming A)
      → IsCounted max_operations d s
      → IsCounted max_operations (λ j. (if id == j then 1 else 0) + d j) s
  unheard-IsCounted d id s h = record {
    calls = λ j. omega (arith, h.calls j);
    running = h.running;
    within = h.within;
  }

  step-IsCounted :
      (es : List (Event A)) (e : Event A) (s : Incoming A)
      → IsCounted max_operations (λ j. deliveries j es) s
      → IsCounted max_operations (λ j. deliveries j (e ∷ es)) (step max_operations e s)
  unfolding step deliveries
  step-IsCounted es (requests id known) s h =
      if_cases (IsCounted max_operations (λ j. deliveries j es)) s.released _ _ (λ r. h)
        (λ r. on_request-IsCounted _ id known s r h)
  step-IsCounted es (malformed id) s h =
      if_both (IsCounted max_operations (λ j. deliveries j es)) s.released _ _ h
        (malformed-IsCounted _ id s h)
  step-IsCounted es (delivers id) s h =
      if_both (IsCounted max_operations (λ j. (if id == j then 1 else 0) + deliveries j es))
        s.released _ _ (unheard-IsCounted _ id s h) (on_delivered-IsCounted _ id s h)
  step-IsCounted es (settles p reply) s h = on_settled-IsCounted _ p reply s h
  step-IsCounted es (resumes i) s h = resume-IsCounted _ i s h
  step-IsCounted es releases s h = release_all-IsCounted _ s h

  -- After any events, the functions were called for a request at most once, and once more for each
  -- report that its response was delivered (once fewer where no result of it is kept and the
  -- channel is not released); the count of running calls is the number of them that are not
  -- answered, and at most the limit of results is kept.
  pub calls-IsCounted :
      (es : List (Event A))
      → IsCounted max_operations (λ id. deliveries id es) (run max_operations es)
  unfolding run
  calls-IsCounted [] =
      unfold fresh call_count started_count get in
      record { calls = λ j. omega arith; running = refl; within = omega arith }
  calls-IsCounted (e ∷ es) = step-IsCounted es e (run max_operations es) (calls-IsCounted es)
