-- ===== src/Sending/Client/Limits.antt =====
-- How long the client goes on sending, and what it gives up.
use perfect_ws.Base.{
  ℕ, suc, ◌+◌, ◌*◌, ◌≤◌, ◌<◌, ◌≡◌, refl, ◌≢◌, Bool, true, false, ◌&&◌, List, [], ◌∷◌, arith, leb,
  if_both, if_cases, length, All, nat_eq, string_eq,
}
use native.Mathlib.Nat.{suc-mul}
use perfect_ws.Sending.Client.{
  Content, WaitEnd, server_came, operation_settled, request_finished, signal_aborted, timed_out,
  can_end, rejects, Round, delivered, stopped, failed, waiting, Trace, ends, attempted, fail_send,
  waits, stops_sent, reconnected, after_wait, retry, max_send_attempts, send_request_retry,
}

retry-attempts :
    (c : Content) (limit i : ℕ) (rs : List Round)
    → i ≤ limit
    → (retry c limit i rs).attempts + i ≤ limit + (retry c limit i rs).reconnections * limit
unfolding retry attempted after_wait reconnected
retry-attempts c limit i [] h = ground (arith, h)
retry-attempts c limit i (r ∷ rs) h = ground (
  arith,
  h,
  retry-attempts c limit (suc i) rs,
  retry-attempts c limit 0 rs,
  suc-mul (retry c limit 0 rs).reconnections limit,
)

-- A loop that still waits has met all rounds.
retry-waiting :
    (c : Content) (limit i : ℕ) (rs : List Round)
    → (retry c limit i rs).result ≡ waiting
    → (retry c limit i rs).attempts ≡ length rs
unfolding retry attempted after_wait reconnected fail_send
retry-waiting c limit i [] h = ground (arith, h)
retry-waiting c limit i (r ∷ rs) h =
    ground (arith, h, retry-waiting c limit (suc i) rs, retry-waiting c limit 0 rs)

-- The wait of a durable content is not rejected.
can_end-rejects : (b : Bool) (w : WaitEnd) → b ≡ true → can_end b b w ≡ true → rejects w ≡ false
unfolding can_end rejects
can_end-rejects b server_came p h = refl
can_end-rejects b operation_settled p h = refl
can_end-rejects b request_finished p h = refl
can_end-rejects b signal_aborted p h = absurd (ground (arith, p, h))
can_end-rejects b timed_out p h = absurd (ground (arith, p, h))

after_wait-kept :
    (c : Content) (r : Round) (t : Trace)
    → rejects r.wait_end ≡ false
    → t.result ≢ failed
    → (after_wait c r t).result ≢ failed
unfolding after_wait reconnected
after_wait-kept c r t w h = λ p. absurd (h (ground (arith, w, p)))

attempted-kept : (t : Trace) → t.result ≢ failed → (attempted t).result ≢ failed
unfolding attempted
attempted-kept t h = h

-- The last attempt of a durable event is always followed by a wait.
next_attempt :
    (c : Content) (limit i : ℕ) (r : Round)
    → c.is_event ≡ true
    → c.durable ≡ true
    → waits c limit i r ≡ false
    → i < limit
    → suc i < limit
unfolding waits
next_attempt c limit i r e d g h = ground (arith, e, d, g, h)

retry-kept :
    (c : Content) (limit i : ℕ) (rs : List Round)
    → c.is_event ≡ true
    → c.durable ≡ true
    → All (λ r. can_end c.durable c.durable r.wait_end ≡ true) rs
    → i < limit
    → (retry c limit i rs).result ≢ failed
unfolding retry
retry-kept c limit i [] e d a h = λ p. absurd (ground (arith, h, p))
retry-kept c limit i (r ∷ rs) e d (w, a) h =
    let again =
      after_wait-kept c r (retry c limit 0 rs) (can_end-rejects c.durable r.wait_end d w)
        (retry-kept c limit 0 rs e d a (omega (arith, h))) in
    if_cases (λ (t : Trace). t.result ≢ failed) (leb limit i) _ _
      (λ l. absurd (ground (arith, l, h)))
      (λ l.
        if_cases (λ (t : Trace). t.result ≢ failed) r.sent _ _
          (λ s. attempted-kept (ends delivered) (λ p. cc p))
          (λ s.
            if_cases (λ (t : Trace). t.result ≢ failed) (stops_sent c r) _ _
              (λ s. attempted-kept (ends stopped) (λ p. cc p))
              (λ s.
                if_cases (λ (t : Trace). t.result ≢ failed) (waits c limit i r) _ _
                  (λ g. attempted-kept (after_wait c r (retry c limit 0 rs)) again)
                  (λ g.
                    attempted-kept (retry c limit (suc i) rs)
                      (retry-kept c limit (suc i) rs e d a (next_attempt c limit i r e d g h))))))

max_send_attempts-positive : (n : ℕ) → 0 < max_send_attempts n
max_send_attempts-positive n = ground arith

-- The client sends at most `max(1, sendRequestRetries)` times for each reconnection and as often
-- before the first one, and a loop that still waits has met at most that many rounds, so that it ends
-- unless the connection is lost again.
pub send_request_retry-limits :
    (c : Content) (retries : ℕ) (released settled : Bool) (rounds : List Round)
    → ((send_request_retry c retries released settled rounds).attempts
        ≤ suc (send_request_retry c retries released settled rounds).reconnections
          * max_send_attempts retries)
      × ((send_request_retry c retries released settled rounds).result ≡ waiting
          → length rounds
            ≤ suc (send_request_retry c retries released settled rounds).reconnections
              * max_send_attempts retries)
unfolding send_request_retry
send_request_retry-limits c retries released settled rounds =
    let l = max_send_attempts retries in
    let t = retry c l 0 rounds in
    if_both
      (λ (t : Trace).
        (t.attempts ≤ suc t.reconnections * l)
        × (t.result ≡ waiting → length rounds ≤ suc t.reconnections * l))
      released _ _ (omega arith, λ p. absurd (ground (arith, p)))
      (if_both
        (λ (t : Trace).
          (t.attempts ≤ suc t.reconnections * l)
          × (t.result ≡ waiting → length rounds ≤ suc t.reconnections * l))
        (c.tracks_operation && settled) _ _ (omega arith, λ p. absurd (ground (arith, p)))
        (
          omega (arith, retry-attempts c l 0 rounds (omega arith), suc-mul t.reconnections l),
          λ p. omega (
            arith,
            retry-attempts c l 0 rounds (omega arith),
            suc-mul t.reconnections l,
            retry-waiting c l 0 rounds p,
          ),
        ))

-- An event that must arrive, and whose operation is not settled before it is sent, is never given up
-- as failed, whatever becomes of the attempts, as each wait for a server ends by what it listens to.
pub send_request_retry-kept :
    (c : Content) (retries : ℕ) (released : Bool) (rounds : List Round)
    → c.is_event ≡ true
    → c.durable ≡ true
    → All (λ r. can_end c.durable c.durable r.wait_end ≡ true) rounds
    → (send_request_retry c retries released false rounds).result ≢ failed
unfolding send_request_retry
send_request_retry-kept c retries released rounds e d a = λ p. absurd (
    ground (
      arith,
      p,
      retry-kept c (max_send_attempts retries) 0 rounds e d a (max_send_attempts-positive retries),
    ))
