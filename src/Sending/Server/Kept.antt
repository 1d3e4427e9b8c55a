-- ===== src/Sending/Server/Kept.antt =====
-- A frame that must arrive is not given up before its response is.
use perfect_ws.Base.{
  ℕ, suc, ◌<◌, ◌≡◌, refl, ◌≢◌, Bool, true, false, not, ◌&&◌, ◌||◌, List, [], ◌∷◌, arith, leb,
  if_cases, All, any, Bool-cases, inl, inr, nat_eq, string_eq,
}
use perfect_ws.Sending.Server.{
  Waited, added, released, aborted, timeout, Round, Result, dropped, given_up, Trace, is_added,
  may_end, attempted, restart, send_round, send_loop, max_send_attempts, send_json,
}

unfoldable pub is_released : Waited → Bool
is_released released = true
is_released other = false

-- The response is released before or in the wait for an open socket, or the client is gone after it.
unfoldable pub is_over : Round → Bool
unfolding is_released
is_over r = (not r.open_start && (r.response_released || is_released r.waited)) || not r.has_client

unfoldable pub is_lost : Result → Bool
is_lost given_up = true
is_lost dropped = true
is_lost _ = false

abbrev pub is_held : Round → Bool
is_held r = may_end true r.waited && not (is_over r)

added-is_held : (w : Waited) → may_end true w ≡ true → is_released w ≡ false → is_added w ≡ true
unfolding may_end is_released is_added
added-is_held added h g = refl
added-is_held released h g = absurd (ground (arith, h, g))
added-is_held aborted h g = absurd (ground (arith, h, g))
added-is_held timeout h g = absurd (ground (arith, h, g))

IsKept : Trace → Type 0
IsKept t = (t.result ≢ given_up) × (t.result ≢ dropped)

round-kept :
    (limit i : ℕ) (r : Round) (next again : Trace)
    → r.has_client ≡ true
    → i < limit
    → (suc i < limit → IsKept next)
    → IsKept again
    → IsKept (send_round true limit i r next again)
unfolding send_round attempted restart IsKept
round-kept limit i r next again c h n a =
    (λ p. absurd (ground (arith, c, h, n, a, p)), λ p. absurd (ground (arith, c, h, n, a, p)))

loop-kept :
    (limit i : ℕ) (rs : List Round)
    → All (λ r. is_held r ≡ true) rs
    → i < limit
    → IsKept (send_loop true limit i rs)
unfolding send_loop is_over
loop-kept limit i [] a h =
    unfold IsKept in (λ p. absurd (ground (arith, h, p)), λ p. absurd (ground (arith, h, p)))
loop-kept limit i (r ∷ rs) (w, a) h =
    let pass =
      round-kept limit i r (send_loop true limit (suc i) rs) (send_loop true limit 0 rs)
        (ground (arith, w)) h (λ l. loop-kept limit (suc i) rs a l)
        (loop-kept limit 0 rs a (omega (arith, h))) in
    if_cases IsKept (leb limit i) _ _ (λ e. absurd (ground (arith, e, h)))
      (λ e.
        if_cases IsKept r.open_start _ _ (λ o. pass)
          (λ o.
            if_cases IsKept (r.response_released || false) _ _ (λ d. absurd (ground (arith, d, w)))
              (λ d.
                if_cases IsKept (is_added r.waited) _ _ (λ g. pass)
                  (λ g. absurd (ground (arith, g, w, added-is_held r.waited))))))

held-All :
    (rounds : List Round)
    → All (λ r. may_end true r.waited ≡ true) rounds
    → any is_over rounds ≡ false
    → All (λ r. is_held r ≡ true) rounds
held-All [] m h = tt
held-All (r ∷ rs) (e, m) h = (ground (arith, e, h), held-All rs m (ground (arith, h)))

lost-not_kept : (t : Trace) → IsKept t → is_lost t.result ≡ false
unfolding IsKept is_lost
lost-not_kept t k = ground (arith, k.0, k.1)

-- A durable frame, or one with live resources, whose loss is not allowed or which has live resources,
-- and whose waits end as they may for such a frame, is given up or dropped only if in some pass the
-- response was released before or in the wait for an open socket, or the client was gone after it:
-- no number of failed attempts is enough.
pub send_json-kept :
    (durable live allow_package_loss : Bool) (retries : ℕ) (rounds : List Round)
    → (durable || live) ≡ true
    → (allow_package_loss && not live) ≡ false
    → All (λ r. may_end true r.waited ≡ true) rounds
    → is_lost (send_json durable live allow_package_loss retries rounds).result ≡ true
    → any is_over rounds ≡ true
unfolding send_json
send_json-kept durable live loss retries rounds d l m h = elim (Bool-cases (any is_over rounds)) [
  | inl e ↦ e
  | inr e ↦
      let k =
        lost-not_kept (send_loop true (max_send_attempts retries) 0 rounds)
          (loop-kept (max_send_attempts retries) 0 rounds (held-All rounds m e) (ground arith)) in
      absurd (ground (arith, h, d, l, k))
]
