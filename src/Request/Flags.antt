-- ===== src/Request/Flags.antt =====
-- How the flags of a request hang together, whatever happens in whatever order.
use perfect_ws.Base.{
  ◌-◌, ◌<◌, String, ◌≡◌, refl, Bool, true, false, not, ◌&&◌, Option, none, some, List, [], ◌∷◌,
  arith, if◌then◌else◌, if_both, if_cases, option_cases, nat_eq, string_eq,
}
use perfect_ws.Protocol.{WsError}
use perfect_ws.Request.{
  Settled, resolved, rejected, Request, Env, failure, emit_durable, release_finished, settle,
  finish, note_call, reenter, callback, fail, release_with, on_request_abort, abort, on_timeout,
  on_resources_changed, relay_local_event, release_request, relay_settled, fail_send, start_sending,
  replay, on_unknown, on_server_close, on_reconnected, on_reconnect_failed, fail_decoding, receive,
  receive_channel_error,
}
use perfect_ws.Request.Events.{
  open_request, Event, starts, content_sent, content_confirmed, send_fails, responds,
  channel_errors, undecodable, unknown, user_aborts, times_out, expires, relays, relay_settles,
  resources_change, server_closes, reconnects, reconnect_fails, releases, step, Enabled, Reach,
  opened, next,
}

list_cases {ℓ} :
    {A B : Type 0} (P : A → Type ℓ) (xs : List B) (x y : A)
    → P x
    → P y
    → P (elim xs [ [] ↦ x | b ∷ bs ↦ y ])
list_cases P [] x y p q = p
list_cases P (b ∷ bs) x y p q = q

module _ {D : Type 0} where
  -- What holds also between the parts of one turn.
  pub record IsSound (r : Request D) : Type 0 where
    pub listened : r.abort_listened ≡ not r.finished
    pub resources : r.resources_released ≡ (if r.released then 1 else 0)
    pub listed : r.registered ≡ not r.released
    pub over : r.released ≡ true → r.finished ≡ true
    pub detached : r.released ≡ true → r.relay_attached ≡ false
    pub deaf : r.released ≡ true → r.resources_listened ≡ false
    pub asked : r.release_requested ≡ true → r.finished ≡ true
    pub confirmed : r.finished ≡ true → r.delivery_confirmed ≡ true
    pub forgotten : r.finished ≡ true → r.has_replay ≡ false

  pub record IsConsistent (r : Request D) : Type 0 where
    pub sound : IsSound r
    pub started : r.delivery_confirmed ≡ true → r.finished ≡ false → 0 < r.initial_sends
    pub waits : r.release_requested ≡ true → r.released ≡ false → 0 < r.pending_durable_sends

  fewer-IsSound :
      (r : Request D)
      → IsConsistent r
      → IsSound (record r { pending_durable_sends = r.pending_durable_sends - 1 })
  fewer-IsSound r c = ground arith

  emit_durable-IsConsistent : (r : Request D) → IsConsistent r → IsConsistent (emit_durable r)
  unfolding emit_durable
  emit_durable-IsConsistent r c = ground arith

  release_finished-IsConsistent :
      (env : Env) (error : Option WsError) (r : Request D)
      → IsSound r
      → r.finished ≡ true
      → IsConsistent (release_finished env error r)
  unfolding release_finished
  release_finished-IsConsistent env error r c h = ground arith

  -- A request as `callback` leaves it when it finishes, before it is released.
  abbrev marked : Bool → Request D → Request D
  marked alive r = record r {
    finished = true;
    delivery_confirmed = true;
    has_replay = false;
    abort_listened = false;
    channel_was_kept_alive = alive;
  }

  marked-IsSound : (alive : Bool) (r : Request D) → IsSound r → IsSound (marked alive r)
  marked-IsSound alive r c = ground arith

  settle-IsConsistent : (s : Settled D) (r : Request D) → IsConsistent r → IsConsistent (settle s r)
  unfolding settle
  settle-IsConsistent s r c =
      list_cases IsConsistent r.settlements _ _
        (record {
          sound = record {
            listened = c.sound.listened;
            resources = c.sound.resources;
            listed = c.sound.listed;
            over = c.sound.over;
            detached = c.sound.detached;
            deaf = c.sound.deaf;
            asked = c.sound.asked;
            confirmed = c.sound.confirmed;
            forgotten = c.sound.forgotten;
          };
          started = c.started;
          waits = c.waits;
        })
        c

  finish-IsConsistent :
      (env : Env) (value : Option D) (error : Option WsError) (r : Request D)
      → IsSound r
      → (r.release_requested ≡ true → r.released ≡ false → 0 < r.pending_durable_sends)
      → IsConsistent (finish env value error r)
  unfolding finish
  finish-IsConsistent env value none r c w = settle-IsConsistent (resolved value) _ (
      if_both IsConsistent env.keep_alive _ _
        (record {
          sound = marked-IsSound env.keep_alive r c;
          started = λ d f. absurd (ground (arith, f));
          waits = w;
        })
        (release_finished-IsConsistent env none (marked env.keep_alive r)
          (marked-IsSound env.keep_alive r c) refl))
  finish-IsConsistent env value (some e) r c w = settle-IsConsistent (rejected e) _ (
      release_finished-IsConsistent env none (marked env.keep_alive r)
        (marked-IsSound env.keep_alive r c) refl)

  note_call-IsSound :
      (value : Option D) (error : Option WsError) (down : Bool) (r : Request D)
      → IsSound r
      → IsSound (note_call value error down r)
  unfolding note_call
  note_call-IsSound value error down r c = ground arith

  aborted-IsSound : (r : Request D) → IsSound r → IsSound (record r { aborted = true })
  aborted-IsSound r c = ground arith

  emit_durable-IsSound : (r : Request D) → IsSound r → IsSound (emit_durable r)
  unfolding emit_durable
  emit_durable-IsSound r c = ground arith

  told_requested :
      (r : Request D)
      → (if r.has_sent then emit_durable r else r).release_requested ≡ r.release_requested
  unfolding emit_durable
  told_requested r = ground arith

  note_call-requested :
      (value : Option D) (error : Option WsError) (r : Request D)
      → (note_call value error true r).release_requested ≡ r.release_requested
  unfolding note_call
  note_call-requested value error r = refl

  -- A final call, within which the callback may abort.
  last_call-IsConsistent :
      (env : Env) (value : Option D) (error : Option WsError) (r : Request D)
      → IsSound r
      → r.finished ≡ false
      → IsConsistent (finish env value error (reenter env r))
  unfolding reenter
  last_call-IsConsistent env value error r c h =
      option_cases (λ x. IsConsistent (finish env value error x)) r.aborts_in_final _ _
        (λ e.
          finish-IsConsistent env value error r c (λ q. absurd (ground (arith, q, c.asked q, h))))
        (λ reason e.
          if_both (λ x. IsConsistent (finish env value error x))
            (not r.aborted && (r.abort_listened && r.registered)) _ _
            (let f = failure reason "abort" in
              let told = if r.has_sent then emit_durable r else r in
              let inner = note_call none (some f) true (record told { aborted = true }) in
              let again =
                finish-IsConsistent env none (some f) inner
                  (note_call-IsSound none (some f) true (record told { aborted = true })
                    (aborted-IsSound told
                      (if_both IsSound r.has_sent _ _ (emit_durable-IsSound r c) c)))
                  (λ q. absurd (
                    ground (
                      arith,
                      note_call-requested none (some f) (record told { aborted = true }),
                      told_requested r,
                      q,
                      c.asked,
                      h,
                    ))) in
              finish-IsConsistent env value error (finish env none (some f) inner) again.sound
                again.waits)
            (finish-IsConsistent env value error (record r { aborted = true }) (aborted-IsSound r c)
              (λ q. absurd (ground (arith, q, c.asked q, h)))))

  note_call-IsConsistent :
      (value : Option D) (error : Option WsError) (down : Bool) (r : Request D)
      → IsConsistent r
      → IsConsistent (note_call value error down r)
  unfolding note_call
  note_call-IsConsistent value error down r c = record {
    sound = unfold note_call in note_call-IsSound value error down r c.sound;
    started = c.started;
    waits = c.waits;
  }

  callback-IsConsistent :
      (env : Env) (value : Option D) (error : Option WsError) (down : Bool) (r : Request D)
      → IsConsistent r
      → IsConsistent (callback env value error down r)
  unfolding callback
  callback-IsConsistent env value error down r c =
      if_cases IsConsistent r.finished _ _ (λ e. c)
        (λ e.
          if_both IsConsistent down _ _
            (last_call-IsConsistent env value error (note_call value error down r)
              (note_call-IsSound value error down r c.sound) (unfold note_call in e))
            (note_call-IsConsistent value error down r c))

  fail-IsConsistent :
      (env : Env) (e : WsError) (r : Request D) → IsConsistent r → IsConsistent (fail env e r)
  unfolding fail
  fail-IsConsistent env e r c = callback-IsConsistent env none (some e) true r c

  release_with-IsConsistent :
      (env : Env) (e : WsError) (r : Request D)
      → IsConsistent r
      → IsConsistent (release_with env e r)
  unfolding release_with
  release_with-IsConsistent env e r c =
      ground
        (arith, fail-IsConsistent env e r c, release_finished-IsConsistent env (some e) r c.sound)

  on_request_abort-IsConsistent :
      (env : Env) (reason : String) (r : Request D)
      → IsConsistent r
      → IsConsistent (on_request_abort env reason r)
  unfolding on_request_abort
  on_request_abort-IsConsistent env reason r c = ground (
    arith,
    fail-IsConsistent env (failure reason "abort") r c,
    fail-IsConsistent env (failure reason "abort") (emit_durable r) (emit_durable-IsConsistent r c),
  )

  abort-IsConsistent :
      (env : Env) (reason : String) (r : Request D)
      → IsConsistent r
      → IsConsistent (abort env reason r)
  unfolding abort
  abort-IsConsistent env reason r c =
      ground (arith, on_request_abort-IsConsistent env reason (record r { aborted = true }))

  on_timeout-IsConsistent :
      (env : Env) (r : Request D) → IsConsistent r → IsConsistent (on_timeout env r)
  unfolding on_timeout
  on_timeout-IsConsistent env r c = ground (
    arith,
    fail-IsConsistent env (failure "Request timeout" "timeout") (emit_durable r)
        (emit_durable-IsConsistent r c),
    fail-IsConsistent env (failure "Request connecting timeout" "timeout") r c,
  )

  on_resources_changed-IsConsistent :
      (env : Env) (r : Request D) → IsConsistent r → IsConsistent (on_resources_changed env r)
  unfolding on_resources_changed
  on_resources_changed-IsConsistent env r c =
      ground (arith, release_finished-IsConsistent env none r c.sound)

  relay_local_event-IsConsistent :
      (durable : Bool) (r : Request D) → IsConsistent r → IsConsistent (relay_local_event durable r)
  unfolding relay_local_event
  relay_local_event-IsConsistent durable r c = ground (arith, emit_durable-IsConsistent r c)

  release_request-IsConsistent :
      (env : Env) (error : Option WsError) (r : Request D)
      → IsSound r
      → r.finished ≡ true
      → IsConsistent (release_request env error r)
  unfolding release_request release_with
  release_request-IsConsistent env none r c h = release_finished-IsConsistent env none r c h
  release_request-IsConsistent env (some e) r c h =
      ground (arith, release_finished-IsConsistent env (some e) r c h)

  pub relay_settled-IsConsistent :
      (env : Env) (r : Request D) → IsConsistent r → IsConsistent (relay_settled env r)
  unfolding relay_settled
  relay_settled-IsConsistent env r c =
      let r' = record r { pending_durable_sends = r.pending_durable_sends - 1 } in
      ground (
        arith,
        release_request-IsConsistent env r.deferred_release_error r' (fewer-IsSound r c),
        on_resources_changed-IsConsistent env r',
      )

  fail_send-IsConsistent :
      (env : Env) (e : WsError) (r : Request D) → IsConsistent r → IsConsistent (fail_send env e r)
  unfolding fail_send
  fail_send-IsConsistent env e r c = ground (arith, fail-IsConsistent env e r c)

  start_sending-IsConsistent : (r : Request D) → IsConsistent r → IsConsistent (start_sending r)
  unfolding start_sending
  start_sending-IsConsistent r c = ground arith

  replay-IsConsistent : (r : Request D) → IsConsistent r → IsConsistent (replay r)
  unfolding replay
  replay-IsConsistent r c = ground arith

  on_unknown-IsConsistent :
      (env : Env) (r : Request D) → IsConsistent r → IsConsistent (on_unknown env r)
  unfolding on_unknown
  on_unknown-IsConsistent env r c = ground (
    arith,
    replay-IsConsistent r c,
    release_with-IsConsistent env (failure "Unknown request" "unknownRequest") r c,
  )

  on_server_close-IsConsistent :
      (env : Env) (r : Request D) → IsConsistent r → IsConsistent (on_server_close env r)
  unfolding on_server_close
  on_server_close-IsConsistent env r c =
      ground (arith, fail-IsConsistent env (failure "Server closed" "serverClosed") r c)

  on_reconnected-IsConsistent :
      (env : Env) (known : Bool) (r : Request D)
      → IsConsistent r
      → IsConsistent (on_reconnected env known r)
  unfolding on_reconnected
  on_reconnected-IsConsistent env known r c =
      ground (arith, fail-IsConsistent env (failure "Unknown request" "unknownRequest") r c)

  on_reconnect_failed-IsConsistent :
      (env : Env) (r : Request D) → IsConsistent r → IsConsistent (on_reconnect_failed env r)
  unfolding on_reconnect_failed
  on_reconnect_failed-IsConsistent env r c = fail-IsConsistent env _ r c

  fail_decoding-IsConsistent :
      (env : Env) (message : String) (r : Request D)
      → IsConsistent r
      → IsConsistent (fail_decoding env message r)
  unfolding fail_decoding
  fail_decoding-IsConsistent env message r c =
      release_with-IsConsistent env _ _ (emit_durable-IsConsistent r c)

  told-IsSound :
      (r : Request D)
      → IsSound r
      → IsSound (record r { delivery_confirmed = true; has_replay = false })
  told-IsSound r c = ground arith

  receive-IsConsistent :
      (env : Env) (value : Option D) (error : Option WsError) (down : Bool) (r : Request D)
      → IsConsistent r
      → IsConsistent (receive env value error down r)
  unfolding receive callback
  receive-IsConsistent env value error true r c =
      let told : Request D = record r { delivery_confirmed = true; has_replay = false } in
      if_cases IsConsistent (r.finished && true) _ _ (λ e. c)
        (λ e.
          if_cases IsConsistent r.finished _ _ (λ f. absurd (ground (arith, e, f)))
            (λ f.
              last_call-IsConsistent env value error (note_call value error true told)
                (note_call-IsSound value error true told (told-IsSound r c.sound))
                (unfold note_call in f)))
  receive-IsConsistent env value error false r c =
      if_both IsConsistent (r.finished && false) _ _ c
        (if_both IsConsistent r.finished _ _ c (note_call-IsConsistent value error false r c))

  receive_channel_error-IsConsistent :
      (env : Env) (e : WsError) (r : Request D)
      → IsConsistent r
      → IsConsistent (receive_channel_error env e r)
  unfolding receive_channel_error
  receive_channel_error-IsConsistent env e r c =
      ground (
        arith,
        release_with-IsConsistent env e r c,
        receive-IsConsistent env none (some e) true r c,
      )

  step-IsConsistent :
      (env : Env) (e : Event D) (r : Request D)
      → Enabled e r
      → IsConsistent r
      → IsConsistent (step env e r)
  unfolding step
  step-IsConsistent env starts r h c = start_sending-IsConsistent r c
  step-IsConsistent env content_sent r h c = ground arith
  step-IsConsistent env content_confirmed r h c = ground arith
  step-IsConsistent env (send_fails e) r h c = fail_send-IsConsistent env e r c
  step-IsConsistent env (responds value error down) r h c =
      ground (arith, receive-IsConsistent env value error down r c)
  step-IsConsistent env (channel_errors e) r h c =
      ground (arith, receive_channel_error-IsConsistent env e r c)
  step-IsConsistent env (undecodable m) r h c = ground (arith, fail_decoding-IsConsistent env m r c)
  step-IsConsistent env unknown r h c = ground (arith, on_unknown-IsConsistent env r c)
  step-IsConsistent env (user_aborts reason) r h c = abort-IsConsistent env reason r c
  step-IsConsistent env times_out r h c = on_timeout-IsConsistent env r c
  step-IsConsistent env expires r h c = fail-IsConsistent env _ r c
  step-IsConsistent env (relays durable) r h c = relay_local_event-IsConsistent durable r c
  step-IsConsistent env relay_settles r h c = relay_settled-IsConsistent env r c
  step-IsConsistent env resources_change r h c =
      ground (arith, on_resources_changed-IsConsistent env r c)
  step-IsConsistent env server_closes r h c = on_server_close-IsConsistent env r c
  step-IsConsistent env (reconnects known) r h c = on_reconnected-IsConsistent env known r c
  step-IsConsistent env reconnect_fails r h c = on_reconnect_failed-IsConsistent env r c
  step-IsConsistent env (releases e) r h c = ground (arith, release_with-IsConsistent env e r c)

-- In every state that a request can reach: the abort listener is attached exactly until the request
-- finishes; it stands in the table exactly until it is released, which happens after it finished,
-- frees its resources once and detaches its listeners; a requested release waits only for
-- durable sends; a finished request counts as delivered and cannot be replayed; and only a request
-- that was sent counts as delivered before it finishes.
pub request-IsConsistent :
    {D : Type 0} {reason : Option String} (do_not_wait has_server : Bool) (r : Request D)
    → Reach do_not_wait has_server reason r
    → IsConsistent r
unfolding open_request
request-IsConsistent w s _ opened = ground arith
request-IsConsistent w s _ (next {r} env e enabled reach) =
    step-IsConsistent env e r enabled (request-IsConsistent w s r reach)
