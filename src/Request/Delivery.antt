-- ===== src/Request/Delivery.antt =====
-- A request that was delivered is not sent a second time.
use perfect_ws.Base.{
  ◌-◌, String, ◌≡◌, Bool, true, false, not, ◌&&◌, Option, none, some, ◌∷◌, arith, if◌then◌else◌,
  if_both, option_cases, nat_eq, string_eq,
}
use perfect_ws.Protocol.{WsError}
use perfect_ws.Request.{
  Request, Env, failure, emit_durable, release_finished, settle, finish, note_call, reenter,
  callback, fail, release_with, on_request_abort, abort, on_timeout, on_resources_changed,
  relay_local_event, release_request, relay_settled, fail_send, start_sending, on_unknown,
  on_server_close, on_reconnected, on_reconnect_failed, fail_decoding, receive,
  receive_channel_error,
}
use perfect_ws.Request.Events.{
  Event, starts, content_sent, content_confirmed, send_fails, responds, channel_errors, undecodable,
  unknown, user_aborts, times_out, expires, relays, relay_settles, resources_change, server_closes,
  reconnects, reconnect_fails, releases, step, Enabled, Reach,
}
use perfect_ws.Request.Flags.{request-IsConsistent}

module _ {D : Type 0} where
  -- The initial content was not sent between the two states.
  pub record IsNotResent (r r' : Request D) : Type 0 where
    pub initial_sends : r'.initial_sends ≡ r.initial_sends
    pub delivery_confirmed : r'.delivery_confirmed ≡ true

  emit_durable-IsNotResent :
      (r : Request D) → r.delivery_confirmed ≡ true → IsNotResent r (emit_durable r)
  unfolding emit_durable
  emit_durable-IsNotResent r h = ground arith

  release_finished-IsNotResent :
      (env : Env) (e : Option WsError) (r : Request D)
      → r.delivery_confirmed ≡ true
      → IsNotResent r (release_finished env e r)
  unfolding release_finished
  release_finished-IsNotResent env e r h = ground arith

  finish-IsNotResent :
      (env : Env) (value : Option D) (error : Option WsError) (r : Request D)
      → IsNotResent r (finish env value error r)
  unfolding finish settle release_finished
  finish-IsNotResent env value none r = ground arith
  finish-IsNotResent env value (some e) r = ground arith

  reenter-IsNotResent :
      (env : Env) (r : Request D) → r.delivery_confirmed ≡ true → IsNotResent r (reenter env r)
  unfolding reenter note_call emit_durable
  reenter-IsNotResent env r h =
      option_cases (IsNotResent r) r.aborts_in_final _ _ (λ e. ground arith)
        (λ reason e.
          if_both (IsNotResent r) (not r.aborted && (r.abort_listened && r.registered)) _ _
            (ground (
              arith,
              finish-IsNotResent env none (some (failure reason "abort")) (
                  note_call none (some (failure reason "abort")) true
                    (record (if r.has_sent then emit_durable r else r) { aborted = true })),
            ))
            (ground arith))

  callback-IsNotResent :
      (env : Env) (value : Option D) (error : Option WsError) (down : Bool) (r : Request D)
      → r.delivery_confirmed ≡ true
      → IsNotResent r (callback env value error down r)
  unfolding callback note_call
  callback-IsNotResent env value error down r h =
      let called = record r {
        calls = record { value = value; error = error; down = down } ∷ r.calls;
      } in
      ground (
        arith,
        reenter-IsNotResent env called h,
        finish-IsNotResent env value error (reenter env called),
      )

  fail-IsNotResent :
      (env : Env) (e : WsError) (r : Request D)
      → r.delivery_confirmed ≡ true
      → IsNotResent r (fail env e r)
  unfolding fail
  fail-IsNotResent env e r h = callback-IsNotResent env none (some e) true r h

  release_with-IsNotResent :
      (env : Env) (e : WsError) (r : Request D)
      → r.delivery_confirmed ≡ true
      → IsNotResent r (release_with env e r)
  unfolding release_with
  release_with-IsNotResent env e r h =
      ground (arith, fail-IsNotResent env e r h, release_finished-IsNotResent env (some e) r h)

  release_request-IsNotResent :
      (env : Env) (e : Option WsError) (r : Request D)
      → r.delivery_confirmed ≡ true
      → IsNotResent r (release_request env e r)
  unfolding release_request
  release_request-IsNotResent env none r h = release_finished-IsNotResent env none r h
  release_request-IsNotResent env (some e) r h = release_with-IsNotResent env e r h

  on_request_abort-IsNotResent :
      (env : Env) (reason : String) (r : Request D)
      → r.delivery_confirmed ≡ true
      → IsNotResent r (on_request_abort env reason r)
  unfolding on_request_abort
  on_request_abort-IsNotResent env reason r h = ground (
    arith,
    fail-IsNotResent env (failure reason "abort") r h,
    emit_durable-IsNotResent r h,
    fail-IsNotResent env (failure reason "abort") (emit_durable r),
  )

  abort-IsNotResent :
      (env : Env) (reason : String) (r : Request D)
      → r.delivery_confirmed ≡ true
      → IsNotResent r (abort env reason r)
  unfolding abort
  abort-IsNotResent env reason r h =
      ground (arith, on_request_abort-IsNotResent env reason (record r { aborted = true }))

  on_timeout-IsNotResent :
      (env : Env) (r : Request D) → r.delivery_confirmed ≡ true → IsNotResent r (on_timeout env r)
  unfolding on_timeout
  on_timeout-IsNotResent env r h = ground (
    arith,
    emit_durable-IsNotResent r h,
    fail-IsNotResent env (failure "Request timeout" "timeout") (emit_durable r),
    fail-IsNotResent env (failure "Request connecting timeout" "timeout") r h,
  )

  on_resources_changed-IsNotResent :
      (env : Env) (r : Request D)
      → r.delivery_confirmed ≡ true
      → IsNotResent r (on_resources_changed env r)
  unfolding on_resources_changed
  on_resources_changed-IsNotResent env r h =
      ground (arith, release_finished-IsNotResent env none r h)

  relay_settled-IsNotResent :
      (env : Env) (r : Request D)
      → r.delivery_confirmed ≡ true
      → IsNotResent r (relay_settled env r)
  unfolding relay_settled
  relay_settled-IsNotResent env r h =
      let r' = record r { pending_durable_sends = r.pending_durable_sends - 1 } in
      ground (
        arith,
        release_request-IsNotResent env r.deferred_release_error r',
        on_resources_changed-IsNotResent env r',
      )

  receive-IsNotResent :
      (env : Env) (value : Option D) (error : Option WsError) (down : Bool) (r : Request D)
      → r.delivery_confirmed ≡ true
      → IsNotResent r (receive env value error down r)
  unfolding receive
  receive-IsNotResent env value error down r h = ground (
    arith,
    callback-IsNotResent env value error down r h,
    callback-IsNotResent env value error down
        (record r { delivery_confirmed = true; has_replay = false }),
  )

-- Once a request that can be reached is known to be delivered, no event begins another sending of
-- its content: none hands it to `sendRequestRetry` again, and it stays known to be delivered. A
-- sending that had begun before may still be in its own retries.
pub request-IsNotResent :
    {D : Type 0} {reason : Option String} (do_not_wait has_server : Bool) (r : Request D)
    (env : Env) (e : Event D)
    → Reach do_not_wait has_server reason r
    → Enabled e r
    → r.delivery_confirmed ≡ true
    → IsNotResent r (step env e r)
unfolding step start_sending fail_send relay_local_event on_unknown on_server_close on_reconnected
    on_reconnect_failed fail_decoding receive_channel_error
request-IsNotResent w s r env starts c k h = ground (arith, request-IsConsistent w s r c)
request-IsNotResent w s r env content_sent c k h = ground arith
request-IsNotResent w s r env content_confirmed c k h = ground arith
request-IsNotResent w s r env (send_fails e) c k h = ground (arith, fail-IsNotResent env e r h)
request-IsNotResent w s r env (responds v e down) c k h =
    ground (arith, receive-IsNotResent env v e down r h)
request-IsNotResent w s r env (channel_errors e) c k h =
    ground
      (arith, release_with-IsNotResent env e r h, receive-IsNotResent env none (some e) true r h)
request-IsNotResent w s r env (undecodable m) c k h = ground (
  arith,
  emit_durable-IsNotResent r h,
  release_with-IsNotResent env (failure m "deserializeFailed") (emit_durable r),
)
request-IsNotResent w s r env unknown c k h =
    ground (arith, release_with-IsNotResent env (failure "Unknown request" "unknownRequest") r h)
request-IsNotResent w s r env (user_aborts reason) c k h = abort-IsNotResent env reason r h
request-IsNotResent w s r env times_out c k h = on_timeout-IsNotResent env r h
request-IsNotResent w s r env expires c k h = fail-IsNotResent env _ r h
request-IsNotResent w s r env (relays durable) c k h = ground (arith, emit_durable-IsNotResent r h)
request-IsNotResent w s r env relay_settles c k h = relay_settled-IsNotResent env r h
request-IsNotResent w s r env resources_change c k h =
    ground (arith, on_resources_changed-IsNotResent env r h)
request-IsNotResent w s r env server_closes c k h =
    ground (arith, fail-IsNotResent env (failure "Server closed" "serverClosed") r h)
request-IsNotResent w s r env (reconnects known) c k h =
    ground (arith, fail-IsNotResent env (failure "Unknown request" "unknownRequest") r h)
request-IsNotResent w s r env reconnect_fails c k h = fail-IsNotResent env _ r h
request-IsNotResent w s r env (releases e) c k h =
    ground (arith, release_with-IsNotResent env e r h)
