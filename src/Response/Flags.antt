-- ===== src/Response/Flags.antt =====
-- How the flags of a response hang together, whatever happens in whatever order.
use perfect_ws.Base.{ℕ, ◌<◌, ◌≡◌, Bool, true, false, none, arith, if◌then◌else◌, String}
use perfect_ws.Protocol.{WsError}
use perfect_ws.Response.{
  send_unserializable, Response, Env, Frame, channel_error, end_response, abort, release_response,
  can_finish, begin_response_finish, send_frame, on_resources_changed, on_request_abort,
  answer_error, on_timeout, answer, send, after_send, after_unserializable, relay_local_event,
  relay_settled, send_channel_error, give_up, connect, on_client_close,
}
use perfect_ws.Response.Events.{
  Event, step, open_response, Reach, opened, next, send_fails, answer_fails, sends, sent_settles,
  failure_sent, rejects, returns, answer_sent, times_out, gives_up, remote_abort, resources_change,
  relays, relay_settles, releases, channel_fails, connects, closes,
}

module _ {D : Type 0} where
  pub record IsConsistent (r : Response D) : Type 0 where
    pub listened : r.abort_listened ≡ can_finish r
    pub after_abort : r.aborted ≡ true → can_finish r ≡ false
    pub timer : can_finish r ≡ false → r.timeout_armed ≡ false
    pub resources : r.resources_released ≡ (if r.response_released then 1 else 0)
    pub waits :
        r.release_requested ≡ true → r.response_released ≡ false → 0 < r.pending_durable_sends
    pub over : r.response_released ≡ true → can_finish r ≡ false
    pub detached : r.response_released ≡ true → r.channel_attached ≡ false
    pub removed : r.response_released ≡ true → r.registered ≡ false
    pub attached : r.response_released ≡ false → r.channel_attached ≡ true
    pub listed : r.response_released ≡ false → r.registered ≡ true
    pub marked : r.active_ended ≡ r.response_ended
    pub dropped : r.response_released ≡ true → r.client ≡ none

  pub end_response-IsConsistent :
      (env : Env) (r : Response D) → IsConsistent r → IsConsistent (end_response env r)
  unfolding end_response
  end_response-IsConsistent env r c = ground arith

  abort-IsConsistent : (env : Env) (r : Response D) → IsConsistent r → IsConsistent (abort env r)
  unfolding abort
  abort-IsConsistent env r c = ground arith

  pub release_response-IsConsistent :
      (env : Env) (force : Bool) (r : Response D)
      → IsConsistent r
      → IsConsistent (release_response env force r)
  unfolding release_response
  release_response-IsConsistent env force r c = ground arith

  begin_response_finish-IsConsistent :
      (r : Response D) → IsConsistent r → IsConsistent (begin_response_finish r)
  unfolding begin_response_finish
  begin_response_finish-IsConsistent r c = ground arith

  send_frame-IsConsistent :
      (f : Frame D) (r : Response D) → IsConsistent r → IsConsistent (send_frame f r)
  unfolding send_frame
  send_frame-IsConsistent f r c = ground arith

  on_resources_changed-IsConsistent :
      (env : Env) (r : Response D) → IsConsistent r → IsConsistent (on_resources_changed env r)
  unfolding on_resources_changed
  on_resources_changed-IsConsistent env r c =
      ground (arith, release_response-IsConsistent env false r c)

  on_request_abort-IsConsistent :
      (env : Env) (r : Response D) → IsConsistent r → IsConsistent (on_request_abort env r)
  unfolding on_request_abort
  on_request_abort-IsConsistent env r c = ground arith

  answer_error-IsConsistent :
      (e : WsError) (r : Response D) → IsConsistent r → IsConsistent (answer_error e r)
  unfolding answer_error
  answer_error-IsConsistent e r c = ground arith

  on_timeout-IsConsistent :
      (env : Env) (r : Response D) → IsConsistent r → IsConsistent (on_timeout env r)
  unfolding on_timeout
  on_timeout-IsConsistent env r c = ground arith

  answer-IsConsistent :
      (d : D) (f : Bool) (r : Response D) → IsConsistent r → IsConsistent (answer d f r)
  unfolding answer
  answer-IsConsistent d f r c = ground arith

  send-IsConsistent :
      (d : D) (down f : Bool) (r : Response D) → IsConsistent r → IsConsistent (send d down f r)
  unfolding send
  send-IsConsistent d down f r c = ground arith

  send_unserializable-IsConsistent :
      (e : WsError) (r : Response D) → IsConsistent r → IsConsistent (send_unserializable e r)
  unfolding send_unserializable
  send_unserializable-IsConsistent e r c = ground arith

  after_send-IsConsistent :
      (env : Env) (down sent loss : Bool) (r : Response D)
      → IsConsistent r
      → IsConsistent (after_send env down sent loss r)
  unfolding after_send
  after_send-IsConsistent env down sent loss r c = ground arith

  after_unserializable-IsConsistent :
      (env : Env) (r : Response D) → IsConsistent r → IsConsistent (after_unserializable env r)
  unfolding after_unserializable
  after_unserializable-IsConsistent env r c = ground arith

  relay_local_event-IsConsistent :
      (name : String) (durable : Bool) (r : Response D)
      → IsConsistent r
      → IsConsistent (relay_local_event name durable r)
  unfolding relay_local_event
  relay_local_event-IsConsistent name durable r c = ground arith

  pub relay_settled-IsConsistent :
      (env : Env) (r : Response D) → IsConsistent r → IsConsistent (relay_settled env r)
  unfolding relay_settled
  relay_settled-IsConsistent env r c = ground arith

  connect-IsConsistent : (ws : ℕ) (r : Response D) → IsConsistent r → IsConsistent (connect ws r)
  unfolding connect
  connect-IsConsistent ws r c = ground arith

  on_client_close-IsConsistent :
      (ws : ℕ) (r : Response D) → IsConsistent r → IsConsistent (on_client_close ws r)
  unfolding on_client_close
  on_client_close-IsConsistent ws r c = ground arith

  step-IsConsistent :
      (env : Env) (e : Event D) (r : Response D) → IsConsistent r → IsConsistent (step env e r)
  unfolding step send_channel_error give_up
  step-IsConsistent env (sends d down f) r c = send-IsConsistent d down f r c
  step-IsConsistent env (send_fails e) r c =
      send_unserializable-IsConsistent e _ (ground (arith, c))
  step-IsConsistent env (answer_fails e) r c =
      send_unserializable-IsConsistent e _ (ground (arith, c))
  step-IsConsistent env (sent_settles down sent loss) r c =
      after_send-IsConsistent env down sent loss r c
  step-IsConsistent env failure_sent r c = after_unserializable-IsConsistent env r c
  step-IsConsistent env (rejects e) r c = answer_error-IsConsistent e r c
  step-IsConsistent env (returns d f) r c = answer-IsConsistent d f r c
  step-IsConsistent env answer_sent r c = end_response-IsConsistent env r c
  step-IsConsistent env times_out r c = on_timeout-IsConsistent env r c
  step-IsConsistent env (gives_up is_event) r c = ground (arith, abort-IsConsistent env r c)
  step-IsConsistent env remote_abort r c = ground (arith, on_request_abort-IsConsistent env r c)
  step-IsConsistent env resources_change r c =
      ground (arith, on_resources_changed-IsConsistent env r c)
  step-IsConsistent env (relays n d) r c = relay_local_event-IsConsistent n d r c
  step-IsConsistent env relay_settles r c = relay_settled-IsConsistent env r c
  step-IsConsistent env (releases force) r c = release_response-IsConsistent env force r c
  step-IsConsistent env (channel_fails e) r c = send_frame-IsConsistent (channel_error e) r c
  step-IsConsistent env (connects ws) r c = connect-IsConsistent ws r c
  step-IsConsistent env (closes ws) r c = on_client_close-IsConsistent ws r c

-- In every state that a response can reach: the abort listener is attached exactly while the
-- response can still finish; an aborted or released response cannot; a response that cannot finish
-- has no timer; the resources are released once, with the response; a requested release waits only
-- for durable sends; a released response has no listeners, no client and no place in the table, and
-- one that is not has its listeners and its place; and it is marked as ended when it is.
pub response-IsConsistent :
    {D : Type 0} {calm : Bool} (ws : ℕ) (timed : Bool) (r : Response D)
    → Reach calm ws timed r
    → IsConsistent r
unfolding open_response
response-IsConsistent ws timed _ opened = ground arith
response-IsConsistent ws timed _ (next {r} env e enabled reach) =
    step-IsConsistent env e r (response-IsConsistent ws timed r reach)
