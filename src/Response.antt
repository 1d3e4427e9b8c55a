-- ===== src/Response.antt =====
-- The life of one response on the serving side: the closures of `_onRequest` in src/PerfectWS.ts
-- from `clientRef` to the end of the method, over the variables that they share. An `await` ends a
-- turn, and what follows it is an event of its own. `D` is the type of the application's data.
-- A frame counts as sent when it is handed to `sendJSON` and can be serialized; the retries of
-- `sendJSON` are those of the acknowledgement system. A failure of the serialization is a turn of its
-- own, for `sendJSON` catches it after an `await`.
pub mod Events
pub mod Flags
pub mod Once
pub mod Release
mod Tests
use perfect_ws.Base.{
  ℕ, ◌+◌, ◌-◌, ◌<◌, ◌≡◌, String, Bool, true, false, not, ◌&&◌, ◌||◌, Option, none, some, List, [],
  ◌∷◌, ltb, if◌then◌else◌, ◌==◌, nat_eq,
}
use perfect_ws.Protocol.{WsError}

pub data Frame (D : Type 0) : Type 0 where
  -- `{ data, requestId, down: false }`
  partial : D → Frame D
  -- `{ data, requestId, down: true }`
  final_data : D → Frame D
  -- `{ error, requestId, down: true }`
  final_error : WsError → Frame D
  -- `{ error, requestId, channelError: true, down: true }`
  channel_error : WsError → Frame D
  -- `{ event: { eventName, args }, requestId }`
  relayed : (event_name : String) → Frame D

pub record Response (D : Type 0) : Type 0 where
  pub response_ended : Bool
  pub response_finishing : Bool
  pub response_released : Bool
  pub release_requested : Bool
  pub pending_durable_sends : ℕ
  -- `clearResponseTimeout !== undefined`
  pub timeout_armed : Bool
  -- `abortController.signal.aborted`, and whether `onAbortControllerAbort` still listens to it
  pub aborted : Bool
  pub abort_listened : Bool
  -- the listeners on `events`: resources, remote abort, relay
  pub channel_attached : Bool
  -- in `_activeResponses`, with `activeResponse.responseEnded` and `clientRef.ref`
  pub registered : Bool
  pub active_ended : Bool
  pub client : Option ℕ
  -- the calls of `releaseRequestResources`
  pub resources_released : ℕ
  -- the calls of `sendJSON` whose data could not be serialized and whose `catch`, after an `await`,
  -- is still to run: those of `send` without `down`, and that of the answer
  pub unserialized : ℕ
  pub answer_failed : Bool
  -- the frames sent, the latest first
  pub sent : List (Frame D)

-- What the turn reads of its surroundings: `shouldKeepResponseAlive(events)` and `_unregistered`.
pub record Env : Type 0 where
  pub keep_alive : Bool
  pub unregistered : Bool

module _ {D : Type 0} where
  -- What stands at the end of `releaseResponse`.
  unfoldable pub tear_down : Response D → Response D
  tear_down r = record r {
    abort_listened = false;
    channel_attached = false;
    client = none;
    resources_released = r.resources_released + 1;
    registered = false;
  }

  -- `releaseResponse`, over what its call of `abortController.abort` does.
  unfoldable pub release_by : (Response D → Response D) → Env → Bool → Response D → Response D
  unfolding tear_down
  release_by abort env force r =
      if r.response_released
      then r
      else if not force && not env.unregistered && ltb 0 r.pending_durable_sends
      then record r { release_requested = true }
      else if not r.response_ended && not r.aborted
      then tear_down (
          abort (record r {
            release_requested = true;
            response_released = true;
            timeout_armed = false;
          }))
      else tear_down
          (record r { release_requested = true; response_released = true; timeout_armed = false })

  -- `endResponse`. The response has ended when it is released here, so that nothing is aborted.
  unfoldable pub end_response : Env → Response D → Response D
  unfolding release_by
  end_response env r =
      let ended = record r {
        timeout_armed = false;
        active_ended = true;
        response_finishing = false;
        response_ended = true;
        abort_listened = false;
      } in
      if env.keep_alive then ended else release_by (λ s. s) env false ended

  -- `abortController.abort`: the listener runs once, at the first call.
  unfoldable pub abort : Env → Response D → Response D
  unfolding end_response
  abort env r =
      if r.aborted
      then r
      else if r.abort_listened
      then end_response env (record r { aborted = true; abort_listened = false })
      else record r { aborted = true }

  unfoldable pub release_response : Env → Bool → Response D → Response D
  unfolding release_by abort
  release_response env force r = release_by (abort env) env force r

  -- `beginResponseFinish`: whether this call is the one that finishes, and the state.
  abbrev pub can_finish : Response D → Bool
  can_finish r = not (r.response_ended || r.response_finishing)

  pub begin_response_finish : Response D → Response D
  begin_response_finish r =
      if can_finish r
      then record r { response_finishing = true; timeout_armed = false; abort_listened = false }
      else r

  pub send_frame : Frame D → Response D → Response D
  send_frame f r = record r { sent = f ∷ r.sent }

  -- `sendJSON` when no attempt has sent the frame.
  pub give_up : Env → (is_event : Bool) → Response D → Response D
  unfolding abort
  give_up env is_event r = if is_event && r.response_ended then r else abort env r

  -- `onResourcesChanged`
  pub on_resources_changed : Env → Response D → Response D
  unfolding release_response
  on_resources_changed env r =
      if r.response_ended && not (ltb 0 r.pending_durable_sends) && not env.keep_alive
      then release_response env false r
      else r

  -- `onRequestAbort`
  unfoldable pub on_request_abort : Env → Response D → Response D
  unfolding release_response abort
  on_request_abort env r =
      if r.response_ended || r.response_finishing then release_response env true r else abort env r

  -- The paths that end in one error frame: `reject`, a thrown error, an unknown method, an abort
  -- that came before its request. What follows the send is the event `answer_sent`.
  pub answer_error : WsError → Response D → Response D
  unfolding begin_response_finish send_frame
  answer_error e r =
      if can_finish r then send_frame (final_error e) (begin_response_finish r) else r

  -- The `catch` of `sendJSON`, for data that could not be serialized, up to the `await` of its own send.
  pub send_unserializable : WsError → Response D → Response D
  unfolding begin_response_finish send_frame
  send_unserializable e r = send_frame (final_error e) (begin_response_finish r)

  -- The callback of `setLongTimeout`.
  pub on_timeout : Env → Response D → Response D
  unfolding begin_response_finish send_frame abort
  on_timeout env r =
      if can_finish r
      then send_frame (final_error (record { message = "Request timeout"; code = "timeout" }))
          (abort env (begin_response_finish r))
      else r

  -- The handler's return value is the final response, unless it has answered by itself. A value that
  -- cannot be serialized sends nothing in this turn.
  pub answer : D → (serializes : Bool) → Response D → Response D
  unfolding begin_response_finish send_frame
  answer d serializes r =
      let begun = begin_response_finish r in
      if not (can_finish r)
      then r
      else if serializes
      then send_frame (final_data d) begun
      else record begun { answer_failed = true }

  -- `send` up to its `await`.
  pub send : D → (down serializes : Bool) → Response D → Response D
  unfolding begin_response_finish send_frame
  send d down serializes r =
      let begun = begin_response_finish r in
      if r.response_ended || r.response_finishing
      then r
      else if serializes
      then if down then send_frame (final_data d) begun else send_frame (partial d) r
      else if down
      then record begun { answer_failed = true }
      else record r { unserialized = r.unserialized + 1 }

  -- `send` after its `await`.
  pub after_send : Env → Bool → Bool → Bool → Response D → Response D
  unfolding abort end_response
  after_send env down sent allow_package_loss r =
      let r' = if not sent && not allow_package_loss then abort env r else r in
      if down then end_response env r' else r'

  -- After the error of a response that could not be serialized was sent.
  pub after_unserializable : Env → Response D → Response D
  unfolding abort end_response
  after_unserializable env r = end_response env (abort env r)

  -- `relayLocalEvent`, and what it does when the send has settled.
  pub relay_local_event : String → Bool → Response D → Response D
  unfolding send_frame
  relay_local_event name durable r =
      if r.channel_attached
      then send_frame (relayed name)
          (if durable then record r { pending_durable_sends = r.pending_durable_sends + 1 } else r)
      else r

  pub relay_settled : Env → Response D → Response D
  unfolding release_response on_resources_changed
  relay_settled env r =
      let r' = record r { pending_durable_sends = r.pending_durable_sends - 1 } in
      if r'.release_requested && not (ltb 0 r'.pending_durable_sends)
      then release_response env false r'
      else on_resources_changed env r'

  -- A message event of the peer cannot be decoded: `sendChannelError`. The release that follows
  -- its `await` is an event of its own.
  pub send_channel_error : WsError → Response D → Response D
  unfolding send_frame
  send_channel_error e r = send_frame (channel_error e) r

  -- `_connectWSToOnRequestResponse` and its close listener.
  pub connect : ℕ → Response D → Response D
  connect ws r = if r.registered then record r { client = some ws } else r

  pub on_client_close : ℕ → Response D → Response D
  on_client_close ws r = elim r.client [
    | none ↦ r
    | some c ↦ if c == ws then record r { client = none } else r
  ]
