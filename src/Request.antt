-- ===== src/Request.antt =====
-- The life of one request on the calling side: the closures of `request` in src/PerfectWS.ts over
-- the variables that they share, the part of `_onServerResponse` behind the lookup of the request,
-- and the part of `_syncRequests` for one request. An `await` ends a turn, and what follows it is
-- an event of its own. `D` is the type of the application's data.
pub mod Events
pub mod Flags
pub mod Safety
pub mod Delivery
pub mod Release
mod Tests
use perfect_ws.Base.{
  ℕ, ◌+◌, ◌-◌, ◌<◌, ◌≡◌, String, Bool, true, false, not, ◌&&◌, ◌||◌, Option, none, some, List, [],
  ◌∷◌, ltb, if◌then◌else◌,
}
use perfect_ws.Protocol.{WsError}

-- How the promise that `request` returns was settled.
pub data Settled (D : Type 0) : Type 0 where
  resolved : Option D → Settled D
  rejected : WsError → Settled D

-- A call of `options.callback`.
pub record Call (D : Type 0) : Type 0 where
  pub value : Option D
  pub error : Option WsError
  pub down : Bool

pub record Request (D : Type 0) : Type 0 where
  -- `activeRequest`
  pub finished : Bool
  pub has_sent : Bool
  pub delivery_confirmed : Bool
  pub has_replay : Bool
  pub has_server : Bool
  pub do_not_wait : Bool
  -- the closure's variables
  pub released : Bool
  pub channel_was_kept_alive : Bool
  pub pending_durable_sends : ℕ
  pub deferred_release_error : Option WsError
  pub release_requested : Bool
  pub release_event_emitted : Bool
  -- the reason of the caller's callback where it aborts its own signal within a final call
  pub aborts_in_final : Option String
  -- `abortController.signal.aborted`, and whether `onRequestAbort` still listens to it
  pub aborted : Bool
  pub abort_listened : Bool
  -- whether `relayLocalEvent` and `onResourcesChanged` listen to `events`
  pub relay_attached : Bool
  pub resources_listened : Bool
  -- in `_activeRequests`
  pub registered : Bool
  -- the calls of `releaseRequestResources`
  pub resources_released : ℕ
  -- what the caller sees, the latest first
  pub settlements : List (Settled D)
  pub calls : List (Call D)
  -- how often `initialContent` was handed to `sendRequestRetry`
  pub initial_sends : ℕ

-- What the turn reads of its surroundings: `shouldKeepResponseAlive(events)` and `_unregistered`.
pub record Env : Type 0 where
  pub keep_alive : Bool
  pub unregistered : Bool

abbrev pub failure : String → String → WsError
failure message code = record { message = message; code = code }

-- `a ??= b`
abbrev pub or_else : Option WsError → Option WsError → Option WsError
or_else none b = b
or_else (some e) b = some e

module _ {D : Type 0} where
  -- A local emit that `relayLocalEvent` sends on as a durable control event.
  pub emit_durable : Request D → Request D
  emit_durable r =
      if r.relay_attached
      then record r { pending_durable_sends = r.pending_durable_sends + 1 }
      else r

  -- What stands at the end of `releaseRequest`. A finished request has no abort listener left, so
  -- that its `abort` only sets the signal.
  pub tear_down : Request D → Request D
  tear_down r = record r {
    resources_listened = false;
    relay_attached = false;
    released = true;
    aborted = true;
    resources_released = r.resources_released + 1;
    registered = false;
    has_server = false;
  }

  -- `if (channelWasKeptAlive && !releaseEventEmitted)`
  pub emit_release_once : Request D → Request D
  unfolding emit_durable
  emit_release_once r =
      if r.channel_was_kept_alive && not r.release_event_emitted
      then emit_durable (record r { release_event_emitted = true })
      else r

  -- `releaseRequest` on a request that is finished.
  pub release_finished : Env → Option WsError → Request D → Request D
  unfolding tear_down emit_release_once
  release_finished env error r =
      if r.released
      then r
      else if env.unregistered
      then tear_down r
      else let asked = emit_release_once (record r {
        release_requested = true;
        deferred_release_error = or_else r.deferred_release_error error;
      }) in
        if ltb 0 asked.pending_durable_sends then asked else tear_down asked

  -- `settlement` is undefined once the promise is settled.
  pub settle : Settled D → Request D → Request D
  settle s r = elim r.settlements [ [] ↦ record r { settlements = s ∷ [] } | earlier ∷ more ↦ r ]

  -- The end of `callback`, with `down`.
  pub finish : Env → Option D → Option WsError → Request D → Request D
  unfolding release_finished settle
  finish env value none r =
      let r' = record r {
        finished = true;
        delivery_confirmed = true;
        has_replay = false;
        abort_listened = false;
        channel_was_kept_alive = env.keep_alive;
      } in
      settle (resolved value) (if env.keep_alive then r' else release_finished env none r')
  finish env value (some e) r = settle (rejected e) (
      release_finished env none (record r {
        finished = true;
        delivery_confirmed = true;
        has_replay = false;
        abort_listened = false;
        channel_was_kept_alive = env.keep_alive;
      }))

  pub note_call : Option D → Option WsError → Bool → Request D → Request D
  note_call value error down r = record r {
    calls = record { value = value; error = error; down = down } ∷ r.calls;
  }

  -- What a final call of `options.callback` does to a request that is not finished: where it aborts its
  -- signal, `onRequestAbort` calls `activeRequest.callback` again, before the first call has finished. An
  -- abort within a call that is not final is as one after it.
  pub reenter : Env → Request D → Request D
  unfolding emit_durable finish note_call
  reenter env r = elim r.aborts_in_final [
    | none ↦ r
    | some reason ↦
        let e = failure reason "abort" in
        let told = if r.has_sent then emit_durable r else r in
        if not r.aborted && (r.abort_listened && r.registered)
        then finish env none (some e)
            (note_call none (some e) true (record told { aborted = true }))
        else record r { aborted = true }
  ]

  -- `activeRequest.callback`
  pub callback : Env → Option D → Option WsError → Bool → Request D → Request D
  unfolding reenter finish note_call
  callback env value error down r =
      let called = note_call value error down r in
      if r.finished then r else if down then finish env value error (reenter env called) else called

  pub fail : Env → WsError → Request D → Request D
  fail env e r = callback env none (some e) true r

  -- `releaseRequest(error)`
  pub release_with : Env → WsError → Request D → Request D
  release_with env e r =
      if r.released
      then r
      else if not r.finished
      then fail env e r
      else release_finished env (some e) r

  -- `onRequestAbort`
  pub on_request_abort : Env → String → Request D → Request D
  on_request_abort env reason r =
      if r.registered && not r.finished
      then fail env (failure reason "abort") (if r.has_sent then emit_durable r else r)
      else r

  pub abort : Env → String → Request D → Request D
  abort env reason r =
      if r.aborted
      then r
      else if r.abort_listened
      then on_request_abort env reason (record r { aborted = true })
      else record r { aborted = true }

  -- The callback of `setLongTimeout`.
  pub on_timeout : Env → Request D → Request D
  on_timeout env r =
      if r.finished || r.aborted
      then r
      else if r.has_sent
      then if r.registered
        then fail env (failure "Request timeout" "timeout") (emit_durable r)
        else r
      else fail env (failure "Request connecting timeout" "timeout") r

  -- `onResourcesChanged`
  pub on_resources_changed : Env → Request D → Request D
  on_resources_changed env r =
      if r.finished && not (ltb 0 r.pending_durable_sends) && not env.keep_alive
      then release_finished env none r
      else r

  -- `relayLocalEvent` on an event of the application, and what it does when the send has settled.
  pub relay_local_event : Bool → Request D → Request D
  relay_local_event durable r = if durable then emit_durable r else r

  -- `releaseRequest` with an error that may be undefined.
  pub release_request : Env → Option WsError → Request D → Request D
  release_request env none r = release_finished env none r
  release_request env (some e) r = release_with env e r

  pub relay_settled : Env → Request D → Request D
  relay_settled env r =
      let r' = record r { pending_durable_sends = r.pending_durable_sends - 1 } in
      if r'.release_requested && not (ltb 0 r'.pending_durable_sends)
      then release_request env r'.deferred_release_error r'
      else on_resources_changed env r'

  -- `failSend`: a finished request keeps its channel.
  pub fail_send : Env → WsError → Request D → Request D
  fail_send env e r = if r.released || r.finished then r else fail env e r

  -- The first attempt, in turn after the server is there: relay, replay and the send.
  pub start_sending : Request D → Request D
  start_sending r = if r.finished || r.released || r.aborted then r else record r {
    relay_attached = true;
    has_replay = true;
    has_server = true;
    initial_sends = r.initial_sends + 1;
  }

  -- `activeRequest.replay`
  pub replay : Request D → Request D
  replay r =
      if r.finished || r.released || r.aborted
      then r
      else record r { has_server = true; initial_sends = r.initial_sends + 1 }

  -- `_syncRequests` on a request that the server does not know.
  pub on_unknown : Env → Request D → Request D
  on_unknown env r =
      if not r.delivery_confirmed && r.has_replay
      then replay r
      else release_with env (failure "Unknown request" "unknownRequest") r

  -- `retryOnClose` up to its first `await`.
  pub on_server_close : Env → Request D → Request D
  on_server_close env r =
      if r.finished || r.aborted
      then record r { has_server = false }
      else if r.do_not_wait
      then fail env (failure "Server closed" "serverClosed") r
      else r

  -- `retryOnClose` once `hasRequest` has answered on the new server.
  pub on_reconnected : Env → (known : Bool) → Request D → Request D
  on_reconnected env known r =
      if known
      then if r.finished then r else record r { has_server = true }
      else if not r.delivery_confirmed
      then record r { has_server = true; initial_sends = r.initial_sends + 1 }
      else fail env (failure "Unknown request" "unknownRequest") r

  -- `retryOnClose` after a failed wait or check.
  pub on_reconnect_failed : Env → Request D → Request D
  on_reconnect_failed env r =
      fail env (failure "Failed to check request status" "reconnectFailed") r

  -- `request.events.emit('___request.release')` and `request.release`, when a payload of the
  -- server cannot be decoded.
  pub fail_decoding : Env → String → Request D → Request D
  fail_decoding env message r =
      release_with env (failure message "deserializeFailed") (emit_durable r)

  -- A response frame of the server, its data already decoded.
  pub receive : Env → Option D → Option WsError → (down : Bool) → Request D → Request D
  receive env value error down r =
      if r.finished && down
      then r
      else callback env value error down
          (if down then record r { delivery_confirmed = true; has_replay = false } else r)

  -- A channel error: `request.release` on a finished request, else it is as any final error.
  pub receive_channel_error : Env → WsError → Request D → Request D
  receive_channel_error env e r =
      if r.finished then release_with env e r else receive env none (some e) true r
