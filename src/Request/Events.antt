-- ===== src/Request/Events.antt =====
-- What can happen to a request of src/PerfectWS.ts, one turn at a time, and the states that it can
-- reach.
use perfect_ws.Base.{◌<◌, ◌≡◌, String, Bool, true, false, Option, none, [], if◌then◌else◌}
use perfect_ws.Protocol.{WsError}
use perfect_ws.Request.{
  Request, Env, abort, fail, fail_decoding, fail_send, failure, on_reconnect_failed, on_reconnected,
  on_resources_changed, on_server_close, on_timeout, on_unknown, receive, receive_channel_error,
  relay_local_event, relay_settled, release_with, start_sending,
}

-- The request as it enters `_activeRequests`.
unfoldable pub open_request :
    {D : Type 0} → (do_not_wait has_server : Bool) → (aborts_in_final : Option String) → Request D
open_request do_not_wait has_server aborts_in_final = record {
  aborts_in_final = aborts_in_final;
  finished = false;
  has_sent = false;
  delivery_confirmed = false;
  has_replay = false;
  has_server = has_server;
  do_not_wait = do_not_wait;
  released = false;
  channel_was_kept_alive = false;
  pending_durable_sends = 0;
  deferred_release_error = none;
  release_requested = false;
  release_event_emitted = false;
  aborted = false;
  abort_listened = true;
  relay_attached = false;
  resources_listened = true;
  registered = true;
  resources_released = 0;
  settlements = [];
  calls = [];
  initial_sends = 0;
}

pub data Event (D : Type 0) : Type 0 where
  starts : Event D
  content_sent : Event D
  content_confirmed : Event D
  send_fails : WsError → Event D
  responds : Option D → Option WsError → (down : Bool) → Event D
  channel_errors : WsError → Event D
  undecodable : String → Event D
  unknown : Event D
  user_aborts : String → Event D
  times_out : Event D
  expires : Event D
  relays : (durable : Bool) → Event D
  relay_settles : Event D
  resources_change : Event D
  server_closes : Event D
  reconnects : (known : Bool) → Event D
  reconnect_fails : Event D
  releases : WsError → Event D

module _ {D : Type 0} where
  unfoldable pub step : Env → Event D → Request D → Request D
  step env starts r = start_sending r
  step env content_sent r = record r { has_sent = true }
  step env content_confirmed r = record r { delivery_confirmed = true }
  step env (send_fails e) r = fail_send env e r
  step env (responds value error down) r =
      if r.registered then receive env value error down r else r
  step env (channel_errors e) r = if r.registered then receive_channel_error env e r else r
  step env (undecodable message) r = if r.registered then fail_decoding env message r else r
  step env unknown r = if r.registered then on_unknown env r else r
  step env (user_aborts reason) r = abort env reason r
  step env times_out r = on_timeout env r
  step env expires r = fail env (failure "Request timeout" "timeout") r
  step env (relays durable) r = relay_local_event durable r
  step env relay_settles r = relay_settled env r
  step env resources_change r = if r.resources_listened then on_resources_changed env r else r
  step env server_closes r = on_server_close env r
  step env (reconnects known) r = on_reconnected env known r
  step env reconnect_fails r = on_reconnect_failed env r
  step env (releases e) r = if r.registered then release_with env e r else r

  -- A relay settles after it was begun, a request starts once, and what was not sent is not
  -- confirmed.
  abbrev pub Enabled : Event D → Request D → Type 0
  Enabled relay_settles r = 0 < r.pending_durable_sends
  Enabled starts r = r.initial_sends ≡ 0
  Enabled content_confirmed r = 0 < r.initial_sends
  Enabled _ r = Unit

  pub data Reach (do_not_wait has_server : Bool) (reason : Option String) : Request D → Type 0 where
    opened : Reach do_not_wait has_server reason (open_request do_not_wait has_server reason)
    next :
        {r : Request D} (env : Env) (e : Event D)
        → Enabled e r
        → Reach do_not_wait has_server reason r
        → Reach do_not_wait has_server reason (step env e r)
