-- ===== src/Response/Events.antt =====
-- What can happen to a response of `_onRequest` in src/PerfectWS.ts, one turn at a time, and the
-- states that it can reach.
use perfect_ws.Base.{ℕ, ◌-◌, ◌<◌, ◌≡◌, String, Bool, true, false, some, [], if◌then◌else◌}
use perfect_ws.Protocol.{WsError}
use perfect_ws.Response.{
  Response, Env, give_up, after_send, after_unserializable, answer, answer_error, can_finish,
  connect, end_response, on_client_close, on_request_abort, give_up, on_resources_changed,
  on_timeout, relay_local_event, relay_settled, release_response, send, send_channel_error,
  send_unserializable,
}

-- The response as it stands when it enters `_activeResponses`; the timer is armed for a method
-- that is found and a timeout that is finite and positive.
unfoldable pub open_response : {D : Type 0} → ℕ → Bool → Response D
open_response ws timed = record {
  response_ended = false;
  response_finishing = false;
  response_released = false;
  release_requested = false;
  pending_durable_sends = 0;
  timeout_armed = timed;
  aborted = false;
  abort_listened = true;
  channel_attached = true;
  registered = true;
  active_ended = false;
  client = some ws;
  resources_released = 0;
  unserialized = 0;
  answer_failed = false;
  sent = [];
}

pub data Event (D : Type 0) : Type 0 where
  sends : D → (down serializes : Bool) → Event D
  -- the `catch` of `sendJSON` runs, for a call of `send` without `down` and for the answer
  send_fails answer_fails : WsError → Event D
  sent_settles : (down sent allow_package_loss : Bool) → Event D
  failure_sent : Event D
  rejects : WsError → Event D
  returns : D → (serializes : Bool) → Event D
  answer_sent : Event D
  times_out : Event D
  gives_up : (is_event : Bool) → Event D
  remote_abort : Event D
  resources_change : Event D
  relays : (event_name : String) → (durable : Bool) → Event D
  relay_settles : Event D
  releases : (force : Bool) → Event D
  channel_fails : WsError → Event D
  connects : ℕ → Event D
  closes : ℕ → Event D

module _ {D : Type 0} where
  unfoldable pub step : Env → Event D → Response D → Response D
  step env (sends d down serializes) r = send d down serializes r
  step env (send_fails e) r = send_unserializable e (record r { unserialized = r.unserialized - 1 })
  step env (answer_fails e) r = send_unserializable e (record r { answer_failed = false })
  step env (sent_settles down sent loss) r = after_send env down sent loss r
  step env failure_sent r = after_unserializable env r
  step env (rejects e) r = answer_error e r
  step env (returns d serializes) r = answer d serializes r
  step env answer_sent r = end_response env r
  step env times_out r = on_timeout env r
  step env (gives_up is_event) r = give_up env is_event r
  step env remote_abort r = if r.channel_attached then on_request_abort env r else r
  step env resources_change r = if r.channel_attached then on_resources_changed env r else r
  step env (relays name durable) r = relay_local_event name durable r
  step env relay_settles r = relay_settled env r
  step env (releases force) r = release_response env force r
  step env (channel_fails e) r = send_channel_error e r
  step env (connects ws) r = connect ws r
  step env (closes ws) r = on_client_close ws r

  -- What follows an `await` happens only after what stands before it, and a cleared timer does not
  -- fire. In a calm run nothing has answered or ended a response when the failure of a `send` without
  -- `down` is caught.
  abbrev pub Enabled : (calm : Bool) → Event D → Response D → Type 0
  Enabled calm (send_fails e) r = (0 < r.unserialized) × (calm ≡ true → can_finish r ≡ true)
  Enabled calm (answer_fails e) r = r.answer_failed ≡ true
  Enabled calm answer_sent r = (can_finish r ≡ false) × (r.answer_failed ≡ false)
  Enabled calm (sent_settles true sent loss) r = (can_finish r ≡ false) × (r.answer_failed ≡ false)
  Enabled calm failure_sent r = can_finish r ≡ false
  Enabled calm times_out r = r.timeout_armed ≡ true
  Enabled calm relay_settles r = 0 < r.pending_durable_sends
  Enabled calm _ r = Unit

  pub data Reach (calm : Bool) (ws : ℕ) (timed : Bool) : Response D → Type 0 where
    opened : Reach calm ws timed (open_response ws timed)
    next :
        {r : Response D} (env : Env) (e : Event D)
        → Enabled calm e r
        → Reach calm ws timed r
        → Reach calm ws timed (step env e r)
